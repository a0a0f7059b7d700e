-- ===== src/Ingestion.antt =====
-- From a document to what is searched: backend/app/features/ingestion.
pub mod Chunker
pub mod Columns
pub mod Classification
pub mod Routing
mod Pipeline
mod Upload
mod Requeue
