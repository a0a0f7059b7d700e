-- ===== src/Retrieval.antt =====
-- The retrieval feature (backend/app/features/retrieval).
pub mod Hits
pub mod Breaker
pub mod Fusion
pub mod Reranker
pub mod Relevance
pub mod Judging
pub mod Search
pub mod Service
