-- ===== src/Embeddings.antt =====
-- The embedding service and its client: backend/app/features/embeddings.
mod Client
