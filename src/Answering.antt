-- ===== src/Answering.antt =====
-- How an answer is checked before it is shown (backend/app/features/generation/answering).
pub mod Streaming
pub mod Citations
pub mod Conversation
pub mod Routing
pub mod Prompt
mod Service
