-- ===== src/Pagination.antt =====
-- The cursors of the lists: backend/app/features/documents/pagination.py and
-- backend/app/features/labels/pagination.py.
pub mod Base64
pub mod Cursors
pub mod LabelCursors
