-- ===== src/Retrieval/Hits.antt =====
-- `Hit` of backend/app/features/retrieval/search.py, less its labels and its three magnitudes, and
-- `Box` of backend/app/features/ingestion/parsers/base.py, its coordinates in millionths of the page.
use zenith_enterprise.Common.{ℕ, List, Option}
use zenith_enterprise.Common.Text.{Text}

pub record Box : Type 0 where
  pub page : ℕ
  pub x0 : ℕ
  pub y0 : ℕ
  pub x1 : ℕ
  pub y1 : ℕ

pub record Hit : Type 0 where
  pub chunk_id : ℕ
  pub document_id : ℕ
  pub filename : Text
  pub media_type : Text
  pub page_num : Option ℕ
  pub char_start : ℕ
  pub char_end : ℕ
  pub text : Text
  pub bboxes : List Box
  pub lexical_rank : Option ℕ
  pub dense_rank : Option ℕ
