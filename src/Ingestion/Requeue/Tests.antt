-- ===== src/Ingestion/Requeue/Tests.antt =====
-- Four documents, two of them stranded.
use zenith_enterprise.Common.{ℕ, ◌≡◌, refl, true, false, none, some, List, [], ◌∷◌, length, arith}
use zenith_enterprise.Common.Text.{codes}
use zenith_enterprise.Ingestion.Classification.{World, reaches}
use zenith_enterprise.Ingestion.Pipeline.Rows.{
  Status, embedding, ready, failed, plain, Document, Store,
}
use zenith_enterprise.Ingestion.Pipeline.Held.{AreApart}
use zenith_enterprise.Ingestion.Pipeline.Runs.{HasEnded}
use zenith_enterprise.Ingestion.Pipeline.{Services}
use zenith_enterprise.Ingestion.Requeue.{
  Stranded, find_stranded, Job, job_of, requeue, ingest_document,
}
use zenith_enterprise.Ingestion.Requeue.Sent.{Sends, requeue-Sends, ingest_document_ends}

abbrev row : ℕ → Status → List ℕ → Stranded
row id status labels = record {
  document_id = id;
  tenant_id = 1;
  filename = codes "a.txt";
  status = status;
  label_ids = labels;
}

abbrev documents : List Stranded
documents =
    row 1 embedding (4 ∷ [])
    ∷ row 2 ready (4 ∷ [])
    ∷ row 3 failed (5 ∷ [])
    ∷ row 4 failed []
    ∷ row 5 embedding (4 ∷ [])
    ∷ []

sends_two :
    requeue (find_stranded none none (some (5 ∷ [])) documents)
    ≡ (job_of (row 1 embedding (4 ∷ [])) ∷ job_of (row 3 failed (5 ∷ [])) ∷ [], 2)
unfolding requeue
sends_two = refl

requeue-Sends_example :
    Sends
      (some 1)
      none
      (some (5 ∷ []))
      documents
      (requeue (find_stranded (some 1) none (some (5 ∷ [])) documents)).0
    × ((requeue (find_stranded (some 1) none (some (5 ∷ [])) documents)).1
        ≡ length (requeue (find_stranded (some 1) none (some (5 ∷ [])) documents)).0)
requeue-Sends_example = requeue-Sends (some 1) none (some (5 ∷ [])) documents

-- An installation whose stored file is missing.
abbrev bare : World
bare = record { label_ids = λ user. reaches []; access_labels = []; provider = none }

abbrev services : Services ℕ
services = record {
  file_exists = false;
  count_pages = none;
  parse = none;
  embed = λ texts. none;
  classifier = bare;
  record_raises = false;
  max_pages = 2000;
  ocr_implemented = false;
  ocr_capable = false;
  error_name = [];
  error_text = [];
}

abbrev stuck : Document
stuck = record {
  media_type = plain;
  status = embedding;
  status_detail = none;
  page_count = none;
  label_ids = 4 ∷ [];
  uploaded_by = none;
}

abbrev store : Store ℕ
store = record {
  document = some stuck;
  pages = [];
  rows = [];
  space_registered = true;
  events = [];
}

bare-AreApart : AreApart bare
bare-AreApart q h = absurd (ground (arith, h))

abbrev job : Job
job = job_of (row 1 embedding (4 ∷ []))

ingest_document_ends_example :
    HasEnded services store stuck
      (ingest_document services job store).0
      (ingest_document services job store).1
ingest_document_ends_example =
    ingest_document_ends services job store stuck refl refl refl bare-AreApart
