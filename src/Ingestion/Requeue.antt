-- ===== src/Ingestion/Requeue.antt =====
-- Documents that should be in the pipeline and are not: backend/app/features/ingestion/requeue.py, and
-- the job of backend/app/features/ingestion/tasks.py. The rows of the owner's session, in the order of
-- their creation, and the queue are arguments.
mod Sent
mod Tests
use zenith_enterprise.Common.{
  ℕ, suc, Bool, true, false, Option, none, some, List, [], ◌∷◌, ◌==◌, if◌then◌else◌, ◌&&◌, ◌||◌,
  not, map, keep_if, contains,
}
use zenith_enterprise.Common.Text.{Text, is_empty}
use zenith_enterprise.Ingestion.Pipeline.Rows.{
  Status, pending, parsing, chunking, embedding, classifying, ready, failed, Store,
}
use zenith_enterprise.Ingestion.Pipeline.{Services, Result, run}

-- `DOCUMENT_STATUSES.index`
abbrev pub index_of_status : Status → ℕ
index_of_status pending = 0
index_of_status parsing = 1
index_of_status chunking = 2
index_of_status embedding = 3
index_of_status classifying = 4
index_of_status ready = 5
index_of_status failed = 6

abbrev pub same_status : Status → Status → Bool
same_status a b = index_of_status a == index_of_status b

-- `IN_FLIGHT`
abbrev pub is_in_flight : Status → Bool
is_in_flight s = not (same_status s ready || same_status s failed)

-- `REQUEUABLE`
abbrev pub is_requeuable : Status → Bool
is_requeuable s = is_in_flight s || same_status s failed

-- A row, with the labels of `document_labels`.
pub record Stranded : Type 0 where
  pub document_id : ℕ
  pub tenant_id : ℕ
  pub filename : Text
  pub status : Status
  pub label_ids : List ℕ

abbrev pub has_status : Option Status → Status → Bool
has_status none s = is_requeuable s
has_status (some asked) s = same_status s asked

abbrev pub is_of : Option ℕ → ℕ → Bool
is_of none tenant = true
is_of (some asked) tenant = tenant == asked

-- No job of the document is waiting or running. There may be no queue yet.
abbrev pub is_idle : Option (List ℕ) → ℕ → Bool
is_idle none document = true
is_idle (some queued) document = not (contains document queued)

abbrev pub is_stranded : Option ℕ → Option Status → Option (List ℕ) → Stranded → Bool
is_stranded tenant status queue d =
    has_status status d.status && is_of tenant d.tenant_id && is_idle queue d.document_id

abbrev pub find_stranded :
    Option ℕ → Option Status → Option (List ℕ) → List Stranded → List Stranded
find_stranded tenant status queue documents = keep_if (is_stranded tenant status queue) documents

-- The payload of `ingest_document`.
pub record Job : Type 0 where
  pub tenant_id : ℕ
  pub document_id : ℕ
  pub label_ids : List ℕ

abbrev pub job_of : Stranded → Job
job_of d = record { tenant_id = d.tenant_id; document_id = d.document_id; label_ids = d.label_ids }

-- `requeue`: the jobs that are sent, and their number.
unfoldable pub requeue : List Stranded → List Job × ℕ
requeue [] = ([], 0)
requeue (d ∷ ds) =
    let rest = requeue ds in if is_empty d.label_ids then rest else (job_of d ∷ rest.0, suc rest.1)

-- `ingest_document`, over the rows of its document
unfoldable pub ingest_document : {V : Type 0} → Services V → Job → Store V → Store V × Result
ingest_document sv job s = run sv job.label_ids s
