-- ===== src/Ingestion/Upload.antt =====
-- How a document comes in: `DocumentService.upload`, `_record`, `_merge` and `_resolve_labels` of
-- backend/app/features/documents/service.py, and what is sent to the queue. The stored file and its
-- checks are left out. Sets of labels are ascending lists. Which rows a session sees is an argument.
mod Wanted
mod Kept
mod Tests
use zenith_enterprise.Common.{
  ℕ, ◌+◌, Bool, true, false, Option, none, some, List, [], ◌∷◌, ◌++◌, ◌==◌, ltb, leb, if◌then◌else◌,
  ◌&&◌, ◌||◌, not, length, keep_if, contains, sort_distinct,
}
use zenith_enterprise.Common.Text.{Text, text_eq, is_empty}

-- The labels of a tenant that the service asks for. `restored` is the quarantine label that
-- `ensure_quarantine_label` makes where there is none.
pub record Labels : Type 0 where
  pub default : Option ℕ
  pub quarantine : Option ℕ
  pub restored : ℕ
  pub in_tenant : List ℕ

-- The labels of an upload, or those that are unknown, or not held.
pub data Resolved : Type 0 where
  wanted : List ℕ → Resolved
  unknown_labels : List ℕ → Resolved
  not_held : List ℕ → Resolved

abbrev pub is_default_alone : Option ℕ → List ℕ → Bool
is_default_alone none requested = false
is_default_alone (some d) requested = text_eq (sort_distinct requested) (d ∷ [])

abbrev pub chose_nothing : Labels → List ℕ → Bool
chose_nothing ls requested = is_empty requested || is_default_alone ls.default requested

abbrev pub quarantine_of : Labels → ℕ
quarantine_of ls = elim ls.quarantine [ none ↦ ls.restored | some q ↦ q ]

-- `_resolve_labels`, with the labels that the caller reaches
abbrev pub resolve_labels : Labels → List ℕ → List ℕ → Resolved
resolve_labels ls reach requested =
    let unknown = keep_if (λ l. not (contains l ls.in_tenant)) requested in
    let beyond = keep_if (λ l. not (contains l reach)) requested in
    if chose_nothing ls requested
    then wanted (quarantine_of ls ∷ [])
    else if not (is_empty unknown)
    then unknown_labels unknown
    else if not (is_empty beyond)
    then not_held beyond
    else wanted (sort_distinct requested)

pub record Document : Type 0 where
  pub id : ℕ
  pub sha256 : Text
  pub label_ids : List ℕ
  pub uploaded_by : ℕ

-- The documents of a tenant and the jobs sent to the queue, each a document with its labels.
pub record Library : Type 0 where
  pub documents : List Document
  pub jobs : List (ℕ × List ℕ)

-- `Upload`, or why there is none.
pub data Uploaded : Type 0 where
  upload_of : ℕ → List ℕ → Bool → Uploaded
  refused_labels : Resolved → Uploaded
  limit_exceeded : Uploaded
  conflict : Uploaded

abbrev pub find_document : (Document → Bool) → List Document → Option Document
find_document p [] = none
find_document p (d ∷ ds) = let rest = find_document p ds in if p d then some d else rest

-- `set_document_labels`, and the trigger that copies them into the row
abbrev pub set_labels : ℕ → List ℕ → List Document → List Document
set_labels id labels [] = []
set_labels id labels (d ∷ ds) =
    (if d.id == id then record d { label_ids = labels } else d) ∷ set_labels id labels ds

-- A job for what is new.
abbrev pub enqueue : Uploaded → Library → Library
enqueue (upload_of id labels false) lib = record lib { jobs = lib.jobs ++ (id, labels) ∷ [] }
enqueue (upload_of id labels true) lib = lib
enqueue (refused_labels r) lib = lib
enqueue limit_exceeded lib = lib
enqueue conflict lib = lib

-- `union - {quarantine}` where the union holds the quarantine label and others.
abbrev pub less_quarantine : Option ℕ → List ℕ → List ℕ
less_quarantine none union = union
less_quarantine (some q) union =
    if contains q union && ltb 1 (length union) then keep_if (λ l. not (l == q)) union else union

abbrev pub merged : Labels → List ℕ → List ℕ → List ℕ
merged ls current labels = less_quarantine ls.quarantine (sort_distinct (current ++ labels))

-- `_merge`
abbrev pub merge : Labels → Document → List ℕ → Library → Library × Uploaded
merge ls existing labels lib =
    let union = merged ls existing.label_ids labels in
    (
      record lib { documents = set_labels existing.id union lib.documents },
      upload_of existing.id union true,
    )

abbrev pub has_sha256 : Text → Document → Bool
has_sha256 sha256 d = text_eq d.sha256 sha256

abbrev pub fresh_document : ℕ → Text → List ℕ → ℕ → Document
fresh_document id sha256 labels user = record {
  id = id;
  sha256 = sha256;
  label_ids = labels;
  uploaded_by = user;
}

module _ (ls : Labels) (reach : List ℕ) (user max_documents : ℕ) (sees : Document → Bool) where
  -- The insert, which the row of a document that the session does not see refuses.
  abbrev pub insert_beside : Option Document → ℕ → Text → List ℕ → Library → Library × Uploaded
  insert_beside (some hidden) id sha256 labels lib = (lib, conflict)
  insert_beside none id sha256 labels lib = (
    record lib { documents = lib.documents ++ fresh_document id sha256 labels user ∷ [] },
    upload_of id labels false,
  )

  -- `_record` where the session sees no document of these bytes.
  abbrev pub insert : ℕ → Text → List ℕ → Library → Library × Uploaded
  insert id sha256 labels lib =
      if leb max_documents (length (keep_if sees lib.documents))
      then (lib, limit_exceeded)
      else insert_beside (find_document (has_sha256 sha256) lib.documents) id sha256 labels lib

  abbrev pub merge_or_insert : Option Document → ℕ → Text → List ℕ → Library → Library × Uploaded
  merge_or_insert none id sha256 labels lib = insert id sha256 labels lib
  merge_or_insert (some existing) id sha256 labels lib = merge ls existing labels lib

  abbrev pub record_as : Resolved → ℕ → Text → Library → Library × Uploaded
  record_as (wanted labels) id sha256 lib =
      merge_or_insert (find_document (λ d. has_sha256 sha256 d && sees d) lib.documents) id sha256
        labels lib
  record_as (unknown_labels ks) id sha256 lib = (lib, refused_labels (unknown_labels ks))
  record_as (not_held ks) id sha256 lib = (lib, refused_labels (not_held ks))

  -- `upload`, of bytes with a digest; a new row has the given identifier.
  unfoldable pub upload : ℕ → Text → List ℕ → Library → Library × Uploaded
  upload id sha256 requested lib =
      let stored = record_as (resolve_labels ls reach requested) id sha256 lib in
      (enqueue stored.1 stored.0, stored.1)
