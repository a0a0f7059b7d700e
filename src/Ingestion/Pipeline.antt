-- ===== src/Ingestion/Pipeline.antt =====
-- One document from its bytes to chunks, vectors and labels: `IngestionPipeline` of
-- backend/app/features/ingestion/pipeline.py. The state is the rows of one document and nobody else
-- writes them meanwhile. The parsers, the embedder and the audit trail are a record `Services`, in
-- which `none` is an exception; the database itself does not fail. Rows carry no generated
-- identifiers.
pub mod Rows
pub mod Notes
mod Routed
mod Relabelling
pub mod Held
pub mod Runs
mod Tests
use zenith_enterprise.Common.{
  ℕ, ◌+◌, Bool, true, false, Option, none, some, List, [], ◌∷◌, ◌++◌, ◌==◌, ltb, if◌then◌else◌,
  ◌&&◌, not, length, map, take, keep_if, contains,
}
use zenith_enterprise.Common.Text.{Text, codes, strip, is_empty, show, join}
use zenith_enterprise.Ingestion.Chunker.{Chunk, chunk_page, chunk_stream, target_characters}
use zenith_enterprise.Ingestion.Chunker.Boxes.{ParsedPage}
use zenith_enterprise.Ingestion.Routing.{Route, Decision, decide, layout, fast, unreadable}
use zenith_enterprise.Ingestion.Classification as C
use zenith_enterprise.Ingestion.Classification.{World, file}
use Rows.{
  Media, is_paginated, parsing, chunking, embedding, ready, Document, Store, Event, get_visible,
  updated, set_status, note, mark_failed, persist,
}
use Notes.{
  missing_file, too_many_pages, no_text, filing_broke, filing_failed, no_default, not_filed,
  omission, later, not_visible,
}

-- `Routing`
pub record Routing : Type 0 where
  pub pages : List ParsedPage
  pub unreadable_reason : Option Text
  pub omitted : List ℕ

-- The warning that a page of another layout is read by the parser there is.
abbrev pub routed_page : Decision → ParsedPage → ParsedPage
routed_page d page = record page {
  warnings = elim d.route [
    | layout ↦ d.warnings ++ later d.reason ∷ []
    | fast ↦ d.warnings
    | unreadable ↦ d.warnings
  ];
}

abbrev pub first_of : Option Text → Text → Text
first_of none reason = reason
first_of (some earlier) reason = earlier

-- The body of the loop of `_route`.
abbrev pub route_as : Route → Decision → ParsedPage → Routing → Routing
route_as unreadable d page r = record r {
  unreadable_reason = some (first_of r.unreadable_reason d.reason);
  omitted = r.omitted ++ page.page_num ∷ [];
}
route_as layout d page r = record r { pages = r.pages ++ routed_page d page ∷ [] }
route_as fast d page r = record r { pages = r.pages ++ routed_page d page ∷ [] }

abbrev pub route_one : Decision → ParsedPage → Routing → Routing
route_one d page r = route_as d.route d page r

abbrev pub route_from : Bool → Bool → Routing → List ParsedPage → Routing
route_from implemented capable r [] = r
route_from implemented capable r (page ∷ pages) =
    route_from implemented capable (route_one (decide implemented page capable) page r) pages

abbrev pub route : Bool → Bool → List ParsedPage → Routing
route implemented capable pages =
    route_from implemented capable (record { pages = []; unreadable_reason = none; omitted = [] })
      pages

-- What the code calls on the way; `none` is an exception.
pub record Services (V : Type 0) : Type 0 where
  pub file_exists : Bool
  pub count_pages : Option ℕ
  pub parse : Option (List ParsedPage)
  pub embed : List Text → Option (List V)
  pub classifier : World
  pub record_raises : Bool
  pub max_pages : ℕ
  pub ocr_implemented : Bool
  pub ocr_capable : Bool
  -- The type and message of an exception, and its message alone.
  pub error_name : Text
  pub error_text : Text

pub data ResultStatus : Type 0 where
  unknown failure success : ResultStatus

pub record Result : Type 0 where
  pub status : ResultStatus
  pub pages : ℕ
  pub chunks : ℕ
  pub detail : Option Text

abbrev find_label : (C.Label → Bool) → List C.Label → Option ℕ
find_label p [] = none
find_label p (l ∷ ls) = let rest = find_label p ls in if p l then some l.id else rest

abbrev pub default_id : World → Option ℕ
default_id w = find_label (λ l. l.is_default) w.access_labels

abbrev pub quarantine_id : World → Option ℕ
quarantine_id w = find_label (λ l. l.is_quarantine) w.access_labels

abbrev pub is_only : ℕ → List ℕ → Bool
is_only q [] = false
is_only q (l ∷ []) = l == q
is_only q (l ∷ m ∷ ls) = false

-- `INSERT ... ON CONFLICT DO NOTHING`, for each label
abbrev pub add_labels : List ℕ → List ℕ → List ℕ
add_labels [] ls = ls
add_labels (a ∷ applied) ls = add_labels applied (if contains a ls then ls else ls ++ a ∷ [])

abbrev pub without_label : ℕ → List ℕ → List ℕ
without_label q = keep_if λ l. not (l == q)

-- What `_file` comes to: the labels were swapped, they were left alone, or it raised.
pub data Filed (V : Type 0) : Type 0 where
  settled : Store V → Filed V
  left_alone : Store V → Filed V
  file_raised : Store V → Filed V

-- `_ingest` returns, or raises and leaves the rows as they are then.
pub data Ingested (V : Type 0) : Type 0 where
  returned : Store V → Result → Ingested V
  raised : Store V → Ingested V

abbrev pub swapped : ℕ → List ℕ → Document → Document
swapped q applied d = record d {
  status = ready;
  label_ids = without_label q (add_labels applied d.label_ids);
}

abbrev pub chunks_of_pages : List ParsedPage → List Chunk
chunks_of_pages [] = []
chunks_of_pages (page ∷ pages) = chunk_page page target_characters ++ chunks_of_pages pages

abbrev pub unrouted : List ParsedPage → Routing
unrouted pages = record { pages = pages; unreadable_reason = none; omitted = [] }

abbrev pub excerpt_of : List Chunk → Text
excerpt_of chunks = join (10 ∷ []) (map (λ c. c.text) (take 6 chunks))

module _ {V : Type 0} (sv : Services V) (context : List ℕ) where
  -- The last two transactions of `_file`.
  abbrev pub swap_labels : ℕ → List ℕ → Store V → Filed V
  swap_labels q applied s =
      let s' = record s { document = updated (swapped q applied) context s.document } in
      if sv.record_raises
      then file_raised s'
      else settled (record s' { events = s'.events ++ record { labels = applied } ∷ [] })

  abbrev pub note_some : Option Text → Store V → Store V
  note_some none s = s
  note_some (some detail) s = note context detail s

  -- `_file` where the model named nothing that may be applied.
  abbrev pub release_into : Option ℕ → ℕ → C.Outcome → Store V → Filed V
  release_into none q outcome s = left_alone (note context no_default s)
  release_into (some home) q outcome s = swap_labels q (home ∷ []) (note_some (not_filed outcome) s)

  abbrev pub release : ℕ → C.Outcome → Store V → Filed V
  release q outcome s = release_into (default_id sv.classifier) q outcome s

  abbrev pub named_or_default : ℕ → List ℕ → C.Outcome → Store V → Filed V
  named_or_default q [] outcome s = release q outcome s
  named_or_default q (l ∷ ls) outcome s = swap_labels q (l ∷ ls) s

  abbrev pub apply_outcome : ℕ → List ℕ → Option Text → C.Outcome → Store V → Filed V
  apply_outcome q applied detail C.failed s = left_alone (note context (filing_failed detail) s)
  apply_outcome q applied detail outcome s = named_or_default q applied outcome s

  abbrev pub apply_filing : ℕ → C.Filing → Store V → Filed V
  apply_filing q filing s =
      apply_outcome q (without_label q filing.labels) filing.detail filing.outcome s

  -- `_file`, of the row that the session reads and the quarantine label there is.
  abbrev pub file_row : List Chunk → Option Document → Option ℕ → Store V → Filed V
  file_row chunks none q s = left_alone s
  file_row chunks (some d) none s = left_alone s
  file_row chunks (some d) (some q) s =
      if is_only q d.label_ids
      then apply_filing q (file sv.classifier d.uploaded_by (excerpt_of chunks)) s
      else left_alone s

  -- `_file`
  abbrev pub file_document : List Chunk → Store V → Filed V
  file_document chunks s =
      file_row chunks (get_visible context s.document) (quarantine_id sv.classifier) s

  -- The end of `_ingest`, from the answer of `_file` on.
  abbrev pub finish : Filed V → Store V
  finish (settled s) = s
  finish (left_alone s) = set_status context ready s
  finish (file_raised s) = set_status context ready (note context filing_broke s)

  abbrev pub refuse : Text → ℕ → Store V → Ingested V
  refuse detail pages s =
      returned (mark_failed context detail s)
        (record { status = failure; pages = pages; chunks = 0; detail = some detail })

  abbrev pub omission_noted : Routing → ℕ → Store V → Store V
  omission_noted r total s =
      if is_empty r.omitted
      then s
      else note context (omission r.omitted r.unreadable_reason total) s

  abbrev pub after_persisting : Routing → ℕ → List Chunk → Option (Store V) → Store V → Ingested V
  after_persisting r total chunks none s = raised s
  after_persisting r total chunks (some stored) s =
      returned (finish (file_document chunks (omission_noted r total stored)))
        (record { status = success; pages = total; chunks = length chunks; detail = none })

  abbrev pub after_vectors : Routing → ℕ → List Chunk → Option (List V) → Store V → Ingested V
  after_vectors r total chunks none s = raised s
  after_vectors r total chunks (some vectors) s =
      after_persisting r total chunks (persist context r.pages chunks vectors s) s

  abbrev pub after_chunks : Routing → ℕ → List Chunk → Store V → Ingested V
  after_chunks r total chunks s =
      if is_empty chunks
      then refuse (first_of r.unreadable_reason no_text) total s
      else after_vectors r total chunks (sv.embed (map (λ c. c.text) chunks))
          (set_status context embedding s)

  -- A text without a page raises.
  abbrev pub split_text : List ParsedPage → Store V → Ingested V
  split_text [] s = raised s
  split_text (page ∷ pages) s =
      after_chunks (unrouted (page ∷ pages)) (length (page ∷ pages))
        (chunk_stream page.text target_characters) s

  abbrev pub after_parsing : Bool → Option (List ParsedPage) → Store V → Ingested V
  after_parsing paginated none s = raised s
  after_parsing true (some pages) s =
      let r = route sv.ocr_implemented sv.ocr_capable pages in
      after_chunks r (length pages) (chunks_of_pages r.pages) (set_status context chunking s)
  after_parsing false (some pages) s = split_text pages (set_status context chunking s)

  abbrev pub within_limit : Bool → ℕ → Store V → Ingested V
  within_limit paginated pages s =
      if ltb sv.max_pages pages
      then refuse (too_many_pages pages sv.max_pages) pages s
      else after_parsing paginated sv.parse (set_status context parsing s)

  abbrev pub after_counting : Bool → Option ℕ → Store V → Ingested V
  after_counting false counted s = within_limit false 0 s
  after_counting true none s = raised s
  after_counting true (some pages) s = within_limit true pages s

  -- `_ingest`
  unfoldable pub ingest : Media → Store V → Ingested V
  ingest media s =
      if sv.file_exists
      then after_counting (is_paginated media) sv.count_pages s
      else refuse missing_file 0 s

  -- The handler of `run`.
  abbrev pub settle : Ingested V → Store V × Result
  settle (returned s r) = (s, r)
  settle (raised s) = (
    mark_failed context sv.error_name s,
    record { status = failure; pages = 0; chunks = 0; detail = some sv.error_text },
  )

  -- `run`, of the row that the session reads.
  abbrev pub run_row : Option Document → Store V → Store V × Result
  run_row none s =
      (s, record { status = unknown; pages = 0; chunks = 0; detail = some not_visible })
  run_row (some d) s = settle (ingest d.media_type s)

  unfoldable pub run : Store V → Store V × Result
  run s = run_row (get_visible context s.document) s
