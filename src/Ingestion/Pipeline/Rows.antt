-- ===== src/Ingestion/Pipeline/Rows.antt =====
-- The rows of one document, and what the pipeline writes to them. A session reads and writes the
-- document only while its labels meet those of the context, or there are none (the policy of
-- migration 0001): a write to a row that is not visible does nothing.
use zenith_enterprise.Common.{
  ℕ, suc, Bool, map, true, false, Option, none, some, List, [], ◌∷◌, ◌++◌, ◌==◌, if◌then◌else◌,
  ◌||◌, length, take, contains,
}
use zenith_enterprise.Common.Text.{Text, codes, strip, is_empty, join, show}
use zenith_enterprise.Ingestion.Chunker.{Chunk}
use zenith_enterprise.Ingestion.Chunker.Boxes.{ParsedPage}

pub data Media : Type 0 where
  pdf plain markdown : Media

abbrev pub is_paginated : Media → Bool
is_paginated pdf = true
is_paginated plain = false
is_paginated markdown = false

pub data Status : Type 0 where
  pending parsing chunking embedding classifying ready failed : Status

-- `label_ids` is the trigger's copy of the rows of `document_labels`.
pub record Document : Type 0 where
  pub media_type : Media
  pub status : Status
  pub status_detail : Option Text
  pub page_count : Option ℕ
  pub label_ids : List ℕ
  pub uploaded_by : Option ℕ

-- `extraction_method` and the text of a stored page.
pub record Page : Type 0 where
  pub page_num : ℕ
  pub extraction_method : Text
  pub text : Text

-- A chunk with its vector.
pub record Row (V : Type 0) : Type 0 where
  pub chunk : Chunk
  pub embedding : V

-- `document.classified` in the audit trail, with the labels.
pub record Event : Type 0 where
  pub labels : List ℕ

pub record Store (V : Type 0) : Type 0 where
  pub document : Option Document
  pub pages : List Page
  pub rows : List (Row V)
  pub space_registered : Bool
  pub events : List Event

abbrev pub meets : List ℕ → List ℕ → Bool
meets [] ys = false
meets (x ∷ xs) ys = contains x ys || meets xs ys

abbrev pub visible : List ℕ → Document → Bool
visible context d = is_empty d.label_ids || meets d.label_ids context

-- `session.get(Document, id)`: the row, where the context sees it.
abbrev pub get_visible : List ℕ → Option Document → Option Document
get_visible context none = none
get_visible context (some d) = if visible context d then some d else none

abbrev pub updated : (Document → Document) → List ℕ → Option Document → Option Document
updated f context none = none
updated f context (some d) = if visible context d then some (f d) else some d

abbrev pub combined : Option Text → Text → Text
combined none detail = detail
combined (some existing) detail =
    if is_empty (strip existing) then detail else strip existing ++ (59 ∷ 32 ∷ detail)

module _ {V : Type 0} (context : List ℕ) where
  abbrev pub on_document : (Document → Document) → Store V → Store V
  on_document f s = record s { document = updated f context s.document }

  abbrev pub set_status : Status → Store V → Store V
  set_status status = on_document λ d. record d { status = status }

  -- `_note`
  abbrev pub note : Text → Store V → Store V
  note detail =
      on_document
        λ d. record d { status_detail = some (take 500 (combined d.status_detail detail)) }

  -- `_mark_failed`
  abbrev pub mark_failed : Text → Store V → Store V
  mark_failed detail =
      on_document λ d. record d { status = failed; status_detail = some (take 500 detail) }

-- `zip(rows, vectors, strict=True)`
abbrev pub zip_rows : {V : Type 0} → List Chunk → List V → Option (List (Row V))
zip_rows [] [] = some []
zip_rows [] (v ∷ vs) = none
zip_rows (c ∷ cs) [] = none
zip_rows (c ∷ cs) (v ∷ vs) = elim (zip_rows cs vs) [
  | none ↦ none
  | some rows ↦ some (record { chunk = c; embedding = v } ∷ rows)
]

-- `extraction_method`, with the warnings
pub method_of : ParsedPage → Text
method_of page =
    if is_empty page.warnings
    then page.method
    else take 200 (page.method ++ (32 ∷ 40 ∷ join (59 ∷ 32 ∷ []) page.warnings ++ 41 ∷ []))

abbrev pub warned : List ParsedPage → ℕ
warned [] = 0
warned (page ∷ pages) = let rest = warned pages in if is_empty page.warnings then rest else suc rest

-- `_summarise`
unfoldable pub summarise : List ParsedPage → Option Text
summarise pages =
    if warned pages == 0
    then none
    else some (
        show (warned pages)
        ++ (codes " of " ++ (show (length pages) ++ codes " page(s) extracted with warnings")))

abbrev pub stored_page : ParsedPage → Page
stored_page page = record {
  page_num = page.page_num;
  extraction_method = method_of page;
  text = page.text;
}

abbrev pub as_classifying : List ParsedPage → Document → Document
as_classifying pages d = record d {
  page_count = if is_paginated d.media_type then some (length pages) else none;
  status = classifying;
  status_detail = summarise pages;
}

-- `_persist`: one transaction, which the unequal lengths of chunks and vectors roll back. What an
-- earlier run stored is deleted first.
abbrev pub store_rows :
    {V : Type 0} → List ℕ → List ParsedPage → Option (List (Row V)) → Store V → Option (Store V)
store_rows context pages none s = none
store_rows context pages (some rows) s = some (
    on_document context (as_classifying pages)
      (record s { pages = map stored_page pages; rows = rows; space_registered = true }))

abbrev pub persist :
    {V : Type 0} → List ℕ → List ParsedPage → List Chunk → List V → Store V → Option (Store V)
persist context pages chunks vectors s = store_rows context pages (zip_rows chunks vectors) s
