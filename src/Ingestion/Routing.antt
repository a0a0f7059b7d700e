-- ===== src/Ingestion/Routing.antt =====
-- Which parser reads a page: backend/app/features/ingestion/routing.py. Whether OCR is implemented,
-- a constant of backend/app/core/hardware.py, is an argument.
mod Laws
use zenith_enterprise.Common.{
  ℕ, suc, ◌+◌, ◌*◌, ◌/◌, Bool, true, false, List, [], ◌∷◌, ◌++◌, ltb, leb, if◌then◌else◌, ◌&&◌,
  length, map, keep_if,
}
use zenith_enterprise.Common.Text.{Text, codes, strip, is_space, is_empty}
use zenith_enterprise.Ingestion.Chunker.Boxes.{ParsedPage, Word}
use zenith_enterprise.Ingestion.Columns.{is_multi_column}

abbrev pub fewest_characters : ℕ
fewest_characters = 100

abbrev pub long_run : ℕ
long_run = 30

pub data Route : Type 0 where
  fast layout unreadable : Route

pub record Decision : Type 0 where
  pub route : Route
  pub reason : Text
  pub warnings : List Text

pub needs_ocr : Text
needs_ocr = codes "no extractable text layer; needs OCR"

pub no_ocr : Text
no_ocr = codes "no extractable text layer, and no OCR is available to this installation"

pub suspect_spacing : Text
suspect_spacing = codes "suspect word spacing: lexical search will be weak on this page"

pub multi_column : Text
multi_column = codes "multi-column layout: read column by column"

pub single_column : Text
single_column = codes "text layer present, single column"

-- `text.split()`, with the token that is being read
abbrev pub tokens_from : Text → Text → List Text
tokens_from part [] = if is_empty part then [] else part ∷ []
tokens_from part (c ∷ text) =
    let fresh = tokens_from [] text in
    let longer = tokens_from (part ++ c ∷ []) text in
    if is_space c then (if is_empty part then fresh else part ∷ fresh) else longer

-- `long_runs / len(tokens) > 0.02`
unfoldable pub has_broken_spacing : Text → Bool
has_broken_spacing text =
    let tokens = tokens_from [] text in
    let long_runs = length (keep_if (λ token. leb long_run (length token)) tokens) in
    if is_empty tokens then false else ltb (length tokens) (long_runs * 50)

abbrev pub looks_multi_column : List Word → Bool
looks_multi_column words = is_multi_column (map (λ word. (word.box.x0 + word.box.x1) / 2) words)

abbrev pub spacing_warnings : Text → List Text
spacing_warnings text = if has_broken_spacing text then suspect_spacing ∷ [] else []

abbrev pub decide : Bool → ParsedPage → Bool → Decision
decide ocr_implemented page ocr_available =
    if ltb (length (strip page.text)) fewest_characters
    then (if ocr_available && ocr_implemented
        then record { route = layout; reason = needs_ocr; warnings = [] }
        else record { route = unreadable; reason = no_ocr; warnings = [] })
    else if looks_multi_column page.words
    then record { route = layout; reason = multi_column; warnings = spacing_warnings page.text }
    else record { route = fast; reason = single_column; warnings = spacing_warnings page.text }
