-- ===== src/Ingestion/Chunker.antt =====
-- The splitting of text of backend/app/features/ingestion/chunking/chunker.py. Positions count
-- characters. `cut > target * 0.6` is `cut * 5 > target * 3`, which floating point decides alike.
pub mod Find
pub mod Boxes
mod Cuts
mod Cover
mod Tests
use zenith_enterprise.Common.{
  ℕ, zero, suc, ◌+◌, ◌-◌, ◌*◌, ◌/◌, Bool, true, false, Option, none, some, List, [], ◌∷◌, ◌==◌, ltb,
  leb, if◌then◌else◌, min, max, length, take, drop,
}
use zenith_enterprise.Common.Text.{Text, strip, is_empty}
use zenith_enterprise.Retrieval.Hits.{Box}
use Find.{rfind}
use Boxes.{ParsedPage, boxes_for}

abbrev pub target_characters : ℕ
target_characters = 1200

abbrev pub overlap_characters : ℕ
overlap_characters = 150

abbrev pub min_characters : ℕ
min_characters = 100

abbrev pub characters_per_token : ℕ
characters_per_token = 3

pub record Chunk : Type 0 where
  pub page_num : Option ℕ
  pub char_start : ℕ
  pub char_end : ℕ
  pub text : Text
  pub boxes : List Box

abbrev pub estimated_tokens : Chunk → ℕ
estimated_tokens c = length c.text / characters_per_token + 1

-- `text[start:end]`
abbrev pub slice : ℕ → ℕ → Text → Text
slice start end text = take (end - start) (drop start text)

-- `"\n\n"`, `". "` and `"\n"`
abbrev pub separators : List Text
separators = (10 ∷ 10 ∷ []) ∷ (46 ∷ 32 ∷ []) ∷ (10 ∷ []) ∷ []

-- The `for` of `_boundary`: the last place of the first separator whose last place is far enough.
unfoldable pub first_cut : Text → ℕ → ℕ → ℕ → List Text → ℕ
first_cut window start end target [] = end
first_cut window start end target (separator ∷ rest) =
    let later = first_cut window start end target rest in
    elim (rfind separator window) [
      | none ↦ later
      | some cut ↦ if ltb (target * 3) (cut * 5) then start + cut + length separator else later
    ]

unfoldable pub boundary : Text → ℕ → ℕ → ℕ
boundary text start target =
    let end = min (start + target) (length text) in
    if end == length text then end else first_cut (slice start end text) start end target separators

-- The `while` loop of both entry points, as the pairs of `start` and `end` that it visits. It runs
-- on fuel.
unfoldable pub cuts : ℕ → Text → ℕ → ℕ → List (ℕ × ℕ)
cuts zero text target start = []
cuts (suc fuel) text target start =
    let end = boundary text start target in
    let rest = cuts fuel text target (max (end - overlap_characters) (start + 1)) in
    if ltb start (length text)
    then (start, end) ∷ (if leb (length text) end then [] else rest)
    else []

-- The body of the loop: a piece of white space makes no chunk.
abbrev pub chunks_of : Option ℕ → (ℕ → ℕ → List Box) → Text → List (ℕ × ℕ) → List Chunk
chunks_of page_num boxes_for text [] = []
chunks_of page_num boxes_for text ((start, end) ∷ rest) =
    let body = strip (slice start end text) in
    let later = chunks_of page_num boxes_for text rest in
    if is_empty body
    then later
    else record {
      page_num = page_num;
      char_start = start;
      char_end = end;
      text = body;
      boxes = boxes_for start end;
    }
      ∷ later

abbrev pub chunk_stream : Text → ℕ → List Chunk
chunk_stream text target =
    if ltb (length (strip text)) min_characters
    then []
    else chunks_of none (λ start end. []) text (cuts (length text) text target 0)

abbrev pub chunk_page : ParsedPage → ℕ → List Chunk
chunk_page page target =
    if ltb (length (strip page.text)) min_characters
    then []
    else chunks_of (some page.page_num) (boxes_for page) page.text
        (cuts (length page.text) page.text target 0)
