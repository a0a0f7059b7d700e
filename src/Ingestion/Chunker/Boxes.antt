-- ===== src/Ingestion/Chunker/Boxes.antt =====
-- `_boxes_for` and `_merge_lines` of backend/app/features/ingestion/chunking/chunker.py. Coordinates
-- are millionths of the page; `round` to thousandths takes a tie upwards.
pub mod Lines
use zenith_enterprise.Common.{
  ℕ, ◌+◌, ◌-◌, ◌/◌, Bool, true, false, Option, none, some, List, [], ◌∷◌, ◌==◌, ltb, leb,
  if◌then◌else◌, ◌&&◌, ◌||◌, min, max, length, drop,
}
use zenith_enterprise.Common.Text.{Text}
use zenith_enterprise.Retrieval.Hits.{Box}
use zenith_enterprise.Ingestion.Chunker.Find.{find}

pub record Word : Type 0 where
  pub text : Text
  pub box : Box

pub record ParsedPage : Type 0 where
  pub page_num : ℕ
  pub text : Text
  pub words : List Word
  pub method : Text
  pub warnings : List Text

-- `MAX_LINE_GAP`, and how far apart the tops of a line may be
abbrev pub max_line_gap : ℕ
max_line_gap = 30000

abbrev pub max_line_drop : ℕ
max_line_drop = 5000

-- `text.find(word, cursor)`
abbrev pub find_from : Text → Text → ℕ → Option ℕ
find_from part text cursor = elim (find part (drop cursor text)) [
  | none ↦ none
  | some i ↦ some (cursor + i)
]

-- The `for` of `_boxes_for`.
unfoldable pub word_boxes : Text → ℕ → ℕ → ℕ → List Word → List Box
word_boxes text start end cursor [] = []
word_boxes text start end cursor (word ∷ words) = elim (find_from word.text text cursor) [
  | none ↦ word_boxes text start end cursor words
  | some found ↦
      let next = found + length word.text in
      let rest = word_boxes text start end next words in
      if leb end found then [] else if ltb start next then word.box ∷ rest else rest
]

abbrev pub rounded : ℕ → ℕ
rounded y = (y + 500) / 1000

-- `(item.page, round(item.y0, 3), item.x0)` of the first is below that of the second.
abbrev pub comes_before : Box → Box → Bool
comes_before a b =
    ltb a.page b.page
    || (a.page == b.page
        && (ltb (rounded a.y0) (rounded b.y0) || (rounded a.y0 == rounded b.y0 && ltb a.x0 b.x0)))

-- `sorted`, which is stable
abbrev pub insert_box : Box → List Box → List Box
insert_box a [] = a ∷ []
insert_box a (b ∷ bs) =
    let rest = insert_box a bs in if comes_before b a then b ∷ rest else a ∷ b ∷ bs

abbrev pub sort_boxes : List Box → List Box
sort_boxes [] = []
sort_boxes (b ∷ bs) = insert_box b (sort_boxes bs)

abbrev pub distance : ℕ → ℕ → ℕ
distance a b = (a - b) + (b - a)

-- The gap is negative where the boxes overlap.
abbrev pub same_line : Box → Box → Bool
same_line last box =
    last.page == box.page
    && ltb (distance last.y0 box.y0) max_line_drop
    && ltb box.x0 (last.x1 + max_line_gap)

abbrev pub joined : Box → Box → Box
joined last box = record {
  page = last.page;
  x0 = min last.x0 box.x0;
  y0 = min last.y0 box.y0;
  x1 = max last.x1 box.x1;
  y1 = max last.y1 box.y1;
}

-- The loop of `_merge_lines`: `last` is the last box of `merged`.
abbrev pub merge_from : Box → List Box → List Box
merge_from last [] = last ∷ []
merge_from last (box ∷ boxes) =
    let wider = merge_from (joined last box) boxes in
    let apart = merge_from box boxes in if same_line last box then wider else last ∷ apart

abbrev pub merge_sorted : List Box → List Box
merge_sorted [] = []
merge_sorted (box ∷ boxes) = merge_from box boxes

abbrev pub merge_lines : List Box → List Box
merge_lines boxes = merge_sorted (sort_boxes boxes)

abbrev pub boxes_for : ParsedPage → ℕ → ℕ → List Box
boxes_for page start end = merge_lines (word_boxes page.text start end 0 page.words)
