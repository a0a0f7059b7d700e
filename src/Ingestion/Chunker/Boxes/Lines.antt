-- ===== src/Ingestion/Chunker/Boxes/Lines.antt =====
-- Merging boxes into lines loses none of them.
use zenith_enterprise.Common.{
  ◌+◌, ◌≤◌, ◌≡◌, refl, Bool, true, false, List, [], ◌∷◌, ◌==◌, leb, ◌&&◌, ◌||◌, length, arith,
}
use zenith_enterprise.Retrieval.Hits.{Box}
use zenith_enterprise.Ingestion.Chunker.Boxes.{
  insert_box, sort_boxes, joined, merge_from, merge_sorted, merge_lines, same_line,
}

-- The second box covers the first one.
abbrev pub is_within : Box → Box → Bool
is_within b m = m.page == b.page && leb m.x0 b.x0 && leb m.y0 b.y0 && leb b.x1 m.x1 && leb b.y1 m.y1

abbrev pub is_covered : List Box → Box → Bool
is_covered [] b = false
is_covered (m ∷ ms) b = is_within b m || is_covered ms b

within-joined-left :
    (b last box : Box) → is_within b last ≡ true → is_within b (joined last box) ≡ true
within-joined-left b last box h = ground arith

within-joined-right :
    (b last box : Box)
    → same_line last box ≡ true
    → is_within b box ≡ true
    → is_within b (joined last box) ≡ true
within-joined-right b last box h k = ground arith

merge_from-covers :
    (b last : Box) (boxes : List Box)
    → is_covered (last ∷ boxes) b ≡ true
    → is_covered (merge_from last boxes) b ≡ true
merge_from-covers b last [] h = h
merge_from-covers b last (box ∷ boxes) h = ground (
  arith,
  within-joined-left b last box,
  within-joined-right b last box,
  merge_from-covers b (joined last box) boxes,
  merge_from-covers b box boxes,
)

is_covered-insert_box :
    (a b : Box) (boxes : List Box)
    → is_covered (insert_box a boxes) b ≡ (is_within b a || is_covered boxes b)
is_covered-insert_box a b [] = refl
is_covered-insert_box a b (c ∷ boxes) = ground (arith, is_covered-insert_box a b boxes)

is_covered-sort_boxes :
    (b : Box) (boxes : List Box) → is_covered (sort_boxes boxes) b ≡ is_covered boxes b
is_covered-sort_boxes b [] = refl
is_covered-sort_boxes b (c ∷ boxes) =
    ground (arith, is_covered-insert_box c b (sort_boxes boxes), is_covered-sort_boxes b boxes)

merge_sorted-covers :
    (b : Box) (boxes : List Box)
    → is_covered boxes b ≡ true
    → is_covered (merge_sorted boxes) b ≡ true
merge_sorted-covers b [] h = h
merge_sorted-covers b (box ∷ boxes) h = merge_from-covers b box boxes h

length-merge_from-le :
    (last : Box) (boxes : List Box) → length (merge_from last boxes) ≤ 1 + length boxes
length-merge_from-le last [] = omega arith
length-merge_from-le last (box ∷ boxes) =
    ground (arith, length-merge_from-le (joined last box) boxes, length-merge_from-le box boxes)

length-insert_box : (a : Box) (boxes : List Box) → length (insert_box a boxes) ≡ 1 + length boxes
length-insert_box a [] = refl
length-insert_box a (b ∷ boxes) = ground (arith, length-insert_box a boxes)

length-sort_boxes : (boxes : List Box) → length (sort_boxes boxes) ≡ length boxes
length-sort_boxes [] = refl
length-sort_boxes (b ∷ boxes) =
    ground (arith, length-insert_box b (sort_boxes boxes), length-sort_boxes boxes)

length-merge_sorted-le : (boxes : List Box) → length (merge_sorted boxes) ≤ length boxes
length-merge_sorted-le [] = omega arith
length-merge_sorted-le (b ∷ boxes) = omega (arith, length-merge_from-le b boxes)

-- What lies within one of the boxes lies within one of the lines they are merged into, on the same
-- page, and there are no more lines than boxes.
pub merge_lines-covers :
    (b : Box) (boxes : List Box)
    → is_covered boxes b ≡ true
    → (is_covered (merge_lines boxes) b ≡ true) × (length (merge_lines boxes) ≤ length boxes)
merge_lines-covers b boxes h = (
  ground (arith, is_covered-sort_boxes b boxes, merge_sorted-covers b (sort_boxes boxes)),
  ground (arith, length-sort_boxes boxes, length-merge_sorted-le (sort_boxes boxes)),
)
