-- ===== src/Ingestion/Columns.antt =====
-- The gutters of a page: backend/app/features/ingestion/columns.py. A centre is in millionths of the
-- page's width and a split in 120ths; the median is doubled, and the ratios are written as fractions,
-- which floating point decides alike for at most sixty bins.
use zenith_enterprise.Common.{
  ℕ, zero, suc, ◌+◌, ◌-◌, ◌*◌, ◌/◌, ◌%◌, Bool, Option, none, some, List, [], ◌∷◌, ◌++◌, ◌==◌, ltb,
  if◌then◌else◌, ◌||◌, not, min, max, length, take, drop,
}
use zenith_enterprise.Common.Text.{is_empty}

abbrev bins : ℕ
bins = 60

abbrev min_words : ℕ
min_words = 250

-- Bin `i` is one higher.
abbrev bump : ℕ → List ℕ → List ℕ
bump i [] = []
bump zero (n ∷ ns) = suc n ∷ ns
bump (suc i) (n ∷ ns) = n ∷ bump i ns

abbrev zeros : ℕ → List ℕ
zeros zero = []
zeros (suc n) = 0 ∷ zeros n

abbrev fill_bins : List ℕ → List ℕ → List ℕ
fill_bins coverage [] = coverage
fill_bins coverage (centre ∷ centres) =
    fill_bins (bump (min (bins - 1) (centre * bins / 1000000)) coverage) centres

abbrev histogram : List ℕ → List ℕ
histogram = fill_bins (zeros bins)

abbrev peak_of : List ℕ → ℕ
peak_of [] = 0
peak_of (n ∷ ns) = max n (peak_of ns)

-- The bins that are above a tenth of the peak.
abbrev body_from : ℕ → ℕ → List ℕ → List ℕ
body_from peak index [] = []
body_from peak index (n ∷ ns) =
    let rest = body_from peak (suc index) ns in if ltb peak (n * 10) then index ∷ rest else rest

abbrev head_or : ℕ → List ℕ → ℕ
head_or d [] = d
head_or d (n ∷ ns) = n

abbrev last_or : ℕ → List ℕ → ℕ
last_or d [] = d
last_or d (n ∷ ns) = last_or n ns

abbrev insert_sorted : ℕ → List ℕ → List ℕ
insert_sorted a [] = a ∷ []
insert_sorted a (n ∷ ns) = let rest = insert_sorted a ns in if ltb n a then n ∷ rest else a ∷ n ∷ ns

abbrev sorted : List ℕ → List ℕ
sorted [] = []
sorted (n ∷ ns) = insert_sorted n (sorted ns)

-- `statistics.median`, twice
abbrev double_median : List ℕ → ℕ
double_median ns =
    let middle = drop (length ns / 2) (sorted ns) in
    if length ns % 2 == 1
    then head_or 0 middle * 2
    else head_or 0 middle + head_or 0 (drop (length ns / 2 - 1) (sorted ns))

abbrev split_of : ℕ × ℕ → ℕ
split_of (first, last) = first + last + 1

abbrev extended : ℕ → Option (ℕ × ℕ) → Option (ℕ × ℕ)
extended index none = some (index, index)
extended index (some (first, last)) = some (first, index)

abbrev closed : Option (ℕ × ℕ) → List ℕ
closed none = []
closed (some run) = split_of run ∷ []

-- The loop over the bins from `low` on, with the first and last bin of the run that is open.
abbrev splits_from : ℕ → Option (ℕ × ℕ) → ℕ → List ℕ → List ℕ
splits_from typical run index [] = closed run
splits_from typical run index (n ∷ ns) =
    let longer = splits_from typical (extended index run) (suc index) ns in
    let fresh = splits_from typical none (suc index) ns in
    if ltb (n * 8) typical then longer else closed run ++ fresh

unfoldable pub gutters : List ℕ → List ℕ
gutters centres =
    let coverage = histogram centres in
    let peak = peak_of coverage in
    let body = body_from peak 0 coverage in
    let first = head_or 0 body in
    let size = last_or 0 body + 1 - first in
    let inner = take size (drop first coverage) in
    let typical = double_median inner in
    let low = first + size * 3 / 10 in
    let high = first + size * 7 / 10 in
    if ltb (length centres) min_words || peak == 0 || ltb (length body) 10 || typical == 0
    then []
    else splits_from typical none low (take (high + 1 - low) (drop low coverage))

abbrev pub is_multi_column : List ℕ → Bool
is_multi_column centres = not (is_empty (gutters centres))
