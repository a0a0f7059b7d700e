-- ===== src/Answering/Streaming/Numbers.antt =====
-- The numbers of a marker: what `resolve` makes of them.
use zenith_enterprise.Common.{
  ℕ, suc, ◌+◌, ◌-◌, ◌≡◌, refl, ap, Bool, true, false, List, [], ◌∷◌, ◌++◌, append_assoc, append-nil,
  length, arith, if◌then◌else◌, Bool-cases, inl, inr, all, map, keep_if, contains,
}
use mathlib.Core.List.{reverse, reverse-reverse, reverse-cons}
use zenith_enterprise.Common.Text.{
  Text, render, all-append, is_digit, strip, split_on, int, show, int-show, digits-show,
  is_number-show, drop_while, is_space,
}
use zenith_enterprise.Answering.Streaming.{
  MarkerFilter, resolve, is_plausible, drop_last, all_numbers,
}

-- The numbers of a marker as models write them: `[1,2]`, or `[1, 2]`.
abbrev pub pad : Bool → Text
pad spaced = if spaced then b' ' ∷ [] else []

abbrev pub join_from : Bool → ℕ → List ℕ → Text
join_from spaced n [] = show n
join_from spaced n (m ∷ ns) = show n ++ (b',' ∷ (pad spaced ++ join_from spaced m ns))

strip_digits : (s : Text) → all is_digit s ≡ true → drop_while is_space s ≡ s
strip_digits [] h = refl
strip_digits (c ∷ s) h = ground arith

all-reverse : (p : ℕ → Bool) (s : Text) → all p s ≡ true → all p (reverse s) ≡ true
all-reverse p [] h = refl
all-reverse p (c ∷ s) h =
    rw (reverse-cons c s) (ground (arith, all-append p (reverse s) (c ∷ []), all-reverse p s))

strip-digits : (s : Text) → all is_digit s ≡ true → strip s ≡ s
unfolding strip
strip-digits s h =
    rw (strip_digits s h, strip_digits (reverse s) (all-reverse is_digit s h), reverse-reverse s)

strip-show : (spaced : Bool) (n : ℕ) → strip (pad spaced ++ show n) ≡ show n
unfolding strip
strip-show true n = strip-digits (show n) (digits-show n)
strip-show false n = strip-digits (show n) (digits-show n)

-- `split` finds no comma among digits.
split_part :
    (p acc rest : Text)
    → all is_digit p ≡ true
    → split_on b',' acc (p ++ b',' ∷ rest) ≡ (acc ++ p) ∷ split_on b',' [] rest
unfolding split_on
split_part [] acc rest h = rw append-nil
split_part (c ∷ p) acc rest h =
    ground (arith, split_part p (acc ++ c ∷ []) rest, append_assoc acc (c ∷ []) p)

split_last : (p acc : Text) → all is_digit p ≡ true → split_on b',' acc p ≡ (acc ++ p) ∷ []
unfolding split_on
split_last [] acc h = rw append-nil
split_last (c ∷ p) acc h = ground (arith, split_last p (acc ++ c ∷ []), append_assoc acc (c ∷ []) p)

split_pad :
    (spaced : Bool) (rest : Text)
    → split_on b',' [] (pad spaced ++ rest) ≡ split_on b',' (pad spaced) rest
unfolding split_on
split_pad true rest = refl
split_pad false rest = refl

parts_join :
    (spaced first : Bool) (n : ℕ) (ns : List ℕ)
    → map strip (split_on b',' (pad first) (join_from spaced n ns)) ≡ map show (n ∷ ns)
parts_join spaced first n [] =
    rw (split_last (show n) (pad first) (digits-show n), strip-show first n)
parts_join spaced first n (m ∷ ns) = rw (
  split_part (show n) (pad first) (pad spaced ++ join_from spaced m ns) (digits-show n),
  strip-show first n,
  split_pad spaced (join_from spaced m ns),
  parts_join spaced spaced m ns,
)

drop_last-append : (s : Text) (c : ℕ) → drop_last (s ++ c ∷ []) ≡ s
drop_last-append [] c = refl
drop_last-append (a ∷ []) c = refl
drop_last-append (a ∷ b ∷ s) c = ap (◌∷◌ a) (drop_last-append (b ∷ s) c)

all_numbers-show : (ns : List ℕ) → all_numbers (map show ns) ≡ true
all_numbers-show [] = refl
all_numbers-show (n ∷ ns) = rw (is_number-show n, all_numbers-show ns)

map-int-show : (ns : List ℕ) → map int (map show ns) ≡ ns
map-int-show [] = refl
map-int-show (n ∷ ns) = rw (int-show n, map-int-show ns)

length-map-show : (ns : List ℕ) → length (map show ns) ≡ length ns
length-map-show [] = refl
length-map-show (n ∷ ns) = ap suc (length-map-show ns)

abbrev pub kept : List ℕ → List ℕ → List ℕ
kept valid = keep_if λ n. contains n valid

-- A well-formed marker is replaced by one marker for each of its numbers that is valid; the others
-- are counted.
pub resolve_join :
    (f : MarkerFilter) (spaced : Bool) (n : ℕ) (ns : List ℕ)
    → let survivors = kept f.valid (n ∷ ns) in
      resolve f (b'[' ∷ join_from spaced n ns ++ b']' ∷ []) ≡ (
        record f {
          fabricated = f.fabricated + (length (n ∷ ns) - length survivors);
          cited = f.cited ++ survivors;
        },
        render survivors,
      )
unfolding resolve
resolve_join f spaced n ns = rw (
  drop_last-append (join_from spaced n ns) b']',
  parts_join spaced false n ns,
  is_number-show n,
  all_numbers-show ns,
  int-show n,
  map-int-show ns,
  length-map-show ns,
)

plausible_digits : (s : Text) → all is_digit s ≡ true → all is_plausible s ≡ true
plausible_digits [] h = refl
plausible_digits (c ∷ s) h = ground (arith, plausible_digits s)

pub plausible_join :
    (spaced : Bool) (n : ℕ) (ns : List ℕ) → all is_plausible (join_from spaced n ns) ≡ true
plausible_join spaced n [] = plausible_digits (show n) (digits-show n)
plausible_join spaced n (m ∷ ns) =
    rw
      (
        all-append is_plausible (show n) (b',' ∷ (pad spaced ++ join_from spaced m ns)),
        plausible_digits (show n) (digits-show n),
        all-append is_plausible (pad spaced) (join_from spaced m ns),
        plausible_join spaced m ns,
      )
      (elim (Bool-cases spaced) [ inl e ↦ rw e | inr e ↦ rw e ])
