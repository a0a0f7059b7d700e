-- ===== src/Common/Lists.antt =====
-- Lists measured and cut by native numbers, membership tests, and predicates by recursion.
use Prim.Native.Nat.{ℕ, zero, suc, ◌+◌, ◌≤◌, ◌<◌, min}
use mathlib.Core.Path.{◌≡◌, refl, ap}
use mathlib.Core.Bool.{Bool, true, false, ◌||◌, ◌&&◌}
use mathlib.Core.Option.{Option, none, some}
use mathlib.Core.List.{List, [], ◌∷◌, ◌++◌}
use native.Mathlib.Omega.{arith}
use zenith_enterprise.Common.Tests.{◌==◌, ltb, if◌then◌else◌}

module _ {ℓ} {A : Type ℓ} where
  abbrev pub length : List A → ℕ
  length [] = 0
  length (x ∷ xs) = suc (length xs)

  abbrev pub take : ℕ → List A → List A
  take zero xs = []
  take (suc n) [] = []
  take (suc n) (x ∷ xs) = x ∷ take n xs

  abbrev pub drop : ℕ → List A → List A
  drop zero xs = xs
  drop (suc n) [] = []
  drop (suc n) (x ∷ xs) = drop n xs

  abbrev pub get_elem? : List A → ℕ → Option A
  get_elem? [] i = none
  get_elem? (x ∷ xs) zero = some x
  get_elem? (x ∷ xs) (suc i) = get_elem? xs i

  abbrev pub keep_if : (A → Bool) → List A → List A
  keep_if p [] = []
  keep_if p (x ∷ xs) = if p x then x ∷ keep_if p xs else keep_if p xs

  abbrev pub all : (A → Bool) → List A → Bool
  all p [] = true
  all p (x ∷ xs) = p x && all p xs

  abbrev pub All {κ} : (A → Type κ) → List A → Type κ
  All P [] = Unit
  All P (x ∷ xs) = P x × All P xs

  pub length-append : (xs ys : List A) → length (xs ++ ys) ≡ length xs + length ys
  length-append [] ys = omega arith
  length-append (x ∷ xs) ys = omega (arith, length-append xs ys)

  pub length-take : (n : ℕ) (xs : List A) → length (take n xs) ≡ min n (length xs)
  length-take zero xs = omega arith
  length-take (suc n) [] = omega arith
  length-take (suc n) (x ∷ xs) = omega (arith, length-take n xs)

  pub length-keep_if-le : (p : A → Bool) (xs : List A) → length (keep_if p xs) ≤ length xs
  length-keep_if-le p [] = omega arith
  length-keep_if-le p (x ∷ xs) = ground (arith, length-keep_if-le p xs)

  pub take_all : (n : ℕ) (xs : List A) → length xs ≤ n → take n xs ≡ xs
  take_all zero [] h = refl
  take_all zero (x ∷ xs) h = absurd (omega arith)
  take_all (suc n) [] h = refl
  take_all (suc n) (x ∷ xs) h = ap (◌∷◌ x) (take_all n xs (omega arith))

module _ {ℓ} {A : Type ℓ} where
  pub All-append {κ} : (P : A → Type κ) (xs ys : List A) → All P xs → All P ys → All P (xs ++ ys)
  All-append P [] ys h k = k
  All-append P (x ∷ xs) ys h k = (h.0, All-append P xs ys h.1 k)

  pub All-take {κ} : (P : A → Type κ) (n : ℕ) (xs : List A) → All P xs → All P (take n xs)
  All-take P zero xs h = tt
  All-take P (suc n) [] h = tt
  All-take P (suc n) (x ∷ xs) h = (h.0, All-take P n xs h.1)

-- Membership in a list of identifiers, as Python's `in` tests it.
abbrev pub contains : ℕ → List ℕ → Bool
contains a [] = false
contains a (x ∷ xs) = a == x || contains a xs

pub contains-append :
    (a : ℕ) (xs ys : List ℕ) → contains a (xs ++ ys) ≡ (contains a xs || contains a ys)
contains-append a [] ys = refl
contains-append a (x ∷ xs) ys = ground (arith, contains-append a xs ys)

-- A value into an ascending list of distinct numbers, so that `sort_distinct` is `sorted(set(..))`.
abbrev pub insert_distinct : ℕ → List ℕ → List ℕ
insert_distinct a [] = a ∷ []
insert_distinct a (x ∷ xs) =
    if a == x then x ∷ xs else if ltb a x then a ∷ x ∷ xs else x ∷ insert_distinct a xs

abbrev pub sort_distinct : List ℕ → List ℕ
sort_distinct [] = []
sort_distinct (x ∷ xs) = insert_distinct x (sort_distinct xs)

-- Each number is above the one before it, and the first above `low`.
abbrev pub IsAscending : ℕ → List ℕ → Type 0
IsAscending low [] = Unit {0}
IsAscending low (x ∷ xs) = (low < x) × IsAscending x xs

contains-insert_distinct :
    (a b : ℕ) (xs : List ℕ) → contains b (insert_distinct a xs) ≡ (b == a || contains b xs)
contains-insert_distinct a b [] = refl
contains-insert_distinct a b (x ∷ xs) = ground (arith, contains-insert_distinct a b xs)

pub contains-sort_distinct : (a : ℕ) (xs : List ℕ) → contains a (sort_distinct xs) ≡ contains a xs
contains-sort_distinct a [] = refl
contains-sort_distinct a (x ∷ xs) =
    ground (arith, contains-insert_distinct x a (sort_distinct xs), contains-sort_distinct a xs)

pub insert_distinct-IsAscending :
    (low a : ℕ) (xs : List ℕ)
    → low < a
    → IsAscending low xs
    → IsAscending low (insert_distinct a xs)
insert_distinct-IsAscending low a [] h k = (h, tt)
insert_distinct-IsAscending low a (x ∷ xs) h k = ground (arith, insert_distinct-IsAscending x a xs)

pub All-of_contains :
    {P : ℕ → Type 0} (xs : List ℕ) → ((a : ℕ) → contains a xs ≡ true → P a) → All P xs
All-of_contains [] h = tt
All-of_contains (x ∷ xs) h =
    (h x (ground arith), All-of_contains xs (λ a k. h a (ground (arith, k))))

pub sort_distinct-IsAscending :
    (low : ℕ) (xs : List ℕ) → All (λ n. low < n) xs → IsAscending low (sort_distinct xs)
sort_distinct-IsAscending low [] h = tt
sort_distinct-IsAscending low (x ∷ xs) h =
    insert_distinct-IsAscending low x (sort_distinct xs) h.0 (sort_distinct-IsAscending low xs h.1)
