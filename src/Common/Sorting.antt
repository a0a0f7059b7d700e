-- ===== src/Common/Sorting.antt =====
-- Python's `sorted`, which is stable, by the order of the keys; and how often a number occurs.
use Prim.Native.Nat.{ℕ, suc}
use mathlib.Core.Path.{◌≡◌, refl}
use mathlib.Core.Logic.{inl, inr}
use mathlib.Core.Bool.{Bool, true, false}
use mathlib.Core.List.{List, [], ◌∷◌, map}
use native.Mathlib.Omega.{arith}
use zenith_enterprise.Common.Tests.{◌==◌, if◌then◌else◌, Bool-cases}
use zenith_enterprise.Common.Lists.{length, All}

abbrev pub count : ℕ → List ℕ → ℕ
count k [] = 0
count k (x ∷ xs) = if x == k then suc (count k xs) else count k xs

module _ {A : Type 0} (before : A → A → Bool) where
  -- `e` goes behind the elements that come strictly before it.
  abbrev pub insert_by : A → List A → List A
  insert_by e [] = e ∷ []
  insert_by e (x ∷ xs) = if before x e then x ∷ insert_by e xs else e ∷ x ∷ xs

  abbrev pub sort_by : List A → List A
  sort_by [] = []
  sort_by (x ∷ xs) = insert_by x (sort_by xs)

  -- No element comes before the one in front of it.
  abbrev pub IsSortedBy : List A → Type 0
  IsSortedBy [] = Unit {0}
  IsSortedBy (x ∷ []) = Unit {0}
  IsSortedBy (x ∷ y ∷ xs) = (before y x ≡ false) × IsSortedBy (y ∷ xs)

  length-insert_by : (e : A) (xs : List A) → length (insert_by e xs) ≡ suc (length xs)
  length-insert_by e [] = refl
  length-insert_by e (x ∷ xs) = ground (arith, length-insert_by e xs)

  pub length-sort_by : (xs : List A) → length (sort_by xs) ≡ length xs
  length-sort_by [] = refl
  length-sort_by (x ∷ xs) = ground (arith, length-sort_by xs, length-insert_by x (sort_by xs))

  All-insert_by : (P : A → Type 0) (e : A) (xs : List A) → P e → All P xs → All P (insert_by e xs)
  All-insert_by P e [] h k = (h, tt)
  All-insert_by P e (x ∷ xs) h k = elim (Bool-cases (before x e)) [
    | inl b ↦ rw b (k.0, All-insert_by P e xs h k.1)
    | inr b ↦ rw b (h, k)
  ]

  pub All-sort_by : (P : A → Type 0) (xs : List A) → All P xs → All P (sort_by xs)
  All-sort_by P [] h = tt
  All-sort_by P (x ∷ xs) h = All-insert_by P x (sort_by xs) h.0 (All-sort_by P xs h.1)

  count-insert_by :
      (key : A → ℕ) (k : ℕ) (e : A) (xs : List A)
      → count k (map key (insert_by e xs)) ≡ count k (map key (e ∷ xs))
  count-insert_by key k e [] = refl
  count-insert_by key k e (x ∷ xs) = ground (arith, count-insert_by key k e xs)

  pub count-sort_by :
      (key : A → ℕ) (k : ℕ) (xs : List A) → count k (map key (sort_by xs)) ≡ count k (map key xs)
  count-sort_by key k [] = refl
  count-sort_by key k (x ∷ xs) =
      ground (arith, count-insert_by key k x (sort_by xs), count-sort_by key k xs)

  insert_by-IsSortedBy :
      ((x y : A) → before x y ≡ true → before y x ≡ false)
      → (e : A) (xs : List A) → IsSortedBy xs
      → IsSortedBy (insert_by e xs)
  insert_by-IsSortedBy asym e [] h = tt
  insert_by-IsSortedBy asym e (x ∷ []) h = elim (Bool-cases (before x e)) [
    | inl b ↦ rw b (asym x e b, tt)
    | inr b ↦ rw b (b, tt)
  ]
  insert_by-IsSortedBy asym e (x ∷ y ∷ xs) h =
      let rest = insert_by-IsSortedBy asym e (y ∷ xs) h.1 in
      elim (Bool-cases (before x e)) [
        | inl b ↦ elim (Bool-cases (before y e)) [
          | inl c ↦ rw (b, c) (h.0, rw c at rest)
          | inr c ↦ rw (b, c) (asym x e b, rw c at rest)
        ]
        | inr b ↦ rw b (b, h)
      ]

  pub sort_by-IsSortedBy :
      ((x y : A) → before x y ≡ true → before y x ≡ false) → (xs : List A) → IsSortedBy (sort_by xs)
  sort_by-IsSortedBy asym [] = tt
  sort_by-IsSortedBy asym (x ∷ xs) =
      insert_by-IsSortedBy asym x (sort_by xs) (sort_by-IsSortedBy asym xs)
