-- ===== src/Retrieval/Fusion/Order.antt =====
-- The fused order: sorted, nothing lost, nothing made up.
use zenith_enterprise.Common.{ℕ, ◌≡◌, inl, inr, true, false, List, [], ◌∷◌, arith, Bool-cases, All}
use mathlib.Core.List.{Perm}
use mathlib.Core.List.Perm
use zenith_enterprise.Retrieval.Fusion.{
  Scoring, Ranked, add_rankings, before, insert, sort, ordered,
}

module _ (S : Scoring) where
  open S use {Score, above, above_asym, above_split}

  abbrev pub IsSorted : Ranked S → Type 0
  IsSorted [] = Unit {0}
  IsSorted (e ∷ r) = All (λ f. before S f e ≡ false) r × IsSorted r

  before_asym : (e f : ℕ × Score) → before S e f ≡ true → before S f e ≡ false
  before_asym (j, s) (k, t) h = ground (arith, above_asym s t, above_asym t s)

  before_split :
      (g f e : ℕ × Score) → before S f e ≡ false → before S g f ≡ false → before S g e ≡ false
  before_split (j, s) (k, t) (i, u) h m =
      ground (arith, above_split s t u, above_split t u s, above_split u s t)

  pub All-insert :
      (P : ℕ × Score → Type 0) (e : ℕ × Score) (r : Ranked S) → P e → All P r → All P (insert S e r)
  unfolding insert
  All-insert P e [] p h = (p, tt)
  All-insert P e (f ∷ r) p h = elim (Bool-cases (before S f e)) [
    | inl first ↦ rw first (h.0, All-insert P e r p h.1)
    | inr last ↦ rw last (p, h)
  ]

  All-later :
      (f e : ℕ × Score) (r : Ranked S)
      → before S f e ≡ false
      → All (λ g. before S g f ≡ false) r
      → All (λ g. before S g e ≡ false) r
  All-later f e [] h k = tt
  All-later f e (g ∷ r) h k = (before_split g f e h k.0, All-later f e r h k.1)

  insert-IsSorted : (e : ℕ × Score) (r : Ranked S) → IsSorted r → IsSorted (insert S e r)
  unfolding insert
  insert-IsSorted e [] h = (tt, tt)
  insert-IsSorted e (f ∷ r) h = elim (Bool-cases (before S f e)) [
    | inl first ↦ rw first (
      All-insert (λ g. before S g f ≡ false) e r (before_asym f e first) h.0,
      insert-IsSorted e r h.1,
    )
    | inr last ↦ rw last ((last, All-later f e r last h.0), h)
  ]

  pub sort-IsSorted : (r : Ranked S) → IsSorted (sort S r)
  unfolding sort
  sort-IsSorted [] = tt
  sort-IsSorted (e ∷ r) = insert-IsSorted e (sort S r) (sort-IsSorted r)

  insert-perm : (e : ℕ × Score) (r : Ranked S) → Perm (insert S e r) (e ∷ r)
  unfolding insert
  insert-perm e [] = Perm.refl (e ∷ [])
  insert-perm e (f ∷ r) = elim (Bool-cases (before S f e)) [
    | inl first ↦ rw first (Perm.trans (Perm.cons f (insert-perm e r)) (Perm.swap e f r))
    | inr last ↦ rw last (Perm.refl (e ∷ f ∷ r))
  ]

  sort-perm : (r : Ranked S) → Perm (sort S r) r
  unfolding sort
  sort-perm [] = Perm.refl []
  sort-perm (e ∷ r) = Perm.trans (insert-perm e (sort S r)) (Perm.cons e (sort-perm r))

  -- The fused order has the entries of the dictionary, each as often as there, from the best score to
  -- the worst; equal scores stand by ascending identifier.
  pub ordered_lem :
      (rs : List (List ℕ)) → Perm (ordered S rs) (add_rankings S rs []) × IsSorted (ordered S rs)
  unfolding ordered
  ordered_lem rs = (sort-perm (add_rankings S rs []), sort-IsSorted (add_rankings S rs []))
