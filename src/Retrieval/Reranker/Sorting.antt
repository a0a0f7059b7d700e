-- ===== src/Retrieval/Reranker/Sorting.antt =====
-- Sorting keeps every position once.
use zenith_enterprise.Common.{
  ℕ, ◌+◌, ◌≡◌, refl, Bool, true, false, [], ◌∷◌, ◌==◌, ◌&&◌, ◌||◌, length, contains, all, arith,
}
use zenith_enterprise.Retrieval.Fusion.{Scoring, Ranked, ids, sort, insert}
use zenith_enterprise.Retrieval.Reranker.Whole.{distinct, lies_in, IsWhole}

module _ (S : Scoring) where
  open S use {Score}

  contains-insert :
      (k : ℕ) (e : ℕ × Score) (r : Ranked S)
      → contains k (ids S (insert S e r)) ≡ (k == e.0 || contains k (ids S r))
  unfolding insert
  contains-insert k e [] = refl
  contains-insert k e (f ∷ r) = ground (arith, contains-insert k e r)

  insert-distinct :
      (e : ℕ × Score) (r : Ranked S)
      → contains e.0 (ids S r) ≡ false
      → distinct (ids S r) ≡ true
      → distinct (ids S (insert S e r)) ≡ true
  unfolding insert
  insert-distinct e [] h k = refl
  insert-distinct e (f ∷ r) h k = ground (arith, contains-insert f.0 e r, insert-distinct e r)

  all-insert :
      (p : ℕ → Bool) (e : ℕ × Score) (r : Ranked S)
      → all p (ids S (insert S e r)) ≡ (p e.0 && all p (ids S r))
  unfolding insert
  all-insert p e [] = refl
  all-insert p e (f ∷ r) = ground (arith, all-insert p e r)

  length-insert :
      (e : ℕ × Score) (r : Ranked S) → length (ids S (insert S e r)) ≡ 1 + length (ids S r)
  unfolding insert
  length-insert e [] = refl
  length-insert e (f ∷ r) = ground (arith, length-insert e r)

  contains-sort : (k : ℕ) (r : Ranked S) → contains k (ids S (sort S r)) ≡ contains k (ids S r)
  unfolding sort
  contains-sort k [] = refl
  contains-sort k (e ∷ r) = ground (arith, contains-insert k e (sort S r), contains-sort k r)

  sort-distinct : (r : Ranked S) → distinct (ids S r) ≡ true → distinct (ids S (sort S r)) ≡ true
  unfolding sort
  sort-distinct [] h = refl
  sort-distinct (e ∷ r) h =
      ground (arith, insert-distinct e (sort S r), contains-sort e.0 r, sort-distinct r)

  all-sort : (p : ℕ → Bool) (r : Ranked S) → all p (ids S (sort S r)) ≡ all p (ids S r)
  unfolding sort
  all-sort p [] = refl
  all-sort p (e ∷ r) = ground (arith, all-insert p e (sort S r), all-sort p r)

  length-sort : (r : Ranked S) → length (ids S (sort S r)) ≡ length (ids S r)
  unfolding sort
  length-sort [] = refl
  length-sort (e ∷ r) = ground (arith, length-insert e (sort S r), length-sort r)

  pub sort-IsWhole :
      (low high : ℕ) (r : Ranked S)
      → IsWhole low high (ids S r)
      → IsWhole low high (ids S (sort S r))
  sort-IsWhole low high r h = record {
    count = omega (arith, length-sort r, h.count);
    once = sort-distinct r h.once;
    between = ground (arith, all-sort (lies_in low high) r, h.between);
  }
