-- ===== src/Retrieval/Reranker/Whole.antt =====
-- Lists that hold every position of a range once.
use zenith_enterprise.Common.{
  ℕ, ◌+◌, ◌≤◌, ◌<◌, ◌≡◌, refl, Bool, true, false, List, [], ◌∷◌, ◌++◌, ltb, leb, ◌&&◌, not, length,
  contains, all, arith, length-append, contains-append,
}
use zenith_enterprise.Common.Text.{all-append}

abbrev pub distinct : List ℕ → Bool
distinct [] = true
distinct (x ∷ xs) = not (contains x xs) && distinct xs

abbrev pub lies_in : ℕ → ℕ → ℕ → Bool
lies_in low high k = leb low k && ltb k high

-- The positions from `low` to `high`, each once: as many as there are, distinct and between.
pub record IsWhole (low high : ℕ) (ks : List ℕ) : Type 0 where
  pub count : low + length ks ≡ high
  pub once : distinct ks ≡ true
  pub between : all (lies_in low high) ks ≡ true

contains-outside :
    (k mid high : ℕ) (ks : List ℕ)
    → k < mid
    → all (lies_in mid high) ks ≡ true
    → contains k ks ≡ false
contains-outside k mid high [] h a = refl
contains-outside k mid high (j ∷ ks) h a = ground (arith, contains-outside k mid high ks h)

lies_in_wider :
    (low high low' high' : ℕ) (ks : List ℕ)
    → low' ≤ low
    → high ≤ high'
    → all (lies_in low high) ks ≡ true
    → all (lies_in low' high') ks ≡ true
lies_in_wider low high low' high' [] h k a = refl
lies_in_wider low high low' high' (j ∷ ks) h k a =
    ground (arith, lies_in_wider low high low' high' ks h k)

distinct-append :
    (low mid high : ℕ) (xs ys : List ℕ)
    → all (lies_in low mid) xs ≡ true
    → all (lies_in mid high) ys ≡ true
    → distinct xs ≡ true
    → distinct ys ≡ true
    → distinct (xs ++ ys) ≡ true
distinct-append low mid high [] ys a b c d = d
distinct-append low mid high (x ∷ xs) ys a b c d = ground (
  arith,
  contains-append x xs ys,
  contains-outside x mid high ys,
  distinct-append low mid high xs ys,
)

pub IsWhole-append :
    (low mid high : ℕ) (xs ys : List ℕ)
    → IsWhole low mid xs
    → IsWhole mid high ys
    → IsWhole low high (xs ++ ys)
IsWhole-append low mid high xs ys a b = record {
  count = omega (arith, length-append xs ys, a.count, b.count);
  once = distinct-append low mid high xs ys a.between b.between a.once b.once;
  between = ground (
    arith,
    all-append (lies_in low high) xs ys,
    lies_in_wider low mid low high xs (omega arith) (omega (arith, b.count)) a.between,
    lies_in_wider mid high low high ys (omega (arith, a.count)) (omega arith) b.between,
  );
}
