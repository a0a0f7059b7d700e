-- ===== src/Retrieval/Fusion/Leaders.antt =====
-- The floor under the first place of each ranking.
use zenith_enterprise.Common.{
  ℕ, zero, suc, ◌-◌, ◌≤◌, ◌<◌, ◌≡◌, inl, inr, refl, ap, Bool, true, false, List, [], ◌∷◌, ◌++◌,
  ◌==◌, ltb, ◌||◌, ◌&&◌, not, length, take, keep_if, contains, max, arith, Bool-cases,
  contains-append, length-append, length-take, length-keep_if-le, ==→eq,
}
use zenith_enterprise.Common.Text.{is_empty}
use zenith_enterprise.Retrieval.Fusion.{
  Scoring, Ranked, ids, leaders, missing, with_score, promote_leaders, floor,
}

test_eq : (p : ℕ → Bool) (a x : ℕ) → (a == x) ≡ true → p a ≡ p x
test_eq p a x h = ap p (==→eq a x h)

contains-keep_if :
    (p : ℕ → Bool) (a : ℕ) (xs : List ℕ) → contains a (keep_if p xs) ≡ (p a && contains a xs)
contains-keep_if p a [] = ground arith
contains-keep_if p a (x ∷ xs) = ground (arith, contains-keep_if p a xs, test_eq p a x)

take-take-append {ℓ} :
    {A : Type ℓ} (n m : ℕ) (xs ys : List A)
    → n ≤ m
    → n ≤ length xs
    → take n (take m xs ++ ys) ≡ take n xs
take-take-append zero m xs ys h k = refl
take-take-append (suc n) zero xs ys h k = absurd (omega arith)
take-take-append (suc n) (suc m) [] ys h k = absurd (omega arith)
take-take-append (suc n) (suc m) (x ∷ xs) ys h k =
    ap (◌∷◌ x) (take-take-append n m xs ys (omega arith) (omega arith))

nonempty : (k : ℕ) (xs : List ℕ) → contains k xs ≡ true → is_empty xs ≡ false
nonempty k [] h = cc
nonempty k (x ∷ xs) h = refl

module _ (S : Scoring) where
  holds : (k : ℕ) (r : Ranked S) → contains k (ids S r) ≡ true → is_empty r ≡ false
  holds k [] h = cc
  holds k (e ∷ r) h = refl

  length-leaders : (rs : List (List ℕ)) → length (leaders S rs) ≤ length rs
  length-leaders [] = omega arith
  length-leaders ([] ∷ rs) = omega (arith, length-leaders rs)
  length-leaders ((k ∷ ks) ∷ rs) = omega (arith, length-leaders rs)

  ids-append : (r q : Ranked S) → ids S (r ++ q) ≡ ids S r ++ ids S q
  ids-append [] q = refl
  ids-append (e ∷ r) q = ap (◌∷◌ e.0) (ids-append r q)

  ids-with_score : (s : Scoring.Score S) (ks : List ℕ) → ids S (with_score S s ks) ≡ ks
  ids-with_score s [] = refl
  ids-with_score s (k ∷ ks) = ap (◌∷◌ k) (ids-with_score s ks)

  length-with_score : (s : Scoring.Score S) (ks : List ℕ) → length (with_score S s ks) ≡ length ks
  length-with_score s [] = refl
  length-with_score s (k ∷ ks) = ap suc (length-with_score s ks)

  length-missing : (top : Ranked S) (rs : List (List ℕ)) → length (missing S top rs) ≤ length rs
  length-missing top rs = omega (
    arith,
    length-keep_if-le (λ k. not (contains k (ids S top))) (leaders S rs),
    length-leaders rs,
  )

  -- How many of the first places are left alone where leaders are promoted.
  abbrev pub kept_places : Ranked S → List (List ℕ) → ℕ → ℕ
  kept_places top rs limit = max 1 (limit - length (missing S top rs))

  promoted :
      (top : Ranked S) (rs : List (List ℕ)) (limit : ℕ)
      → is_empty top ≡ false
      → 2 ≤ limit
      → is_empty (missing S top rs) ≡ false
      → let kept = take (kept_places top rs limit) top in
        promote_leaders S top rs limit ≡ kept ++ with_score S (floor S kept) (missing S top rs)
  unfolding promote_leaders
  promoted top rs limit e two m = rw (e, m) (ground arith)

  untouched :
      (top : Ranked S) (rs : List (List ℕ)) (limit : ℕ)
      → (is_empty top || ltb limit 2) ≡ true
      → promote_leaders S top rs limit ≡ top
  unfolding promote_leaders
  untouched top rs limit e = rw e

  nothing_missing :
      (top : Ranked S) (rs : List (List ℕ)) (limit : ℕ)
      → is_empty (missing S top rs) ≡ true
      → promote_leaders S top rs limit ≡ top
  unfolding promote_leaders
  nothing_missing top rs limit e = rw e (ground arith)

  contains-promoted :
      (top : Ranked S) (rs : List (List ℕ)) (limit k : ℕ)
      → is_empty top ≡ false
      → 2 ≤ limit
      → is_empty (missing S top rs) ≡ false
      → contains k (ids S (promote_leaders S top rs limit)) ≡ (
          contains k (ids S (take (kept_places top rs limit) top))
          || (not (contains k (ids S top)) && contains k (leaders S rs)))
  contains-promoted top rs limit k e two m =
      let kept = take (kept_places top rs limit) top in
      rw (
        promoted top rs limit e two m,
        ids-append kept (with_score S (floor S kept) (missing S top rs)),
        ids-with_score (floor S kept) (missing S top rs),
        contains-append k (ids S kept) (missing S top rs),
        contains-keep_if (λ j. not (contains j (ids S top))) k (leaders S rs),
      )

  -- Where the limit is two or more and the fused order is not empty, a first place of a ranking that
  -- the fused order cuts off is in the result.
  pub promote_leaders_missing :
      (top : Ranked S) (rs : List (List ℕ)) (limit k : ℕ)
      → is_empty top ≡ false
      → 2 ≤ limit
      → contains k (leaders S rs) ≡ true
      → contains k (ids S top) ≡ false
      → contains k (ids S (promote_leaders S top rs limit)) ≡ true
  promote_leaders_missing top rs limit k e two first cut =
      rw (contains-promoted top rs limit k e two (nonempty k (missing S top rs) there))
        (ground (arith, first, cut))
    where
      there : contains k (missing S top rs) ≡ true
      there =
          rw (contains-keep_if (λ j. not (contains j (ids S top))) k (leaders S rs))
            (ground (arith, first, cut))

  -- But one that the fused order has among its last places loses its place to another that is
  -- promoted.
  pub promote_leaders_drops :
      (top : Ranked S) (rs : List (List ℕ)) (limit k : ℕ)
      → 2 ≤ limit
      → is_empty (missing S top rs) ≡ false
      → contains k (ids S top) ≡ true
      → contains k (ids S (take (kept_places top rs limit) top)) ≡ false
      → contains k (ids S (promote_leaders S top rs limit)) ≡ false
  promote_leaders_drops top rs limit k two m first last =
      rw (contains-promoted top rs limit k (holds k top first) two m) (ground (arith, first, last))

  promoted_bounds :
      (top : Ranked S) (rs : List (List ℕ)) (limit : ℕ)
      → is_empty top ≡ false
      → 2 ≤ limit
      → is_empty (missing S top rs) ≡ false
      → length rs < limit
      → limit - length rs ≤ length top
      → (length (promote_leaders S top rs limit) ≤ limit)
        × (take (limit - length rs) (promote_leaders S top rs limit) ≡ take (limit - length rs) top)
  promoted_bounds top rs limit e two m h k =
      let places = kept_places top rs limit in
      let kept = take places top in
      let absent = missing S top rs in
      let few = length-missing top rs in
      rw (promoted top rs limit e two m) (
        omega (
          arith,
          length-append kept (with_score S (floor S kept) absent),
          length-with_score (floor S kept) absent,
          length-take places top,
          few,
        ),
        take-take-append (limit - length rs) places top (with_score S (floor S kept) absent)
            (omega (arith, few)) k,
      )

  -- With more places than rankings, and a fused order that fills them but for as many, the result
  -- has at most `limit` entries, and all but the last of its places, as many as there are rankings,
  -- are those of the fused order, with its scores.
  pub promote_leaders_bounds :
      (top : Ranked S) (rs : List (List ℕ)) (limit : ℕ)
      → length rs < limit
      → length top ≤ limit
      → limit - length rs ≤ length top
      → (length (promote_leaders S top rs limit) ≤ limit)
        × (take (limit - length rs) (promote_leaders S top rs limit) ≡ take (limit - length rs) top)
  promote_leaders_bounds top rs limit h k full = elim (Bool-cases (is_empty top || ltb limit 2)) [
    | inl plain ↦ rw (untouched top rs limit plain) (k, refl)
    | inr more ↦ elim (Bool-cases (is_empty (missing S top rs))) [
      | inl none_missing ↦ rw (nothing_missing top rs limit none_missing) (k, refl)
      | inr some_missing ↦
          promoted_bounds top rs limit (ground (arith, more)) (ground (arith, more)) some_missing h
            full
    ]
  ]
