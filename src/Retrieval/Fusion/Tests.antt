-- ===== src/Retrieval/Fusion/Tests.antt =====
-- Fusion with scores in millionths, rounded down.
use zenith_enterprise.Common.{
  ℕ, ◌+◌, ◌/◌, ◌≡◌, ◌⊎◌, refl, true, false, none, List, [], ◌∷◌, ltb, arith, contains,
}
use zenith_enterprise.Retrieval.Fusion.{
  Scoring, ids, fuse, candidates, ordered, add_rankings, add_ranking, add_score, sort, insert,
  promote_leaders, Ranked,
}
use zenith_enterprise.Retrieval.Fusion.Tally.{score_of, total_over, score_of-add_rankings}
use zenith_enterprise.Retrieval.Fusion.Leaders.{promote_leaders_missing}

above_asym_lem : (s t : ℕ) → ltb t s ≡ true → ltb s t ≡ false
above_asym_lem s t h = ground arith

above_split_lem : (s t u : ℕ) → ltb u s ≡ true → (ltb t s ≡ true) ⊎ (ltb u t ≡ true)
above_split_lem s t u h = ground arith

abbrev millionths : Scoring
millionths = record {
  Score = ℕ;
  zero_score = 0;
  add = λ s t. s + t;
  reciprocal = λ n. 1_000_000 / n;
  above = λ s t. ltb t s;
  above_asym = above_asym_lem;
  above_split = above_split_lem;
}

abbrev agreed : List ℕ
agreed = 1 ∷ 2 ∷ 3 ∷ 4 ∷ 5 ∷ 6 ∷ 7 ∷ []

-- Two passages that one half ranks first, and seven that both rank lower: of the two favourites one
-- is promoted, over the other.
one_favourite_lost :
    ids millionths (fuse millionths (100 ∷ agreed) (101 ∷ agreed) [] 8)
    ≡ 1 ∷ 2 ∷ 3 ∷ 4 ∷ 5 ∷ 6 ∷ 7 ∷ 101 ∷ []
unfolding fuse ordered add_rankings add_ranking add_score sort insert promote_leaders
one_favourite_lost = refl

-- A favourite that two halves share can be promoted twice.
favourite_twice :
    ids millionths (fuse millionths (100 ∷ agreed) (100 ∷ agreed) (101 ∷ agreed) 4)
    ≡ 1 ∷ 100 ∷ 100 ∷ 101 ∷ []
unfolding fuse ordered add_rankings add_ranking add_score sort insert promote_leaders
favourite_twice = refl

no_limit_is_the_union :
    ids millionths (candidates millionths (5 ∷ 6 ∷ []) (6 ∷ 7 ∷ []) [] none) ≡ 6 ∷ 5 ∷ 7 ∷ []
unfolding candidates fuse ordered add_rankings add_ranking add_score sort insert promote_leaders
no_limit_is_the_union = refl

abbrev top : Ranked millionths
top = (1, 9) ∷ (2, 8) ∷ (3, 7) ∷ (4, 6) ∷ []

score_of-add_rankings_example :
    score_of millionths 6 (add_rankings millionths ((5 ∷ 6 ∷ []) ∷ (6 ∷ []) ∷ []) [])
    ≡ total_over millionths 6 ((5 ∷ 6 ∷ []) ∷ (6 ∷ []) ∷ []) none
score_of-add_rankings_example = score_of-add_rankings millionths 6 ((5 ∷ 6 ∷ []) ∷ (6 ∷ []) ∷ []) []

promote_leaders_missing_example :
    contains 9 (ids millionths (promote_leaders millionths top ((9 ∷ 1 ∷ []) ∷ (2 ∷ []) ∷ []) 4))
    ≡ true
promote_leaders_missing_example =
    promote_leaders_missing millionths top ((9 ∷ 1 ∷ []) ∷ (2 ∷ []) ∷ []) 4 9 refl (omega arith)
      refl refl
