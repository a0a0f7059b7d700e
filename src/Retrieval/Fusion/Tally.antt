-- ===== src/Retrieval/Fusion/Tally.antt =====
-- The dictionary that `fuse` adds up, against the sum over the rankings.
use zenith_enterprise.Common.{
  ℕ, suc, ◌+◌, ◌≡◌, refl, ap, ◌∙◌, Option, none, some, List, [], ◌∷◌, ◌==◌, if◌then◌else◌, arith,
}
use zenith_enterprise.Retrieval.Fusion.{
  Scoring, Ranked, add_score, add_ranking, add_rankings, rrf_k,
}

module _ (S : Scoring) where
  open S use {Score, zero_score, add, reciprocal}

  abbrev pub score_of : ℕ → Ranked S → Option Score
  score_of k [] = none
  score_of k ((j, s) ∷ r) = if k == j then some s else score_of k r

  -- What one ranking adds to the score of `k`: `1 / (60 + position)` wherever it stands.
  abbrev pub plus : Option Score → Score → Option Score
  plus none s = some (add zero_score s)
  plus (some t) s = some (add t s)

  abbrev pub contribution : ℕ → ℕ → List ℕ → Option Score → Option Score
  contribution k position [] total = total
  contribution k position (j ∷ js) total =
      contribution k (suc position) js
        (if k == j then plus total (reciprocal (rrf_k + position)) else total)

  abbrev pub total_over : ℕ → List (List ℕ) → Option Score → Option Score
  total_over k [] total = total
  total_over k (r ∷ rs) total = total_over k rs (contribution k 1 r total)

  score_of-add_score :
      (k j : ℕ) (s : Score) (r : Ranked S)
      → score_of k (add_score S j s r) ≡ (if k == j then plus (score_of k r) s else score_of k r)
  unfolding add_score
  score_of-add_score k j s [] = ground arith
  score_of-add_score k j s ((i, t) ∷ r) = ground (arith, score_of-add_score k j s r)

  score_of-add_ranking :
      (k position : ℕ) (js : List ℕ) (r : Ranked S)
      → score_of k (add_ranking S position js r) ≡ contribution k position js (score_of k r)
  unfolding add_ranking
  score_of-add_ranking k position [] r = refl
  score_of-add_ranking k position (j ∷ js) r =
      score_of-add_ranking k (suc position) js (add_score S j (reciprocal (rrf_k + position)) r)
      ∙ ap (contribution k (suc position) js)
          (score_of-add_score k j (reciprocal (rrf_k + position)) r)

  -- The score that fusion gives a passage is the sum, over the rankings in their order, of
  -- `1 / (60 + position)` for each position at which it stands; a passage that no ranking has gets
  -- none.
  pub score_of-add_rankings :
      (k : ℕ) (rs : List (List ℕ)) (r : Ranked S)
      → score_of k (add_rankings S rs r) ≡ total_over k rs (score_of k r)
  unfolding add_rankings
  score_of-add_rankings k [] r = refl
  score_of-add_rankings k (js ∷ rs) r =
      score_of-add_rankings k rs (add_ranking S 1 js r)
      ∙ ap (total_over k rs) (score_of-add_ranking k 1 js r)
