-- ===== src/Retrieval/Relevance.antt =====
-- Whether the corpus has anything to say: backend/app/features/retrieval/relevance.py. Scores are in
-- ten-thousandths, in which both bounds are whole.
use zenith_enterprise.Common.{
  ℕ, ◌*◌, ◌≤◌, Bool, false, Option, none, some, List, [], ◌∷◌, ◌==◌, ltb, if◌then◌else◌, ◌&&◌, not,
  max, arith,
}

pub data Relevance : Type 0 where
  confident weak nothing : Relevance

abbrev floor_score : ℕ
floor_score = 200

abbrev weak_ceiling : ℕ
weak_ceiling = 1500

-- Both counts are there, and `lexical_hits / returned < 1 / 3`.
abbrev lacks_words : Option ℕ → Option ℕ → Bool
lacks_words none returned = false
lacks_words (some hits) none = false
lacks_words (some hits) (some returned) = not (returned == 0) && ltb (hits * 3) returned

abbrev pub classify : Option ℕ → Option ℕ → Option ℕ → Relevance
classify top_rerank lexical_hits returned =
    if lacks_words lexical_hits returned then nothing else elim top_rerank [
      | none ↦ confident
      | some top ↦
          if ltb top floor_score then nothing else if ltb top weak_ceiling then weak else confident
    ]

abbrev pub best_rerank : List (Option ℕ) → Option ℕ
best_rerank [] = none
best_rerank (none ∷ scores) = best_rerank scores
best_rerank (some s ∷ scores) = elim (best_rerank scores) [
  | none ↦ some s
  | some best ↦ some (max s best)
]

-- How much is shown: nothing, results with a notice, results.
abbrev rank_of : Relevance → ℕ
rank_of nothing = 0
rank_of weak = 1
rank_of confident = 2

-- A better score never hides more.
classify_monotone :
    (low high : ℕ) (hits returned : Option ℕ)
    → low ≤ high
    → rank_of (classify (some low) hits returned) ≤ rank_of (classify (some high) hits returned)
classify_monotone low high hits returned h = ground arith
