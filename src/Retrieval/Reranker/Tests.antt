-- ===== src/Retrieval/Reranker/Tests.antt =====
-- Three passages, in batches of two, ranked by their length.
use zenith_enterprise.Common.{
  ℕ, ◌+◌, ◌≡◌, ◌⊎◌, refl, true, false, none, some, List, [], ◌∷◌, ltb, arith, length, suc, map,
}
use zenith_enterprise.Common.Text.{Text, codes}
use zenith_enterprise.Retrieval.Fusion.{Scoring, Ranked, ids, sort, insert}
use zenith_enterprise.Retrieval.Fusion.Order.{IsSorted}
use zenith_enterprise.Retrieval.Reranker.{
  Limits, Reply, entries, plan_from, accept, rank_batches, rank,
}
use zenith_enterprise.Retrieval.Reranker.Whole.{IsWhole}
use zenith_enterprise.Retrieval.Reranker.Scores.{rank-IsWhole}
use zenith_enterprise.Retrieval.Reranker.Answers.{entry_of, Scores}

above_asym_of : (s t : ℕ) → ltb t s ≡ true → ltb s t ≡ false
above_asym_of s t h = ground arith

above_split_of : (s t u : ℕ) → ltb u s ≡ true → (ltb t s ≡ true) ⊎ (ltb u t ≡ true)
above_split_of s t u h = ground arith

abbrev marks : Scoring
marks = record {
  Score = ℕ;
  zero_score = 0;
  add = λ s t. s + t;
  reciprocal = λ n. n;
  above = λ s t. ltb t s;
  above_asym = above_asym_of;
  above_split = above_split_of;
}

abbrev limits : Limits
limits = record { max_batch_tokens = 100; max_client_batch_size = 2 }

-- The positions of some texts, each with the length of its text.
abbrev measured : ℕ → List Text → Ranked marks
measured i [] = []
measured i (t ∷ ts) = (i, length t) ∷ measured (suc i) ts

-- A server that scores a text by its length, and lists the items from the best to the worst.
abbrev by_length : ℕ → Text → List Text → ℕ × Reply ℕ
by_length w question batch =
    (w + 1, entries (map (entry_of marks length) (sort marks (measured 0 batch))))

abbrev passages : List Text
passages = codes "ab" ∷ codes "abcd" ∷ codes "xy" ∷ []

best_first :
    rank marks by_length limits 0 (codes "which") passages ≡ some ((1, 4) ∷ (0, 2) ∷ (2, 2) ∷ [])
unfolding rank rank_batches plan_from accept sort insert
best_first = refl

-- A reply that names a position twice is refused.
abbrev stuttering : ℕ → Text → List Text → ℕ × Reply ℕ
stuttering w question batch = (
  w,
  entries
      (record { index = some 0; score = some 5 } ∷ record { index = some 0; score = some 6 } ∷ []),
)

duplicate_is_refused :
    rank marks stuttering limits 0 (codes "which") (codes "ab" ∷ codes "cd" ∷ []) ≡ none
unfolding rank rank_batches plan_from accept
duplicate_is_refused = refl

rank-IsWhole_example :
    IsWhole 0 3 (ids marks ((1, 4) ∷ (0, 2) ∷ (2, 2) ∷ []))
    × IsSorted marks ((1, 4) ∷ (0, 2) ∷ (2, 2) ∷ [])
rank-IsWhole_example =
    rank-IsWhole marks by_length limits 0 (codes "which") passages ((1, 4) ∷ (0, 2) ∷ (2, 2) ∷ [])
      best_first
