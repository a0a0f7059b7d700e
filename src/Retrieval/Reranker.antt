-- ===== src/Retrieval/Reranker.antt =====
-- `TeiReranker` of backend/app/features/retrieval/reranker.py. The server is a parameter `post`; a
-- request that fails, or meets the deadline, has the reply `failure`. Scores are those of `fuse`.
mod Whole
mod Sorting
mod Scores
mod Answers
mod Tests
use zenith_enterprise.Common.{
  ℕ, suc, ◌+◌, ◌/◌, Bool, true, false, Option, none, some, List, [], ◌∷◌, ◌++◌, ◌==◌, ltb, leb,
  if◌then◌else◌, ◌&&◌, ◌||◌, not, length, contains,
}
use zenith_enterprise.Common.Text.{Text, is_empty}
use zenith_enterprise.Retrieval.Fusion.{Scoring, Ranked, sort}

-- The two limits of the profile, as the embedding client reads them.
pub record Limits : Type 0 where
  pub max_batch_tokens : ℕ
  pub max_client_batch_size : ℕ

-- One item of a reply: `none` is what is missing, or of another type, or out of the range of numbers
-- that a position or a finite score has.
pub record Entry (V : Type 0) : Type 0 where
  pub index : Option ℕ
  pub score : Option V

-- What comes of a request: no list of items, or such a list.
pub data Reply (V : Type 0) : Type 0 where
  failure : Reply V
  entries : List (Entry V) → Reply V

-- A batch with the position of its first passage.
abbrev pub Batch : Type 0
Batch = ℕ × List Text

abbrev pub cost : Text → Text → ℕ
cost question passage = (length passage / 3 + 1) + (length question / 3 + 1)

abbrev pub must_split : Limits → List Text → ℕ → ℕ → Bool
must_split p current tokens more =
    (not (is_empty current) && ltb p.max_batch_tokens (tokens + more))
    || leb p.max_client_batch_size (length current)

-- The loop of `plan_batches`: `offset` is the position of the first passage that is left.
unfoldable pub plan_from : Limits → Text → ℕ → List Text → ℕ → ℕ → List Text → List Batch
plan_from p question start current tokens offset [] =
    if is_empty current then [] else (start, current) ∷ []
plan_from p question start current tokens offset (passage ∷ passages) =
    let more = cost question passage in
    let fresh = plan_from p question offset (passage ∷ []) more (suc offset) passages in
    let longer =
      plan_from p question start (current ++ passage ∷ []) (tokens + more) (suc offset) passages in
    if must_split p current tokens more then (start, current) ∷ fresh else longer

abbrev pub plan_rerank : Limits → Text → List Text → List Batch
plan_rerank p question passages = plan_from p question 0 [] 0 0 passages

module _ (S : Scoring) where
  open S use {Score}

  -- The checks of one item: a position in the batch that was not there before, and a score.
  unfoldable pub accept : ℕ → ℕ → List ℕ → List (Entry Score) → Option (Ranked S)
  accept start size seen [] = some []
  accept start size seen (e ∷ es) = elim e.index [
    | none ↦ none
    | some i ↦ elim e.score [
      | none ↦ none
      | some s ↦
          if not (ltb i size) || contains i seen
          then none
          else elim (accept start size (i ∷ seen) es) [
            | none ↦ none
            | some r ↦ some ((start + i, s) ∷ r)
          ]
    ]
  ]

  abbrev pub accept_reply : Batch → Reply Score → Option (Ranked S)
  accept_reply batch failure = none
  accept_reply batch (entries es) =
      if length es == length batch.1 then accept batch.0 (length batch.1) [] es else none

  module _ {W : Type 0} (post : W → Text → List Text → W × Reply Score) where
    -- The loop of `_rank`: the first reply that is refused ends it.
    unfoldable pub rank_batches : W → Text → List Batch → W × Option (Ranked S)
    rank_batches w question [] = (w, some [])
    rank_batches w question (batch ∷ batches) =
        let w' = (post w question batch.1).0 in
        let rest = rank_batches w' question batches in
        elim (accept_reply batch (post w question batch.1).1) [
          | none ↦ (w', none)
          | some r ↦ (rest.0, elim rest.1 [ none ↦ none | some r' ↦ some (r ++ r') ])
        ]

    -- `rank` and `_rank`; `none` is `RerankerUnavailable`.
    unfoldable pub rank : Limits → W → Text → List Text → Option (Ranked S)
    rank p w question passages =
        if is_empty passages
        then some []
        else elim (rank_batches w question (plan_rerank p question passages)).1 [
          | none ↦ none
          | some r ↦ some (sort S r)
        ]
