-- ===== src/Retrieval/Judging.antt =====
-- The assessment of candidates: backend/app/features/retrieval/judging. The scores come from the
-- reranker; the time taken is not modelled, and a rank that is there is a finite number.
use zenith_enterprise.Common.{
  ℕ, Bool, true, false, Option, none, some, List, [], ◌∷◌, ◌==◌, if◌then◌else◌, ◌&&◌, not, length,
  map, all, contains, get_elem?,
}
use zenith_enterprise.Common.Text.{Text}
use zenith_enterprise.Retrieval.Fusion.{Scoring, Ranked}

pub data Outcome : Type 0 where
  assessed failed skipped : Outcome

pub record Candidate : Type 0 where
  pub id : ℕ
  pub text : Text

pub record Judgment (V : Type 0) : Type 0 where
  pub candidate_id : ℕ
  pub outcome : Outcome
  pub rank_value : Option V

pub record AssessmentBatch (V : Type 0) : Type 0 where
  pub requested_ids : List ℕ
  pub judgments : List (Judgment V)

-- `len(set(ids)) == len(ids)`
abbrev all_different : List ℕ → Bool
all_different [] = true
all_different (k ∷ ks) = not (contains k ks) && all_different ks

abbrev same_set : List ℕ → List ℕ → Bool
same_set ks js = all (λ k. contains k js) ks && all (λ j. contains j ks) js

-- A rank where and only where the candidate was assessed.
abbrev has_its_rank {ℓ} : {V : Type ℓ} → Outcome → Option V → Bool
has_its_rank assessed none = false
has_its_rank assessed (some v) = true
has_its_rank failed none = true
has_its_rank failed (some v) = false
has_its_rank skipped none = true
has_its_rank skipped (some v) = false

-- `__post_init__`: whether it raises nothing.
abbrev pub is_partition : {V : Type 0} → AssessmentBatch V → Bool
is_partition batch =
    let judged = map (λ j. j.candidate_id) batch.judgments in
    all_different batch.requested_ids
    && length judged == length batch.requested_ids
    && same_set judged batch.requested_ids
    && all (λ j. has_its_rank j.outcome j.rank_value) batch.judgments

module _ (S : Scoring) where
  open S use {Score}

  -- The judgments of the scored positions; a position that no candidate has raises.
  abbrev judgments_of : List Candidate → Ranked S → Option (List (Judgment Score))
  judgments_of candidates [] = some []
  judgments_of candidates ((index, score) ∷ scored) = elim (get_elem? candidates index) [
    | none ↦ none
    | some c ↦ elim (judgments_of candidates scored) [
      | none ↦ none
      | some js ↦
          some (record { candidate_id = c.id; outcome = assessed; rank_value = some score } ∷ js)
    ]
  ]

  abbrev checked : AssessmentBatch Score → Option (AssessmentBatch Score)
  checked batch = if is_partition batch then some batch else none

  -- `TeiJudge.assess`, with the reranker as an argument; `none` is an exception.
  abbrev pub assess :
      (Text → List Text → Option (Ranked S))
      → Text
      → List Candidate
      → Option (AssessmentBatch Score)
  assess rank question candidates =
      let ids = map (λ c. c.id) candidates in
      if all_different ids
      then elim (rank question (map (λ c. c.text) candidates)) [
        | none ↦ none
        | some scored ↦ elim (judgments_of candidates scored) [
          | none ↦ none
          | some js ↦ checked (record { requested_ids = ids; judgments = js })
        ]
      ]
      else none
