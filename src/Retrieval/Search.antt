-- ===== src/Retrieval/Search.antt =====
-- Search from end to end: backend/app/features/retrieval/service.py, `hydrate` of search.py, and
-- backend/app/features/tenancy/context.py. What the database and the two model services answer is a
-- record `Sources`, in which `none` is an exception of the embedder; the judge is an argument.
use zenith_enterprise.Common.{
  ℕ, suc, Bool, true, false, Option, none, some, List, [], ◌∷◌, ◌++◌, ◌==◌, ltb, if◌then◌else◌,
  ◌&&◌, not, map, take, keep_if, all, contains,
}
use zenith_enterprise.Common.Text.{Text, codes, is_empty, text_eq}
use zenith_enterprise.Common.Sorting.{sort_by}
use zenith_enterprise.Retrieval.Breaker.{Breaker, allows, succeeded, failed}
use zenith_enterprise.Retrieval.Fusion.{Scoring}
use zenith_enterprise.Retrieval.Hits.{Box, Hit}
use zenith_enterprise.Retrieval.Judging.{
  Candidate, AssessmentBatch, Judgment, Outcome, assessed, skipped,
}
use zenith_enterprise.Retrieval.Judging as J

pub record TenantContext : Type 0 where
  pub tenant_id : ℕ
  pub label_ids : List ℕ
  pub user_id : Option ℕ
  pub reads_all_history : Bool

abbrev pub for_tenant : ℕ → List ℕ → TenantContext
for_tenant tenant labels = record {
  tenant_id = tenant;
  label_ids = labels;
  user_id = none;
  reads_all_history = false;
}

abbrev pub reaches : TenantContext → ℕ → Bool
reaches c label = contains label c.label_ids

-- A context, or the labels that its caller does not hold.
pub data Narrowed : Type 0 where
  narrowed_to : TenantContext → Narrowed
  not_held : List ℕ → Narrowed

-- `_narrowed`
abbrev pub narrowed : TenantContext → List ℕ → Narrowed
narrowed c labels =
    let beyond = keep_if (λ l. not (reaches c l)) labels in
    if is_empty labels
    then narrowed_to c
    else if is_empty beyond
    then narrowed_to (for_tenant c.tenant_id labels)
    else not_held beyond

pub semantic_unavailable : Text
semantic_unavailable =
    codes "Semantic search is temporarily unavailable — these results come from keyword "
    ++ codes "matching only, so wording matters more than usual."

pub reranking_unavailable : Text
reranking_unavailable =
    codes "Advanced result ordering is temporarily unavailable — the same documents were "
    ++ codes "found, but their order is less refined than usual."

abbrev pub default_limit : ℕ
default_limit = 8

abbrev pub max_limit : ℕ
max_limit = 50

-- What `hydrate` selects of a chunk and its document.
pub record Row : Type 0 where
  pub id : ℕ
  pub document_id : ℕ
  pub filename : Text
  pub media_type : Text
  pub page_num : Option ℕ
  pub char_start : ℕ
  pub char_end : ℕ
  pub text : Text
  pub bboxes : List Box

-- The index of a key in `{key: index for index, key in enumerate(keys)}`: the last one wins.
abbrev pub index_of : ℕ → ℕ → List ℕ → Option ℕ
index_of start key [] = none
index_of start key (k ∷ ks) = elim (index_of (suc start) key ks) [
  | none ↦ if k == key then some start else none
  | some i ↦ some i
]

-- The rows are those of the ids, so each has its position.
abbrev pub position : List ℕ → ℕ → ℕ
position order id = elim (index_of 0 id order) [ none ↦ 0 | some i ↦ i ]

abbrev pub hit_of : List ℕ → List ℕ → Row → Hit
hit_of lexical_ids dense_ids row = record {
  chunk_id = row.id;
  document_id = row.document_id;
  filename = row.filename;
  media_type = row.media_type;
  page_num = row.page_num;
  char_start = row.char_start;
  char_end = row.char_end;
  text = row.text;
  bboxes = row.bboxes;
  lexical_rank = index_of 1 row.id lexical_ids;
  dense_rank = index_of 1 row.id dense_ids;
}

-- `hydrate`, of the rows that the session sees.
abbrev pub hydrate : List Row → List ℕ → List ℕ → List ℕ → List Hit
hydrate rows order lexical_ids dense_ids =
    sort_by (λ g h. ltb (position order g.chunk_id) (position order h.chunk_id))
      (map (hit_of lexical_ids dense_ids) (keep_if (λ row. contains row.id order) rows))

abbrev pub is_assessed : Outcome → Bool
is_assessed assessed = true
is_assessed J.failed = false
is_assessed skipped = false

module _ (S : Scoring) where
  open S use {Score, zero_score, above}

  -- A hit with its `rerank_score`.
  pub record Scored : Type 0 where
    pub hit : Hit
    pub rerank_score : Option Score

  abbrev pub unscored : Hit → Scored
  unscored h = record { hit = h; rerank_score = none }

  abbrev pub Judge : Type 0
  Judge = Text → List Candidate → Option (AssessmentBatch Score)

  -- `by_id[id]`: a judgment that is there, and in it a rank or `None`.
  abbrev pub rank_by : ℕ → List (Judgment Score) → Option (Option Score)
  rank_by id [] = none
  rank_by id (j ∷ js) = elim (rank_by id js) [
    | none ↦ if j.candidate_id == id then some j.rank_value else none
    | some r ↦ some r
  ]

  abbrev pub score_all : List (Judgment Score) → List Hit → Option (List Scored)
  score_all js [] = some []
  score_all js (h ∷ hs) = elim (rank_by h.chunk_id js) [
    | none ↦ none
    | some r ↦ elim (score_all js hs) [
      | none ↦ none
      | some scored ↦ some (record { hit = h; rerank_score = r } ∷ scored)
    ]
  ]

  abbrev pub value : Option Score → Score
  value none = zero_score
  value (some s) = s

  abbrev pub better : Scored → Scored → Bool
  better x y = above (value x.rerank_score) (value y.rerank_score)

  abbrev pub is_whole : AssessmentBatch Score → List Hit → Bool
  is_whole batch hits =
      text_eq batch.requested_ids (map (λ h. h.chunk_id) hits)
      && all (λ j. is_assessed j.outcome) batch.judgments

  abbrev pub sorted_scored : Option (List Scored) → Option (List Scored)
  sorted_scored none = none
  sorted_scored (some scored) = some (sort_by better scored)

  -- The `try` of `_rerank`; `none` is an exception.
  abbrev pub reorder : List Hit → Option (AssessmentBatch Score) → Option (List Scored)
  reorder hits none = none
  reorder hits (some batch) =
      if is_whole batch hits then sorted_scored (score_all batch.judgments hits) else none

  pub record Reranked : Type 0 where
    pub hits : List Scored
    pub reason : Option Text

  abbrev pub fused_order : List Hit → ℕ → Option Text → Reranked
  fused_order hits limit reason = record { hits = take limit (map unscored hits); reason = reason }

  -- The end of `_rerank`, at the time at which the judge has answered.
  abbrev pub report : Breaker → ℕ → List Hit → ℕ → Option (List Scored) → Breaker × Reranked
  report b now hits limit none = (failed b now, fused_order hits limit (some reranking_unavailable))
  report b now hits limit (some ranked) =
      (succeeded b, record { hits = take limit ranked; reason = none })

  -- `_rerank`, asked at one time and answered at another
  abbrev pub rerank : Option Judge → Breaker → ℕ → ℕ → Text → List Hit → ℕ → Breaker × Reranked
  rerank none b now later question hits limit = (b, fused_order hits limit none)
  rerank (some assess) b now later question hits limit =
      if allows b now
      then report b later hits limit (
          reorder hits
            (assess question (map (λ h. record { id = h.chunk_id; text = h.text }) hits)))
      else (b, fused_order hits limit (some reranking_unavailable))
