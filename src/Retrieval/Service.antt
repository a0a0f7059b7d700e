-- ===== src/Retrieval/Service.antt =====
-- `SearchService.search` of backend/app/features/retrieval/service.py, over the parts of
-- Retrieval/Search. The time taken and the log are left out.
mod Narrowing
mod Reordering
mod Kept
mod Results
mod Tests
use zenith_enterprise.Common.{
  ℕ, Bool, true, false, Option, none, some, List, [], ◌∷◌, ltb, if◌then◌else◌, ◌&&◌, not, length,
  map, take, keep_if, contains, min, max,
}
use zenith_enterprise.Common.Text.{Text, is_empty}
use zenith_enterprise.Retrieval.Breaker.{Breaker}
use zenith_enterprise.Retrieval.Fusion.{Scoring, Ranked, ids, candidates, fuse}
use zenith_enterprise.Retrieval.Hits.{Hit}
use zenith_enterprise.Retrieval.Relevance.{
  Relevance, confident, weak, nothing, classify, best_rerank,
}
use zenith_enterprise.Retrieval.Search.{
  TenantContext, Narrowed, narrowed_to, not_held, narrowed, semantic_unavailable, max_limit, Row,
  hydrate, Scored, unscored, Judge, rerank, Reranked,
}

module _ (S : Scoring) where
  open S use {Score}

  pub record Sources (V : Type 0) : Type 0 where
    pub embed_query : Text → Option (List V)
    -- Which of some documents a context sees.
    pub readable : TenantContext → List ℕ → List ℕ
    -- The three searches, within the documents asked for.
    pub lexical : TenantContext → Text → List ℕ → Ranked S
    pub dense : TenantContext → List V → List ℕ → Ranked S
    pub exact : TenantContext → Text → List ℕ → Ranked S
    -- The chunks that a context sees.
    pub rows : TenantContext → List Row
    pub rerank_candidates : ℕ
    pub judge : Option (Judge S)
    -- The whole ten-thousandths of a score.
    pub measure : Score → ℕ

  pub record SearchResult : Type 0 where
    pub hits : List (Scored S)
    pub degraded : Bool
    pub reason : Option Text
    pub relevance : Relevance

  -- A result, or what is refused: labels that are not held, documents that are not seen.
  pub data Answer : Type 0 where
    found : SearchResult → Answer
    labels_denied : List ℕ → Answer
    documents_denied : List ℕ → Answer

  abbrev pub clamp : ℕ → ℕ
  clamp limit = max 1 (min limit max_limit)

  abbrev pub is_some {ℓ} : {A : Type ℓ} → Option A → Bool
  is_some none = false
  is_some (some a) = true

  abbrev pub or_else : Option Text → Option Text → Option Text
  or_else none reason = reason
  or_else (some first) reason = some first

  abbrev pub measured : (Score → ℕ) → Option Score → Option ℕ
  measured measure none = none
  measured measure (some s) = some (measure s)

  abbrev pub relevance_of : (Score → ℕ) → List (Scored S) → Relevance
  relevance_of measure hits =
      classify (best_rerank (map (λ h. measured measure h.rerank_score) hits))
        (some (length (keep_if (λ h. is_some h.hit.lexical_rank) hits))) (some (length hits))

  abbrev pub shown : Relevance → List (Scored S) → List (Scored S)
  shown nothing hits = []
  shown weak hits = hits
  shown confident hits = hits

  -- The result of what is returned: a set that does not match is withheld.
  abbrev pub result_of : (Score → ℕ) → List (Scored S) → Option Text → SearchResult
  result_of measure hits reason =
      let relevance = relevance_of measure hits in
      record {
        hits = shown relevance hits;
        degraded = is_some reason;
        reason = reason;
        relevance = relevance;
      }

  -- `_embed`
  abbrev pub vector_of : {V : Type 0} → Option (List V) → List V
  vector_of none = []
  vector_of (some v) = v

  abbrev pub embed_reason : {V : Type 0} → Option (List V) → Option Text
  embed_reason none = some semantic_unavailable
  embed_reason (some v) = none

  module _ {V : Type 0} (sources : Sources V) where
    abbrev pub is_reranking : Bool
    is_reranking = is_some sources.judge && ltb 0 sources.rerank_candidates

    abbrev pub beyond : TenantContext → List ℕ → List ℕ
    beyond c documents = keep_if (λ d. not (contains d (sources.readable c documents))) documents

    abbrev pub lexical_ids : TenantContext → Text → List ℕ → List ℕ
    lexical_ids c question documents = ids S (sources.lexical c question documents)

    abbrev pub dense_ids : TenantContext → List V → List ℕ → List ℕ
    dense_ids c vector documents =
        if is_empty vector then [] else ids S (sources.dense c vector documents)

    -- What the reranker is to see, or the fused top where nothing reranks.
    abbrev pub chosen_ids : List ℕ → List ℕ → List ℕ → ℕ → List ℕ
    chosen_ids lexical dense exact limit = ids S (
        if is_reranking
        then candidates S lexical dense exact (some sources.rerank_candidates)
        else fuse S lexical dense exact limit)

    abbrev pub hits_for : TenantContext → Text → List V → List ℕ → ℕ → List Hit
    hits_for c question vector documents limit =
        let lexical = lexical_ids c question documents in
        let dense = dense_ids c vector documents in
        let exact = ids S (sources.exact c question documents) in
        hydrate (sources.rows c) (chosen_ids lexical dense exact limit) lexical dense

    abbrev pub ordered_hits : Breaker → ℕ → ℕ → Text → List Hit → ℕ → Breaker × Reranked S
    ordered_hits b now later question hits limit =
        if is_reranking && not (is_empty hits)
        then rerank S sources.judge b now later question hits limit
        else (b, record { hits = take limit (map (unscored S) hits); reason = none })

    abbrev pub answered : Option Text → Breaker × Reranked S → Breaker × Answer
    answered embedding (b, r) =
        (b, found (result_of sources.measure r.hits (or_else embedding r.reason)))

    -- `search` below `_narrowed`
    abbrev pub search_in :
        TenantContext → Narrowed → Breaker → ℕ → ℕ → Text → ℕ → List ℕ → Breaker × Answer
    search_in c (not_held labels) b now later question limit documents = (b, labels_denied labels)
    search_in c (narrowed_to inner) b now later question limit documents =
        let embedding = sources.embed_query question in
        let hits = hits_for inner question (vector_of embedding) documents limit in
        let denied = beyond c documents in
        if is_empty denied
        then answered (embed_reason embedding) (ordered_hits b now later question hits limit)
        else (b, documents_denied denied)

    unfoldable pub search :
        TenantContext → Breaker → ℕ → ℕ → Text → ℕ → List ℕ → List ℕ → Breaker × Answer
    search c b now later question limit labels documents =
        search_in c (narrowed c labels) b now later question (clamp limit) documents
