-- ===== src/Retrieval/Service/Results.antt =====
-- What a search returns.
use zenith_enterprise.Common.{
  ℕ, ◌≤◌, ◌≡◌, inl, inr, refl, ap, true, false, Option, none, List, [], ◌&&◌, not, length, map,
  contains, All, All-of_contains, length-take, arith, Bool-cases,
}
use zenith_enterprise.Common.Text.{Text, is_empty}
use zenith_enterprise.Retrieval.Breaker.{Breaker}
use zenith_enterprise.Retrieval.Fusion.{Scoring, ids}
use zenith_enterprise.Retrieval.Hits.{Hit}
use zenith_enterprise.Retrieval.Relevance.{Relevance, confident, weak, nothing}
use zenith_enterprise.Retrieval.Search.{
  TenantContext, Narrowed, narrowed_to, not_held, narrowed, Scored, unscored,
}
use zenith_enterprise.Retrieval.Service.Narrowing.{
  Narrows, narrowed_never_widens, All-failing, All-passing,
}
use zenith_enterprise.Retrieval.Service.{
  Sources, SearchResult, Answer, found, labels_denied, documents_denied, clamp, is_some,
  relevance_of, result_of, shown, vector_of, lexical_ids, dense_ids, chosen_ids, is_reranking,
  beyond, hits_for, ordered_hits, search_in, search,
}
use zenith_enterprise.Retrieval.Service.Kept.{
  IsAmong, hydrate-All, rerank-All, rerank-few, fused_order-All,
}

-- What is promised of a result for a context, a limit and some documents.
pub record IsSound (S : Scoring) {V : Type 0} (sources : Sources S V) (c inner : TenantContext)
    (limit : ℕ) (documents : List ℕ) (r : SearchResult S) : Type 0 where
  pub few : length r.hits ≤ clamp S limit
  pub seen : All (λ x. IsAmong (sources.rows inner) x.hit) r.hits
  pub withheld : r.relevance ≡ nothing → r.hits ≡ []
  pub told : r.degraded ≡ is_some S r.reason
  pub readable : All (λ d. contains d (sources.readable c documents) ≡ true) documents

module _ (S : Scoring) {V : Type 0} (sources : Sources S V) where
  ordered_hits-All :
      (P : Hit → Type 0) (b : Breaker) (now later : ℕ) (question : Text) (hits : List Hit)
      (limit : ℕ)
      → All P hits
      → All (λ x. P x.hit) (ordered_hits S sources b now later question hits limit).1.hits
  ordered_hits-All P b now later question hits limit h =
      elim (Bool-cases (is_reranking S sources && not (is_empty hits))) [
        | inl e ↦ simp e (rerank-All S P sources.judge b now later question hits limit h)
        | inr e ↦ simp e (fused_order-All S P hits limit none h)
      ]

  ordered_hits-few :
      (b : Breaker) (now later : ℕ) (question : Text) (hits : List Hit) (limit : ℕ)
      → length (ordered_hits S sources b now later question hits limit).1.hits ≤ limit
  ordered_hits-few b now later question hits limit =
      elim (Bool-cases (is_reranking S sources && not (is_empty hits))) [
        | inl e ↦ simp e (rerank-few S sources.judge b now later question hits limit)
        | inr e ↦ simp e (omega (arith, length-take limit (map (unscored S) hits)))
      ]

  shown-All :
      (P : Scored S → Type 0) (k : Relevance) (hits : List (Scored S))
      → All P hits
      → All P (shown S k hits)
  shown-All P nothing hits h = tt
  shown-All P weak hits h = h
  shown-All P confident hits h = h

  shown-few :
      (k : Relevance) (hits : List (Scored S)) (limit : ℕ)
      → length hits ≤ limit
      → length (shown S k hits) ≤ limit
  shown-few nothing hits limit h = omega arith
  shown-few weak hits limit h = h
  shown-few confident hits limit h = h

  result_of-IsSound :
      (c inner : TenantContext) (limit : ℕ) (documents : List ℕ) (hits : List (Scored S))
      (reason : Option Text)
      → length hits ≤ clamp S limit
      → All (λ x. IsAmong (sources.rows inner) x.hit) hits
      → All (λ d. contains d (sources.readable c documents) ≡ true) documents
      → IsSound S sources c inner limit documents (result_of S sources.measure hits reason)
  result_of-IsSound c inner limit documents hits reason few seen readable = record {
    few = shown-few (relevance_of S sources.measure hits) hits (clamp S limit) few;
    seen =
        shown-All (λ x. IsAmong (sources.rows inner) x.hit) (relevance_of S sources.measure hits)
          hits seen;
    withheld = λ h. ap (λ k. shown S k hits) h;
    told = refl;
    readable = readable;
  }

  -- What an answer promises, a refusal included.
  abbrev pub IsAnswer : TenantContext → ℕ → List ℕ → List ℕ → Answer S → Type 0
  IsAnswer c limit labels documents (labels_denied beyond) = Narrows c labels (not_held beyond)
  IsAnswer c limit labels documents (documents_denied denied) =
      (is_empty denied ≡ false)
      × All
          (λ d. (contains d documents ≡ true) × (contains d (sources.readable c documents) ≡ false))
          denied
  IsAnswer c limit labels documents (found r) =
      (inner : TenantContext) × Narrows c labels (narrowed_to inner)
      × IsSound S sources c inner limit documents r

  search_in-IsAnswer :
      (c : TenantContext) (n : Narrowed) (b : Breaker) (now later : ℕ) (question : Text) (limit : ℕ)
      (labels documents : List ℕ)
      → Narrows c labels n
      → IsAnswer c limit labels documents
          (search_in S sources c n b now later question (clamp S limit) documents).1
  search_in-IsAnswer c (not_held ls) b now later question limit labels documents h = h
  search_in-IsAnswer c (narrowed_to inner) b now later question limit labels documents h =
      let vector = vector_of S (sources.embed_query question) in
      let lexical = lexical_ids S sources inner question documents in
      let dense = dense_ids S sources inner vector documents in
      let exact = ids S (sources.exact inner question documents) in
      let hits = hits_for S sources inner question vector documents (clamp S limit) in
      let denied = beyond S sources c documents in
      elim (Bool-cases (is_empty denied)) [
        | inl e ↦ simp e (
          inner,
          h,
          result_of-IsSound c inner limit documents _ _
              (ordered_hits-few b now later question hits (clamp S limit))
              (ordered_hits-All (IsAmong (sources.rows inner)) b now later question hits
                (clamp S limit)
                (hydrate-All (sources.rows inner)
                  (chosen_ids S sources lexical dense exact (clamp S limit)) lexical dense))
              (All-passing (λ d. contains d (sources.readable c documents)) documents e),
        )
        | inr e ↦ simp e (
          refl,
          All-failing (λ d. contains d (sources.readable c documents)) documents documents
              (All-of_contains documents (λ a k. k)),
        )
      ]

-- Whatever the judge, the embedder and the three searches answer, a search either refuses, with labels
-- that were asked for and are not held or documents that were asked for and are not seen, or returns
-- no more hits than the limit, each a chunk seen within the context, which is never wider than the
-- caller's; nothing where the set does not match; and it is degraded exactly if it says why.
pub search_answers :
    (S : Scoring) {V : Type 0} (sources : Sources S V) (c : TenantContext) (b : Breaker)
    (now later : ℕ) (question : Text) (limit : ℕ) (labels documents : List ℕ)
    → IsAnswer S sources c limit labels documents
        (search S sources c b now later question limit labels documents).1
unfolding search
search_answers S sources c b now later question limit labels documents =
    search_in-IsAnswer S sources c (narrowed c labels) b now later question limit labels documents
      (narrowed_never_widens c labels)
