-- ===== src/Retrieval/Service/Reordering.antt =====
-- Reranking changes the order of the hits and never which they are.
use zenith_enterprise.Common.{
  ℕ, zero, suc, ◌≤◌, ◌≡◌, ◌⊎◌, ◌∙◌, sym, inl, inr, refl, ap, Bool, true, false, Option, none, some,
  List, [], ◌∷◌, if◌then◌else◌, length, map, take, length-take, min, arith, Bool-cases,
  Option-cases,
}
use zenith_enterprise.Common.Text.{Text}
use zenith_enterprise.Common.Sorting.{
  count, sort_by, IsSortedBy, sort_by-IsSortedBy, length-sort_by, count-sort_by,
}
use zenith_enterprise.Retrieval.Breaker.{Breaker, allows, succeeded, failed, attempt}
use zenith_enterprise.Retrieval.Fusion.{Scoring}
use zenith_enterprise.Retrieval.Hits.{Hit}
use zenith_enterprise.Retrieval.Judging.{AssessmentBatch, Judgment}
use zenith_enterprise.Retrieval.Search.{
  Scored, unscored, Judge, rank_by, score_all, better, is_whole, sorted_scored, reorder, Reranked,
  fused_order, report, rerank, reranking_unavailable,
}

count-take : (k n : ℕ) (xs : List ℕ) → count k (take n xs) ≤ count k xs
count-take k zero xs = omega arith
count-take k (suc n) [] = omega arith
count-take k (suc n) (x ∷ xs) = ground (arith, count-take k n xs)

map-take : {A B : Type 0} (f : A → B) (n : ℕ) (xs : List A) → map f (take n xs) ≡ take n (map f xs)
map-take f zero xs = refl
map-take f (suc n) [] = refl
map-take f (suc n) (x ∷ xs) = ap (λ ys. f x ∷ ys) (map-take f n xs)

module _ (S : Scoring) where
  open S use {Score}

  IsSortedBy-take :
      (n : ℕ) (xs : List (Scored S)) → IsSortedBy (better S) xs → IsSortedBy (better S) (take n xs)
  IsSortedBy-take zero xs h = tt
  IsSortedBy-take (suc n) [] h = tt
  IsSortedBy-take (suc zero) (x ∷ xs) h = tt
  IsSortedBy-take (suc (suc n)) (x ∷ []) h = tt
  IsSortedBy-take (suc (suc n)) (x ∷ y ∷ xs) h = (h.0, IsSortedBy-take (suc n) (y ∷ xs) h.1)

  hits-score_all :
      (js : List (Judgment Score)) (hs : List Hit) (scored : List (Scored S))
      → score_all S js hs ≡ some scored
      → map (λ x. x.hit) scored ≡ hs
  hits-score_all js [] scored h = ground (arith, h)
  hits-score_all js (k ∷ hs) scored h = elim (Option-cases (rank_by S k.chunk_id js)) [
    | inl e ↦ absurd (ground (arith, e, h))
    | inr (r, e) ↦ elim (Option-cases (score_all S js hs)) [
      | inl f ↦ absurd (ground (arith, e, f, h))
      | inr (rest, f) ↦ ground (arith, e, f, h, hits-score_all js hs rest f)
    ]
  ]

  -- What reranking may make of some hits.
  pub record IsReordering (hits : List Hit) (limit : ℕ) (r : Reranked S) : Type 0 where
    pub size : length r.hits ≡ min limit (length hits)
    pub drawn :
        (k : ℕ) → count k (map (λ x. x.hit.chunk_id) r.hits) ≤ count k (map (λ h. h.chunk_id) hits)
    pub order :
        ((r.reason ≡ some reranking_unavailable) × (r.hits ≡ take limit (map (unscored S) hits)))
        ⊎ ((r.reason ≡ none) × IsSortedBy (better S) r.hits)

  length-map : {A B : Type 0} (f : A → B) (xs : List A) → length (map f xs) ≡ length xs
  length-map f [] = refl
  length-map f (x ∷ xs) = ap suc (length-map f xs)

  scored_ids :
      (scored : List (Scored S)) (hits : List Hit)
      → map (λ x. x.hit) scored ≡ hits
      → map (λ x. x.hit.chunk_id) scored ≡ map (λ h. h.chunk_id) hits
  scored_ids scored hits e = go scored ∙ ap (map (λ h. h.chunk_id)) e
    where
      go :
          (xs : List (Scored S))
          → map (λ x. x.hit.chunk_id) xs ≡ map (λ h. h.chunk_id) (map (λ x. x.hit) xs)
      go [] = refl
      go (x ∷ xs) = ap (λ ks. x.hit.chunk_id ∷ ks) (go xs)

  taken_size :
      (scored : List (Scored S)) (hits : List Hit) (limit : ℕ)
      → length scored ≡ length hits
      → length (take limit scored) ≡ min limit (length hits)
  taken_size scored hits limit e = omega (arith, length-take limit scored, e)

  taken_drawn :
      (scored : List (Scored S)) (hits : List Hit) (limit k : ℕ)
      → count k (map (λ x. x.hit.chunk_id) scored) ≡ count k (map (λ h. h.chunk_id) hits)
      → count k (map (λ x. x.hit.chunk_id) (take limit scored))
        ≤ count k (map (λ h. h.chunk_id) hits)
  taken_drawn scored hits limit k e =
      rw (map-take (λ x. x.hit.chunk_id) limit scored)
        (omega (arith, e, count-take k limit (map (λ x. x.hit.chunk_id) scored)))

  hits_unscored : (hits : List Hit) → map (λ x. x.hit) (map (unscored S) hits) ≡ hits
  hits_unscored [] = refl
  hits_unscored (h ∷ hs) = ap (λ ks. h ∷ ks) (hits_unscored hs)

  fused_order-IsReordering :
      (hits : List Hit) (limit : ℕ)
      → IsReordering hits limit (fused_order S hits limit (some reranking_unavailable))
  fused_order-IsReordering hits limit = record {
    size = taken_size (map (unscored S) hits) hits limit (length-map (unscored S) hits);
    drawn = λ k.
        taken_drawn (map (unscored S) hits) hits limit k
          (ap (count k) (scored_ids (map (unscored S) hits) hits (hits_unscored hits)));
    order = inl (refl, refl);
  }

  report-IsReordering :
      (b : Breaker) (now : ℕ) (hits : List Hit) (limit : ℕ) (scored : Option (List (Scored S)))
      → ((xs : List (Scored S)) → scored ≡ some xs → map (λ x. x.hit) xs ≡ hits)
      → IsReordering hits limit (report S b now hits limit (sorted_scored S scored)).1
  report-IsReordering b now hits limit none h = fused_order-IsReordering hits limit
  report-IsReordering b now hits limit (some scored) h = record {
    size = taken_size (sort_by (better S) scored) hits limit (
        length-sort_by (better S) scored
        ∙ sym (length-map (λ x. x.hit) scored)
        ∙ ap length (h scored refl));
    drawn = λ k. taken_drawn (sort_by (better S) scored) hits limit k (
        count-sort_by (better S) (λ x. x.hit.chunk_id) k scored
        ∙ ap (count k) (scored_ids scored hits (h scored refl)));
    order = inr (
      refl,
      IsSortedBy-take limit (sort_by (better S) scored)
          (sort_by-IsSortedBy (better S) (λ x y. S.above_asym _ _) scored),
    );
  }

  reorder-IsReordering :
      (b : Breaker) (now : ℕ) (hits : List Hit) (limit : ℕ) (batch : Option (AssessmentBatch Score))
      → IsReordering hits limit (report S b now hits limit (reorder S hits batch)).1
  reorder-IsReordering b now hits limit none = fused_order-IsReordering hits limit
  reorder-IsReordering b now hits limit (some batch) = elim (Bool-cases (is_whole S batch hits)) [
    | inl e ↦ simp e (
        report-IsReordering b now hits limit (score_all S batch.judgments hits)
          (λ xs. hits-score_all batch.judgments hits xs))
    | inr e ↦ simp e (fused_order-IsReordering hits limit)
  ]

-- Where there is a judge, whatever it answers and whatever state the breaker is in, reranking returns
-- as many of the hits as the limit lets through and none more often than it was found. Either they
-- are in the fused order and the notice says that reranking is unavailable, or there is no notice and
-- no hit is better than the one in front of it.
pub rerank-IsReordering :
    (S : Scoring) (assess : Judge S) (b : Breaker) (now later : ℕ) (question : Text)
    (hits : List Hit) (limit : ℕ)
    → IsReordering S hits limit (rerank S (some assess) b now later question hits limit).1
rerank-IsReordering S assess b now later question hits limit = elim (Bool-cases (allows b now)) [
  | inl e ↦ simp e (reorder-IsReordering S b later hits limit _)
  | inr e ↦ simp e (fused_order-IsReordering S hits limit)
]

abbrev pub is_none {ℓ} : {A : Type ℓ} → Option A → Bool
is_none none = true
is_none (some a) = false

report_follows :
    (S : Scoring) (b : Breaker) (now : ℕ) (hits : List Hit) (limit : ℕ)
    (scored : Option (List (Scored S)))
    → (report S b now hits limit scored).0
      ≡ (if is_none (report S b now hits limit scored).1.reason then succeeded b else failed b now)
report_follows S b now hits limit none = refl
report_follows S b now hits limit (some scored) = refl

-- What a search reports to the breaker is one attempt, which has answered exactly where there is no
-- notice: the laws of sequences of attempts are those of sequences of searches.
pub rerank_attempts :
    (S : Scoring) (assess : Judge S) (b : Breaker) (now : ℕ) (question : Text) (hits : List Hit)
    (limit : ℕ)
    → (rerank S (some assess) b now now question hits limit).0
      ≡ attempt b (now, is_none (rerank S (some assess) b now now question hits limit).1.reason)
unfolding attempt
rerank_attempts S assess b now question hits limit = elim (Bool-cases (allows b now)) [
  | inl e ↦ simp e (report_follows S b now hits limit _)
  | inr e ↦ simp e refl
]
