-- ===== src/Retrieval/Service/Kept.antt =====
-- What holds of every hit that is found holds of every hit that is returned.
use zenith_enterprise.Common.{
  ℕ, zero, suc, ◌≤◌, ◌≡◌, inl, inr, refl, subst, Bool, Option, none, some, List, [], ◌∷◌, length,
  map, keep_if, contains, get_elem?, All, All-take, length-take, arith, Bool-cases, Option-cases,
}
use zenith_enterprise.Common.Text.{Text}
use zenith_enterprise.Common.Sorting.{sort_by, All-sort_by}
use zenith_enterprise.Retrieval.Breaker.{Breaker, allows}
use zenith_enterprise.Retrieval.Fusion.{Scoring}
use zenith_enterprise.Retrieval.Hits.{Hit}
use zenith_enterprise.Retrieval.Judging.{AssessmentBatch, Judgment}
use zenith_enterprise.Retrieval.Search.{
  Row, hit_of, hydrate, Scored, unscored, Judge, rank_by, score_all, better, is_whole,
  sorted_scored, reorder, fused_order, report, rerank, reranking_unavailable,
}
use zenith_enterprise.Retrieval.Service.Reordering.{rerank-IsReordering}

-- A hit is one of some rows: it has its identifier, its document and its text.
abbrev pub IsAmong : List Row → Hit → Type 0
IsAmong rows h =
    (i : ℕ) × (row : Row) × (get_elem? rows i ≡ some row)
    × (h.chunk_id ≡ row.id)
    × (h.document_id ≡ row.document_id)
    × (h.text ≡ row.text)

IsAmong-later : (row : Row) (rows : List Row) (h : Hit) → IsAmong rows h → IsAmong (row ∷ rows) h
IsAmong-later row rows h (i, r, at, id, document, text) = (suc i, r, at, id, document, text)

All-step :
    {A : Type 0} {P Q : A → Type 0} (xs : List A) → ((a : A) → P a → Q a) → All P xs → All Q xs
All-step [] step h = tt
All-step (x ∷ xs) step h = (step x h.0, All-step xs step h.1)

All-selected :
    (p : Row → Bool) (lexical dense : List ℕ) (rows : List Row)
    → All (IsAmong rows) (map (hit_of lexical dense) (keep_if p rows))
All-selected p lexical dense [] = tt
All-selected p lexical dense (row ∷ rows) =
    let later = All-step _ (IsAmong-later row rows) (All-selected p lexical dense rows) in
    elim (Bool-cases (p row)) [
      | inl e ↦ rw e ((zero, row, refl, refl, refl, refl), later)
      | inr e ↦ rw e later
    ]

pub hydrate-All :
    (rows : List Row) (order lexical dense : List ℕ)
    → All (IsAmong rows) (hydrate rows order lexical dense)
hydrate-All rows order lexical dense =
    All-sort_by _ (IsAmong rows) _ (All-selected (λ row. contains row.id order) lexical dense rows)

module _ (S : Scoring) (P : Hit → Type 0) where
  open S use {Score}

  abbrev pub AllHits : List (Scored S) → Type 0
  AllHits = All (λ x. P x.hit)

  All-unscored : (hits : List Hit) → All P hits → AllHits (map (unscored S) hits)
  All-unscored [] h = tt
  All-unscored (x ∷ hits) h = (h.0, All-unscored hits h.1)

  pub fused_order-All :
      (hits : List Hit) (limit : ℕ) (reason : Option Text)
      → All P hits
      → AllHits (fused_order S hits limit reason).hits
  fused_order-All hits limit reason h =
      All-take (λ x. P x.hit) limit (map (unscored S) hits) (All-unscored hits h)

  All-score_all :
      (js : List (Judgment Score)) (hits : List Hit) (scored : List (Scored S))
      → score_all S js hits ≡ some scored
      → All P hits
      → AllHits scored
  All-score_all js [] scored e h =
      let empty : [] ≡ scored = ground (arith, e) in subst AllHits empty tt
  All-score_all js (x ∷ hits) scored e h = elim (Option-cases (rank_by S x.chunk_id js)) [
    | inl f ↦ absurd (ground (arith, e, f))
    | inr (r, f) ↦ elim (Option-cases (score_all S js hits)) [
      | inl g ↦ absurd (ground (arith, e, f, g))
      | inr (rest, g) ↦
          let whole : record { hit = x; rerank_score = r } ∷ rest ≡ scored =
            ground (arith, e, f, g) in
          subst AllHits whole (h.0, All-score_all js hits rest g h.1)
    ]
  ]

  report-All :
      (b : Breaker) (now : ℕ) (hits : List Hit) (limit : ℕ) (scored : Option (List (Scored S)))
      → All P hits
      → ((xs : List (Scored S)) → scored ≡ some xs → AllHits xs)
      → AllHits (report S b now hits limit (sorted_scored S scored)).1.hits
  report-All b now hits limit none h k = fused_order-All hits limit (some reranking_unavailable) h
  report-All b now hits limit (some scored) h k =
      All-take (λ x. P x.hit) limit (sort_by (better S) scored)
        (All-sort_by (better S) (λ x. P x.hit) scored (k scored refl))

  reorder-All :
      (b : Breaker) (now : ℕ) (hits : List Hit) (limit : ℕ) (batch : Option (AssessmentBatch Score))
      → All P hits
      → AllHits (report S b now hits limit (reorder S hits batch)).1.hits
  reorder-All b now hits limit none h = fused_order-All hits limit (some reranking_unavailable) h
  reorder-All b now hits limit (some batch) h = elim (Bool-cases (is_whole S batch hits)) [
    | inl e ↦ simp e (
        report-All b now hits limit (score_all S batch.judgments hits) h
          (λ xs k. All-score_all batch.judgments hits xs k h))
    | inr e ↦ simp e (fused_order-All hits limit (some reranking_unavailable) h)
  ]

  pub rerank-All :
      (judge : Option (Judge S)) (b : Breaker) (now later : ℕ) (question : Text) (hits : List Hit)
      (limit : ℕ)
      → All P hits
      → AllHits (rerank S judge b now later question hits limit).1.hits
  rerank-All none b now later question hits limit h = fused_order-All hits limit none h
  rerank-All (some assess) b now later question hits limit h = elim (Bool-cases (allows b now)) [
    | inl e ↦ simp e (reorder-All b later hits limit _ h)
    | inr e ↦ simp e (fused_order-All hits limit (some reranking_unavailable) h)
  ]

pub rerank-few :
    (S : Scoring) (judge : Option (Judge S)) (b : Breaker) (now later : ℕ) (question : Text)
    (hits : List Hit) (limit : ℕ)
    → length (rerank S judge b now later question hits limit).1.hits ≤ limit
rerank-few S none b now later question hits limit =
    omega (arith, length-take limit (map (unscored S) hits))
rerank-few S (some assess) b now later question hits limit =
    omega (arith, (rerank-IsReordering S assess b now later question hits limit).size)
