-- ===== src/Retrieval/Reranker/Scores.antt =====
-- What the reranker's checks leave: every passage is scored, and once.
use zenith_enterprise.Common.{
  ℕ, suc, ◌+◌, ◌-◌, ◌≡◌, refl, true, false, some, List, [], ◌∷◌, ◌++◌, ◌==◌, not, length, contains,
  all, arith, Bool-cases, Option-cases, sym, subst, ap, inl, inr, length-append,
}
use zenith_enterprise.Common.Text.{Text}
use zenith_enterprise.Retrieval.Fusion.{Scoring, Ranked, ids, sort}
use zenith_enterprise.Retrieval.Fusion.Order.{IsSorted, sort-IsSorted}
use zenith_enterprise.Retrieval.Reranker.{
  Limits, Entry, Reply, failure, entries, Batch, cost, must_split, plan_from, plan_rerank, accept,
  accept_reply, rank_batches, rank,
}
use zenith_enterprise.Retrieval.Reranker.Whole.{distinct, lies_in, IsWhole, IsWhole-append}
use zenith_enterprise.Retrieval.Reranker.Sorting.{sort-IsWhole}

contains_unseen :
    (start i : ℕ) (seen ks : List ℕ)
    → all (λ k. not (contains (k - start) (i ∷ seen))) ks ≡ true
    → contains (start + i) ks ≡ false
contains_unseen start i seen [] h = refl
contains_unseen start i seen (k ∷ ks) h = ground (arith, contains_unseen start i seen ks)

all_unseen :
    (start i : ℕ) (seen ks : List ℕ)
    → all (λ k. not (contains (k - start) (i ∷ seen))) ks ≡ true
    → all (λ k. not (contains (k - start) seen)) ks ≡ true
all_unseen start i seen [] h = refl
all_unseen start i seen (k ∷ ks) h = ground (arith, all_unseen start i seen ks)

-- Batches that follow each other from one position to another.
abbrev pub Follows : ℕ → ℕ → List Batch → Type 0
Follows low high [] = low ≡ high
Follows low high ((start, batch) ∷ batches) =
    (start ≡ low) × Follows (low + length batch) high batches

pub plan_from-Follows :
    (p : Limits) (question : Text) (start : ℕ) (current : List Text) (tokens offset high : ℕ)
    (passages : List Text)
    → offset ≡ start + length current
    → high ≡ offset + length passages
    → Follows start high (plan_from p question start current tokens offset passages)
unfolding plan_from
plan_from-Follows p question start [] tokens offset high [] o h = omega arith
plan_from-Follows p question start (c ∷ current) tokens offset high [] o h = (refl, omega arith)
plan_from-Follows p question start current tokens offset high (passage ∷ passages) o h =
    let more = cost question passage in
    elim (Bool-cases (must_split p current tokens more)) [
      | inl e ↦ rw e (
        refl,
        rw (sym o) (
            plan_from-Follows p question offset (passage ∷ []) more (suc offset) high passages
              (omega arith) (omega arith)),
      )
      | inr e ↦ rw e (
          plan_from-Follows p question start (current ++ passage ∷ []) (tokens + more) (suc offset)
            high passages (omega (arith, length-append current (passage ∷ []))) (omega arith))
    ]

module _ (S : Scoring) where
  open S use {Score}

  length-ids : (r : Ranked S) → length (ids S r) ≡ length r
  length-ids [] = refl
  length-ids (e ∷ r) = omega (arith, length-ids r)

  accept-distinct :
      (start size : ℕ) (seen : List ℕ) (es : List (Entry Score)) (r : Ranked S)
      → accept S start size seen es ≡ some r
      → (length (ids S r) ≡ length es)
        × (distinct (ids S r) ≡ true)
        × (all (lies_in start (start + size)) (ids S r) ≡ true)
        × (all (λ k. not (contains (k - start) seen)) (ids S r) ≡ true)
  unfolding accept
  accept-distinct start size seen [] r h = ground (arith, h)
  accept-distinct start size seen (e ∷ es) r h = elim (Option-cases e.index) [
    | inl n ↦ absurd (ground (arith, n, h))
    | inr (i, at) ↦ elim (Option-cases e.score) [
      | inl n ↦ absurd (ground (arith, at, n, h))
      | inr (s, with) ↦ elim (Option-cases (accept S start size (i ∷ seen) es)) [
        | inl n ↦ absurd (ground (arith, at, with, n, h))
        | inr (r', rest) ↦ ground (
          arith,
          at,
          with,
          rest,
          accept-distinct start size (i ∷ seen) es r' rest,
          contains_unseen start i seen (ids S r'),
          all_unseen start i seen (ids S r'),
        )
      ]
    ]
  ]

  accept_reply-IsWhole :
      (start : ℕ) (batch : List Text) (reply : Reply Score) (r : Ranked S)
      → accept_reply S (start, batch) reply ≡ some r
      → IsWhole start (start + length batch) (ids S r)
  accept_reply-IsWhole start batch failure r h = absurd (ground (arith, h))
  accept_reply-IsWhole start batch (entries es) r h =
      elim (Bool-cases (length es == length batch)) [
        | inl e ↦
            let got : accept S start (length batch) [] es ≡ some r = ground (arith, e, h) in
            let facts = accept-distinct start (length batch) [] es r got in
            record { count = ground (arith, e, facts.0); once = facts.1; between = facts.2 }
        | inr e ↦ absurd (ground (arith, e, h))
      ]

  ids-append : (r q : Ranked S) → ids S (r ++ q) ≡ ids S r ++ ids S q
  ids-append [] q = refl
  ids-append ((k, s) ∷ r) q = ap (◌∷◌ k) (ids-append r q)

  module _ {W : Type 0} (post : W → Text → List Text → W × Reply Score) where
    rank_batches-IsWhole :
        (w : W) (question : Text) (low high : ℕ) (batches : List Batch) (r : Ranked S)
        → Follows low high batches
        → (rank_batches S post w question batches).1 ≡ some r
        → IsWhole low high (ids S r)
    unfolding rank_batches
    rank_batches-IsWhole w question low high [] r f h =
        let empty : [] ≡ r = ground (arith, h) in
        subst (λ q. IsWhole low high (ids S q)) empty
          (record { count = omega (arith, f); once = refl; between = refl })
    rank_batches-IsWhole w question low high ((start, batch) ∷ batches) r f h =
        let reply = (post w question batch).1 in
        let w' = (post w question batch).0 in
        elim (Option-cases (accept_reply S (start, batch) reply)) [
          | inl n ↦ absurd (ground (arith, n, h))
          | inr (first, e) ↦ elim (Option-cases (rank_batches S post w' question batches).1) [
            | inl n ↦ absurd (ground (arith, e, n, h))
            | inr (later, e') ↦
                let joined : first ++ later ≡ r = ground (arith, e, e', h) in
                let here = accept_reply-IsWhole start batch reply first e in
                let there =
                  rank_batches-IsWhole w' question (low + length batch) high batches later f.1 e' in
                subst (λ q. IsWhole low high (ids S q)) joined
                  (rw (ids-append first later) (
                    IsWhole-append low (low + length batch) high (ids S first) (ids S later)
                      (subst (λ n. IsWhole n (n + length batch) (ids S first)) f.0 here) there))
          ]
        ]

-- Where the reranker answers, whatever the server replied, every passage is ranked exactly once, by
-- its position, from the best score to the worst and, at equal scores, in the order they came in.
pub rank-IsWhole :
    (S : Scoring) {W : Type 0} (post : W → Text → List Text → W × Reply S.Score) (p : Limits)
    (w : W) (question : Text) (passages : List Text) (r : Ranked S)
    → rank S post p w question passages ≡ some r
    → IsWhole 0 (length passages) (ids S r) × IsSorted S r
unfolding rank
rank-IsWhole S post p w question [] r h =
    let empty : [] ≡ r = ground (arith, h) in
    subst (λ q. IsWhole 0 0 (ids S q) × IsSorted S q) empty
      (record { count = refl; once = refl; between = refl }, tt)
rank-IsWhole S post p w question (passage ∷ passages) r h =
    let batches = plan_rerank p question (passage ∷ passages) in
    elim (Option-cases (rank_batches S post w question batches).1) [
      | inl n ↦ absurd (ground (arith, n, h))
      | inr (scores, e) ↦
          let sorted : sort S scores ≡ r = ground (arith, e, h) in
          let follows =
            plan_from-Follows p question 0 [] 0 0 (length (passage ∷ passages)) (passage ∷ passages)
              (omega arith) (omega arith) in
          let whole = rank_batches-IsWhole S post w question 0 _ batches scores follows e in
          subst (λ q. IsWhole 0 (length (passage ∷ passages)) (ids S q) × IsSorted S q) sorted
            (sort-IsWhole S 0 (length (passage ∷ passages)) scores whole, sort-IsSorted S scores)
    ]
