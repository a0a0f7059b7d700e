-- ===== src/Retrieval/Reranker/Answers.antt =====
-- A server that scores what it is sent, in any order: the reranker answers, with exactly those scores.
use zenith_enterprise.Common.{
  ℕ, suc, ◌+◌, ◌≡◌, some, List, [], ◌∷◌, ◌++◌, length, map, All, get_elem?, arith,
}
use zenith_enterprise.Common.Text.{Text}
use zenith_enterprise.Retrieval.Fusion.{Scoring, Ranked, ids, sort}
use zenith_enterprise.Retrieval.Fusion.Order.{All-insert}
use zenith_enterprise.Retrieval.Reranker.{Entry, Reply, entries, Batch}
use zenith_enterprise.Retrieval.Reranker.Whole.{IsWhole}

abbrev pub texts_of : List Batch → List Text
texts_of [] = []
texts_of ((start, batch) ∷ batches) = batch ++ texts_of batches

pub get_elem?-append_right {ℓ} :
    {A : Type ℓ} (before xs : List A) (i : ℕ)
    → get_elem? (before ++ xs) (length before + i) ≡ get_elem? xs i
get_elem?-append_right [] xs i = ground arith
get_elem?-append_right (b ∷ before) xs i =
    let apart : (suc (length before) + i ≡ suc (length before + i)) = omega arith in
    rw apart (get_elem?-append_right before xs i)

module _ (S : Scoring) (f : Text → S.Score) where
  open S use {Score}

  -- An item of a reply, from its position and its score.
  abbrev pub entry_of : ℕ × Score → Entry Score
  entry_of e = record { index = some e.0; score = some e.1 }

  -- A position among some texts, with the score of the text that stands there.
  abbrev pub Scores : List Text → ℕ × Score → Type 0
  Scores texts e = (t : Text) × (get_elem? texts e.0 ≡ some t) × (e.1 ≡ f t)

  -- A reply that gives each text of a batch its score, once and in any order.
  abbrev pub IsHonest : List Text → Reply Score → Type 0
  IsHonest batch reply =
      (items : Ranked S) × (reply ≡ entries (map entry_of items))
      × IsWhole 0 (length batch) (ids S items)
      × All (Scores batch) items

  -- The positions of a batch as those of all the passages.
  abbrev shifted : ℕ → Ranked S → Ranked S
  shifted start = map λ e. (start + e.0, e.1)

  pub All-sort : (P : ℕ × Score → Type 0) (r : Ranked S) → All P r → All P (sort S r)
  unfolding sort
  All-sort P [] h = tt
  All-sort P (e ∷ r) h = All-insert S P e (sort S r) h.0 (All-sort P r h.1)
