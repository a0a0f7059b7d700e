-- ===== src/Retrieval/Fusion.antt =====
-- Reciprocal rank fusion: `fuse`, `candidates` and `_promote_leaders` of
-- backend/app/features/retrieval/search.py. Identifiers are numbers, ordered as their texts are; the
-- scores are floats, which are a parameter.
mod Tally
pub mod Order
mod Leaders
mod Tests
use zenith_enterprise.Common.{
  ℕ, zero, suc, ◌+◌, ◌-◌, ◌≡◌, ◌⊎◌, Bool, true, false, Option, none, some, List, [], ◌∷◌, ◌++◌,
  ◌==◌, ltb, if◌then◌else◌, ◌||◌, ◌&&◌, not, length, map, take, keep_if, contains, max,
}
use zenith_enterprise.Common.Text.{is_empty}

-- The floats that a score may be: finite ones, so `above`, which is `>`, is a strict weak order.
pub record Scoring : Type 1 where
  pub Score : Type 0
  pub zero_score : Score
  pub add : Score → Score → Score
  -- `1 / n`
  pub reciprocal : ℕ → Score
  pub above : Score → Score → Bool
  pub above_asym : (s t : Score) → above s t ≡ true → above t s ≡ false
  pub above_split : (s t u : Score) → above s u ≡ true → (above s t ≡ true) ⊎ (above t u ≡ true)

-- `RRF_K`
abbrev pub rrf_k : ℕ
rrf_k = 60

module _ (S : Scoring) where
  open S use {Score, zero_score, add, reciprocal, above}

  abbrev pub Ranked : Type 0
  Ranked = List (ℕ × Score)

  abbrev pub ids : Ranked → List ℕ
  ids [] = []
  ids ((k, s) ∷ r) = k ∷ ids r

  -- `scores[k] = scores.get(k, 0.0) + s`
  pub add_score : ℕ → Score → Ranked → Ranked
  add_score k s [] = (k, add zero_score s) ∷ []
  add_score k s ((j, t) ∷ r) = if k == j then (j, add t s) ∷ r else (j, t) ∷ add_score k s r

  -- One ranking, whose first entry has the given position.
  pub add_ranking : ℕ → List ℕ → Ranked → Ranked
  add_ranking position [] scores = scores
  add_ranking position (k ∷ ks) scores =
      add_ranking (suc position) ks (add_score k (reciprocal (rrf_k + position)) scores)

  pub add_rankings : List (List ℕ) → Ranked → Ranked
  add_rankings [] scores = scores
  add_rankings (r ∷ rs) scores = add_rankings rs (add_ranking 1 r scores)

  -- Whether `(-s, str(j))` comes before `(-t, str(k))`.
  abbrev pub before : ℕ × Score → ℕ × Score → Bool
  before (j, s) (k, t) = above s t || (not (above t s) && ltb j k)

  unfoldable pub insert : ℕ × Score → Ranked → Ranked
  insert e [] = e ∷ []
  insert e (f ∷ r) = if before f e then f ∷ insert e r else e ∷ f ∷ r

  unfoldable pub sort : Ranked → Ranked
  sort [] = []
  sort (e ∷ r) = insert e (sort r)

  abbrev pub leaders : List (List ℕ) → List ℕ
  leaders [] = []
  leaders ([] ∷ rs) = leaders rs
  leaders ((k ∷ ks) ∷ rs) = k ∷ leaders rs

  -- `kept[-1][1] if kept else 0.0`
  floor : Ranked → Score
  floor [] = zero_score
  floor ((k, s) ∷ []) = s
  floor ((k, s) ∷ e ∷ r) = floor (e ∷ r)

  abbrev pub missing : Ranked → List (List ℕ) → List ℕ
  missing top rankings = keep_if (λ k. not (contains k (ids top))) (leaders rankings)

  abbrev pub with_score : Score → List ℕ → Ranked
  with_score s = map λ k. (k, s)

  -- `limit - len(missing)` may be negative in the source, and is then below 1 as it is here.
  pub promote_leaders : Ranked → List (List ℕ) → ℕ → Ranked
  unfolding floor
  promote_leaders top rankings limit =
      let absent = missing top rankings in
      let kept = take (max 1 (limit - length absent)) top in
      if is_empty top || ltb limit 2
      then top
      else if is_empty absent
      then top
      else kept ++ with_score (floor kept) absent

  -- An exact ranking that is empty is left out.
  abbrev pub rankings_of : List ℕ → List ℕ → List ℕ → List (List ℕ)
  rankings_of lexical dense exact = lexical ∷ dense ∷ (if is_empty exact then [] else exact ∷ [])

  pub ordered : List (List ℕ) → Ranked
  ordered rankings = sort (add_rankings rankings [])

  pub fuse : List ℕ → List ℕ → List ℕ → ℕ → Ranked
  fuse lexical dense exact limit =
      let rankings = rankings_of lexical dense exact in
      promote_leaders (take limit (ordered rankings)) rankings limit

  -- `limit or total`
  pub candidates : List ℕ → List ℕ → List ℕ → Option ℕ → Ranked
  candidates lexical dense exact limit =
      let total = length lexical + length dense + length exact in
      fuse lexical dense exact (elim limit [ none ↦ total | some n ↦ if n == 0 then total else n ])
