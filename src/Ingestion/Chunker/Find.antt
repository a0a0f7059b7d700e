-- ===== src/Ingestion/Chunker/Find.antt =====
-- `str.find` and `str.rfind`.
use zenith_enterprise.Common.{
  ℕ, suc, ◌+◌, ◌≤◌, ◌≡◌, true, Option, none, some, [], ◌∷◌, if◌then◌else◌, length, arith,
  Option-cases, inl, inr,
}
use zenith_enterprise.Common.Text.{Text, starts_with}

abbrev pub next_place : Option ℕ → Option ℕ
next_place none = none
next_place (some i) = some (suc i)

-- `text.find(part)`, with `none` for -1
unfoldable pub find : Text → Text → Option ℕ
find part [] = if starts_with part [] then some 0 else none
find part (c ∷ text) =
    let later = next_place (find part text) in if starts_with part (c ∷ text) then some 0 else later

-- `text.rfind(part)`
unfoldable pub rfind : Text → Text → Option ℕ
rfind part [] = if starts_with part [] then some 0 else none
rfind part (c ∷ text) = elim (rfind part text) [
  | some i ↦ some (suc i)
  | none ↦ if starts_with part (c ∷ text) then some 0 else none
]

starts_with-fits : (part text : Text) → starts_with part text ≡ true → length part ≤ length text
starts_with-fits [] text h = omega arith
starts_with-fits (c ∷ part) [] h = ground arith
starts_with-fits (c ∷ part) (d ∷ text) h = ground (arith, starts_with-fits part text)

-- What is found lies within the text.
pub rfind-fits :
    (part text : Text) (i : ℕ) → rfind part text ≡ some i → i + length part ≤ length text
unfolding rfind
rfind-fits part [] i h = ground (arith, starts_with-fits part [])
rfind-fits part (c ∷ text) i h = elim (Option-cases (rfind part text)) [
  | inl e ↦ ground (arith, e, starts_with-fits part (c ∷ text))
  | inr (j, e) ↦ ground (arith, e, rfind-fits part text j e)
]
