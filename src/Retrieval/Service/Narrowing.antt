-- ===== src/Retrieval/Service/Narrowing.antt =====
-- A caller may look at less than it reaches, never at more.
use zenith_enterprise.Common.{
  ℕ, ◌≡◌, refl, Bool, true, false, List, [], ◌∷◌, not, keep_if, contains, All, All-of_contains,
  arith, Bool-cases, inl, inr,
}
use zenith_enterprise.Common.Text.{is_empty}
use zenith_enterprise.Retrieval.Search.{
  TenantContext, Narrowed, narrowed_to, not_held, narrowed, reaches,
}

-- What `_narrowed` promises of the context, or of the labels that it names in the refusal.
abbrev pub Narrows : TenantContext → List ℕ → Narrowed → Type 0
Narrows c labels (narrowed_to inner) =
    (inner.tenant_id ≡ c.tenant_id) × All (λ l. reaches c l ≡ true) inner.label_ids
Narrows c labels (not_held beyond) =
    (is_empty beyond ≡ false) × All (λ l. (contains l labels ≡ true) × (reaches c l ≡ false)) beyond

pub All-failing :
    (p : ℕ → Bool) (whole labels : List ℕ)
    → All (λ l. contains l whole ≡ true) labels
    → All (λ l. (contains l whole ≡ true) × (p l ≡ false)) (keep_if (λ l. not (p l)) labels)
All-failing p whole [] h = tt
All-failing p whole (l ∷ labels) h = elim (Bool-cases (p l)) [
  | inl e ↦ rw e (All-failing p whole labels h.1)
  | inr e ↦ rw e ((h.0, e), All-failing p whole labels h.1)
]

pub All-passing :
    (p : ℕ → Bool) (labels : List ℕ)
    → is_empty (keep_if (λ l. not (p l)) labels) ≡ true
    → All (λ l. p l ≡ true) labels
All-passing p [] h = tt
All-passing p (l ∷ labels) h = elim (Bool-cases (p l)) [
  | inl e ↦ (e, All-passing p labels (ground (arith, e, h)))
  | inr e ↦ absurd (ground (arith, e, h))
]

-- Naming labels yields a context of the same tenant all of whose labels the caller holds, or a refusal
-- that names some of the labels asked for, none of which the caller holds.
pub narrowed_never_widens :
    (c : TenantContext) (labels : List ℕ) → Narrows c labels (narrowed c labels)
narrowed_never_widens c [] = (refl, All-of_contains c.label_ids (λ l h. h))
narrowed_never_widens c (l ∷ labels) =
    elim (Bool-cases (is_empty (keep_if (λ l. not (reaches c l)) (l ∷ labels)))) [
      | inl e ↦ rw e (refl, All-passing (reaches c) (l ∷ labels) e)
      | inr e ↦ rw e (
        e,
        All-failing (reaches c) (l ∷ labels) (l ∷ labels) (All-of_contains (l ∷ labels) (λ a h. h)),
      )
    ]
