-- ===== src/Ingestion/Upload/Wanted.antt =====
-- Which labels an upload is given.
use zenith_enterprise.Common.{
  ℕ, ◌≡◌, ◌⊎◌, inl, inr, refl, sym, ◌∙◌, Bool, true, false, List, [], ◌∷◌, ◌&&◌, not, keep_if,
  contains, sort_distinct, contains-sort_distinct, All, All-of_contains, arith, Bool-cases,
  Option-cases, some, ap,
}
use zenith_enterprise.Common.Text.{is_empty, text_eq, text_eq→eq}
use zenith_enterprise.Ingestion.Upload.{
  Labels, Resolved, wanted, unknown_labels, not_held, chose_nothing, quarantine_of, resolve_labels,
}

-- A label that was asked for, that the tenant has and that the caller reaches.
abbrev pub MayChoose : Labels → List ℕ → List ℕ → ℕ → Type 0
MayChoose ls reach requested l =
    (contains l requested ≡ true) × (contains l ls.in_tenant ≡ true) × (contains l reach ≡ true)

-- Nobody chose a label: none is named, or none but the tenant's default.
abbrev pub Unchosen : Labels → List ℕ → Type 0
Unchosen ls requested =
    (requested ≡ []) ⊎ ((d : ℕ) × (ls.default ≡ some d) × All (λ l. l ≡ d) requested)

-- The labels that a refusal names: those asked for that are not in a list, and there are some.
abbrev pub Names : List ℕ → List ℕ → List ℕ → Type 0
Names requested allowed named =
    (is_empty named ≡ false)
    × ((l : ℕ) → contains l named ≡ (contains l requested && not (contains l allowed)))

abbrev pub IsResolved : Labels → List ℕ → List ℕ → Resolved → Type 0
IsResolved ls reach requested (wanted labels) =
    (is_empty labels ≡ false)
    × ((Unchosen ls requested × (labels ≡ quarantine_of ls ∷ []))
        ⊎ (¬ Unchosen ls requested
            × (labels ≡ sort_distinct requested)
            × All (MayChoose ls reach requested) labels))
IsResolved ls reach requested (unknown_labels ks) =
    ¬ Unchosen ls requested × Names requested ls.in_tenant ks
IsResolved ls reach requested (not_held ks) =
    ¬ Unchosen ls requested
    × All (λ l. contains l ls.in_tenant ≡ true) requested
    × Names requested reach ks

pub contains-keep_if :
    (p : ℕ → Bool) (a : ℕ) (xs : List ℕ) → contains a (keep_if p xs) ≡ (contains a xs && p a)
contains-keep_if p a [] = refl
contains-keep_if p a (x ∷ xs) = ground (arith, contains-keep_if p a xs)

contains_of_none : (a : ℕ) (xs : List ℕ) → is_empty xs ≡ true → contains a xs ≡ false
contains_of_none a [] h = refl
contains_of_none a (x ∷ xs) h = absurd (ground (arith, h))

contains-left_out :
    (whole from : List ℕ) (l : ℕ)
    → contains l (keep_if (λ l. not (contains l from)) whole)
      ≡ (contains l whole && not (contains l from))
contains-left_out whole from l = contains-keep_if (λ l. not (contains l from)) l whole

default_alone :
    (d : ℕ) (xs : List ℕ) → text_eq (sort_distinct xs) (d ∷ []) ≡ true → All (λ l. l ≡ d) xs
default_alone d xs h = All-of_contains xs λ a k. ground (
  arith,
  k,
  contains-sort_distinct a xs,
  ap (contains a) (text_eq→eq (sort_distinct xs) (d ∷ []) h),
)

alone_default :
    (d x : ℕ) (xs : List ℕ) → All (λ l. l ≡ d) (x ∷ xs) → sort_distinct (x ∷ xs) ≡ d ∷ []
alone_default d x [] h = ground (arith, h.0)
alone_default d x (y ∷ xs) h = ground (arith, h.0, alone_default d y xs h.1)

chose_nothing-Unchosen :
    (ls : Labels) (requested : List ℕ) → chose_nothing ls requested ≡ true → Unchosen ls requested
chose_nothing-Unchosen ls [] h = inl refl
chose_nothing-Unchosen ls (x ∷ xs) h = elim (Option-cases ls.default) [
  | inl e ↦ absurd (ground (arith, h, e))
  | inr (d, e) ↦ inr (d, e, default_alone d (x ∷ xs) (ground (arith, h, e)))
]

Unchosen-chose_nothing :
    (ls : Labels) (requested : List ℕ) → Unchosen ls requested → chose_nothing ls requested ≡ true
Unchosen-chose_nothing ls [] u = refl
Unchosen-chose_nothing ls (x ∷ xs) (inl e) = absurd (ground (arith, e))
Unchosen-chose_nothing ls (x ∷ xs) (inr (d, e, h)) = ground (arith, e, alone_default d x xs h)

contains_all_of :
    (a : ℕ) (whole from : List ℕ)
    → is_empty (keep_if (λ l. not (contains l from)) whole) ≡ true
    → contains a whole ≡ true
    → contains a from ≡ true
contains_all_of a whole from h k = ground (
  arith,
  k,
  contains-keep_if (λ l. not (contains l from)) a whole,
  contains_of_none a (keep_if (λ l. not (contains l from)) whole) h,
)

All-contained :
    (whole from : List ℕ)
    → is_empty (keep_if (λ l. not (contains l from)) whole) ≡ true
    → All (λ l. contains l from ≡ true) whole
All-contained whole from h = All-of_contains whole (λ a k. contains_all_of a whole from h k)

All-MayChoose :
    (ls : Labels) (reach requested : List ℕ)
    → is_empty (keep_if (λ l. not (contains l ls.in_tenant)) requested) ≡ true
    → is_empty (keep_if (λ l. not (contains l reach)) requested) ≡ true
    → All (MayChoose ls reach requested) (sort_distinct requested)
All-MayChoose ls reach requested u b = All-of_contains (sort_distinct requested) λ a h.
    let asked : contains a requested ≡ true = sym (contains-sort_distinct a requested) ∙ h in
    (
      asked,
      contains_all_of a requested ls.in_tenant u asked,
      contains_all_of a requested reach b asked,
    )

pub sort_distinct_full : (xs : List ℕ) → is_empty xs ≡ false → is_empty (sort_distinct xs) ≡ false
sort_distinct_full [] h = absurd (ground (arith, h))
sort_distinct_full (x ∷ xs) h =
    full x (sort_distinct (x ∷ xs)) (ground (arith, contains-sort_distinct x (x ∷ xs)))
  where
    full : (a : ℕ) (ys : List ℕ) → contains a ys ≡ true → is_empty ys ≡ false
    full a [] k = absurd (ground (arith, k))
    full a (y ∷ ys) k = refl

-- Where nobody chose a label, or none but the tenant's default, an upload waits in quarantine alone.
-- Any other choice is kept whole, each label one that the tenant has and the caller reaches; or it is
-- refused, and the refusal names exactly the labels that the tenant does not have or, where it has
-- them all, exactly those that the caller does not reach, at least one. No upload is without a label.
pub resolve_labels-IsResolved :
    (ls : Labels) (reach requested : List ℕ)
    → IsResolved ls reach requested (resolve_labels ls reach requested)
resolve_labels-IsResolved ls reach requested =
    let unknown = keep_if (λ l. not (contains l ls.in_tenant)) requested in
    let beyond = keep_if (λ l. not (contains l reach)) requested in
    elim (Bool-cases (chose_nothing ls requested)) [
      | inl e ↦ simp e (refl, inl (chose_nothing-Unchosen ls requested e, refl))
      | inr e ↦
          let chosen : ¬ Unchosen ls requested =
            λ u. ground (arith, e, Unchosen-chose_nothing ls requested u) in
          elim (Bool-cases (is_empty unknown)) [
            | inr u ↦ simp (e, u) (chosen, (refl, contains-left_out requested ls.in_tenant))
            | inl u ↦
                let in_tenant = All-contained requested ls.in_tenant u in
                elim (Bool-cases (is_empty beyond)) [
                  | inr b ↦
                      simp (e, u, b) (chosen, in_tenant, (refl, contains-left_out requested reach))
                  | inl b ↦
                      simp (e, u, b)
                        (
                          sort_distinct_full requested (ground (arith, e)),
                          inr (chosen, refl, All-MayChoose ls reach requested u b),
                        )
                ]
          ]
    ]
