-- ===== src/Embeddings/Client/Batches.antt =====
-- What `plan_batches` makes of the texts.
use zenith_enterprise.Common.{
  ℕ, ◌+◌, ◌≤◌, ◌<◌, ◌≡◌, ◌⊎◌, inl, inr, refl, ap, true, false, List, [], ◌∷◌, ◌++◌, length,
  length-append, append_assoc, All, arith, Bool-cases, subst,
}
use zenith_enterprise.Common.Text.{Text, is_empty}
use zenith_enterprise.Embeddings.Client.{Profile, estimate_tokens, must_yield, fill, plan_batches}

abbrev pub concat {ℓ} : {A : Type ℓ} → List (List A) → List A
concat [] = []
concat (xs ∷ xss) = xs ++ concat xss

abbrev pub tokens_of : List Text → ℕ
tokens_of [] = 0
tokens_of (t ∷ ts) = estimate_tokens t + tokens_of ts

-- A request the server accepts: some texts, no more than it takes, and within the token budget
-- unless it is one text alone.
pub record IsLegal (p : Profile) (batch : List Text) : Type 0 where
  pub filled : is_empty batch ≡ false
  pub few : length batch ≤ p.max_client_batch_size
  pub within : (tokens_of batch ≤ p.max_batch_tokens) ⊎ (length batch ≡ 1)

tokens_of-append :
    (xs : List Text) (t : Text) → tokens_of (xs ++ t ∷ []) ≡ tokens_of xs + estimate_tokens t
tokens_of-append [] t = omega arith
tokens_of-append (x ∷ xs) t = omega (arith, tokens_of-append xs t)

length-snoc : (xs : List Text) (t : Text) → length (xs ++ t ∷ []) ≡ length xs + 1
length-snoc xs t = omega (arith, length-append xs (t ∷ []))

is_empty-snoc : (xs : List Text) (t : Text) → is_empty (xs ++ t ∷ []) ≡ false
is_empty-snoc [] t = refl
is_empty-snoc (x ∷ xs) t = refl

concat-fill :
    (p : Profile) (batch : List Text) (tokens : ℕ) (texts : List Text)
    → concat (fill p batch tokens texts) ≡ batch ++ texts
unfolding fill
concat-fill p [] tokens [] = refl
concat-fill p (b ∷ batch) tokens [] = refl
concat-fill p batch tokens (t ∷ texts) = elim (Bool-cases (must_yield p batch tokens t)) [
  | inl e ↦ rw e (ap (λ rest. batch ++ rest) (concat-fill p (t ∷ []) (estimate_tokens t) texts))
  | inr e ↦
      rw (e, concat-fill p (batch ++ t ∷ []) (tokens + estimate_tokens t) texts)
        (append_assoc batch (t ∷ []) texts)
]

extended-IsLegal :
    (p : Profile) (batch : List Text) (t : Text)
    → (batch ≡ []) ⊎ IsLegal p batch
    → 0 < p.max_client_batch_size
    → must_yield p batch (tokens_of batch) t ≡ false
    → IsLegal p (batch ++ t ∷ [])
extended-IsLegal p [] t l h e = record { filled = refl; few = omega arith; within = inr refl }
extended-IsLegal p (b ∷ batch) t l h e = record {
  filled = refl;
  few = ground (arith, length-snoc (b ∷ batch) t);
  within = inl (ground (arith, tokens_of-append (b ∷ batch) t));
}

yielded-IsLegal :
    (p : Profile) (batch : List Text) (tokens : ℕ) (t : Text)
    → (batch ≡ []) ⊎ IsLegal p batch
    → 0 < p.max_client_batch_size
    → must_yield p batch tokens t ≡ true
    → IsLegal p batch
yielded-IsLegal p [] tokens t l h e = absurd (ground arith)
yielded-IsLegal p (b ∷ batch) tokens t (inl none) h e = absurd (ground (arith, none))
yielded-IsLegal p (b ∷ batch) tokens t (inr legal) h e = legal

fill-IsLegal :
    (p : Profile) (batch : List Text) (tokens : ℕ) (texts : List Text)
    → tokens ≡ tokens_of batch
    → (batch ≡ []) ⊎ IsLegal p batch
    → 0 < p.max_client_batch_size
    → All (IsLegal p) (fill p batch tokens texts)
unfolding fill
fill-IsLegal p [] tokens [] c l h = tt
fill-IsLegal p (b ∷ batch) tokens [] c (inl none) h = absurd (ground (arith, none))
fill-IsLegal p (b ∷ batch) tokens [] c (inr legal) h = (legal, tt)
fill-IsLegal p batch tokens (t ∷ texts) c l h =
    let one : IsLegal p (t ∷ []) = record { filled = refl; few = omega arith; within = inr refl } in
    elim (Bool-cases (must_yield p batch tokens t)) [
      | inl e ↦ rw e (
        yielded-IsLegal p batch tokens t l h e,
        fill-IsLegal p (t ∷ []) (estimate_tokens t) texts (omega arith) (inr one) h,
      )
      | inr e ↦ rw e (
          fill-IsLegal p (batch ++ t ∷ []) (tokens + estimate_tokens t) texts
            (omega (arith, tokens_of-append batch t))
            (inr (extended-IsLegal p batch t l h (subst (λ n. must_yield p batch n t ≡ false) c e)))
            h)
    ]

-- The batches are the texts in their order, none lost and none twice, and the server accepts each.
pub plan_batches-IsLegal :
    (p : Profile) (texts : List Text)
    → 0 < p.max_client_batch_size
    → (concat (plan_batches p texts) ≡ texts) × All (IsLegal p) (plan_batches p texts)
plan_batches-IsLegal p texts h =
    (concat-fill p [] 0 texts, fill-IsLegal p [] 0 texts refl (inl refl) h)
