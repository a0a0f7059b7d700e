-- ===== src/Ingestion/Pipeline/Relabelling.antt =====
-- Which labels automatic filing leaves a document with.
use zenith_enterprise.Common.{
  ℕ, ◌≡◌, ◌≢◌, ◌⊎◌, inl, inr, refl, true, false, Option, none, some, List, [], ◌∷◌, ◌++◌, ◌==◌,
  contains, contains-append, All, All-append, arith, Bool-cases, ==→eq, ap,
}
use zenith_enterprise.Common.Text.{Text, is_empty}
use zenith_enterprise.Ingestion.Classification.{World, file}
use zenith_enterprise.Ingestion.Classification.Filed.{MayFile, file-IsModest}
use zenith_enterprise.Ingestion.Pipeline.{
  default_id, quarantine_id, is_only, add_labels, without_label,
}

All-add_labels :
    (P : ℕ → Type 0) (applied ls : List ℕ)
    → All P applied
    → All P ls
    → All P (add_labels applied ls)
All-add_labels P [] ls new old = old
All-add_labels P (a ∷ applied) ls new old = elim (Bool-cases (contains a ls)) [
  | inl e ↦ rw e (All-add_labels P applied ls new.1 old)
  | inr e ↦
      rw e
        (All-add_labels P applied (ls ++ a ∷ []) new.1 (All-append P ls (a ∷ []) old (new.0, tt)))
]

contains-add_labels :
    (a : ℕ) (applied ls : List ℕ) → contains a ls ≡ true → contains a (add_labels applied ls) ≡ true
contains-add_labels a [] ls h = h
contains-add_labels a (b ∷ applied) ls h =
    contains-add_labels a applied _ (ground (arith, h, contains-append a ls (b ∷ [])))

contains_first : (a : ℕ) (applied ls : List ℕ) → contains a (add_labels (a ∷ applied) ls) ≡ true
contains_first a applied ls =
    contains-add_labels a applied _ (ground (arith, contains-append a ls (a ∷ [])))

without_label-nonempty :
    (a q : ℕ) (ls : List ℕ) → a ≢ q → contains a ls ≡ true → is_empty (without_label q ls) ≡ false
without_label-nonempty a q [] d h = absurd (ground (arith, h))
without_label-nonempty a q (l ∷ ls) d h = ground (arith, h, d, without_label-nonempty a q ls)

All-without_label :
    (P Q : ℕ → Type 0) (q : ℕ) (ls : List ℕ)
    → ((l : ℕ) → l ≢ q → P l → Q l)
    → All P ls
    → All Q (without_label q ls)
All-without_label P Q q [] step h = tt
All-without_label P Q q (l ∷ ls) step h = elim (Bool-cases (l == q)) [
  | inl e ↦ rw e (All-without_label P Q q ls step h.1)
  | inr e ↦ rw e (step l (λ k. ground (arith, e, k)) h.0, All-without_label P Q q ls step h.1)
]

-- A label that filing may put on a document somebody uploaded.
abbrev pub MayApply : World → Option ℕ → ℕ → Type 0
MayApply w uploader l =
    ((user : ℕ) × (uploader ≡ some user) × MayFile w user l) ⊎ (default_id w ≡ some l)

-- What the labels of a document can have become.
abbrev pub Relabelled : World → Option ℕ → List ℕ → List ℕ → Type 0
Relabelled w uploader before after =
    (after ≡ before)
    ⊎ ((q : ℕ) × (quarantine_id w ≡ some q)
        × (before ≡ q ∷ [])
        × (is_empty after ≡ false)
        × All (λ l. (l ≢ q) × MayApply w uploader l) after)

pub swapped-Relabelled :
    (w : World) (uploader : Option ℕ) (q : ℕ) (applied : List ℕ)
    → quarantine_id w ≡ some q
    → is_empty applied ≡ false
    → All (λ l. (l ≢ q) × MayApply w uploader l) applied
    → Relabelled w uploader (q ∷ []) (without_label q (add_labels applied (q ∷ [])))
swapped-Relabelled w uploader q [] quarantine full h = absurd (ground (arith, full))
swapped-Relabelled w uploader q (a ∷ applied) quarantine full h = inr (
  q,
  quarantine,
  refl,
  without_label-nonempty a q (add_labels (a ∷ applied) (q ∷ [])) h.0.0
      (contains_first a applied (q ∷ [])),
  All-without_label (λ l. (l ≡ q) ⊎ MayApply w uploader l) (λ l. (l ≢ q) × MayApply w uploader l) q
      (add_labels (a ∷ applied) (q ∷ []))
      (λ l d k. elim k [ inl e ↦ absurd (d e) | inr m ↦ (d, m) ])
      (All-add_labels _ (a ∷ applied) (q ∷ []) (weaken (a ∷ applied) h) (inl refl, tt)),
)
  where
    weaken :
        (ls : List ℕ)
        → All (λ l. (l ≢ q) × MayApply w uploader l) ls
        → All (λ l. (l ≡ q) ⊎ MayApply w uploader l) ls
    weaken [] k = tt
    weaken (l ∷ ls) k = (inr k.0.1, weaken ls k.1)

file-MayApply :
    (w : World) (uploader : Option ℕ) (excerpt : Text)
    → All (MayApply w uploader) (file w uploader excerpt).labels
unfolding file
file-MayApply w none excerpt = tt
file-MayApply w (some user) excerpt = lift _ (file-IsModest w user excerpt).within
  where
    lift : (ls : List ℕ) → All (MayFile w user) ls → All (MayApply w (some user)) ls
    lift [] h = tt
    lift (l ∷ ls) h = (inl (user, refl, h.0), lift ls h.1)

pub named-MayApply :
    (w : World) (uploader : Option ℕ) (excerpt : Text) (q : ℕ)
    → All (λ l. (l ≢ q) × MayApply w uploader l) (without_label q (file w uploader excerpt).labels)
named-MayApply w uploader excerpt q =
    All-without_label (MayApply w uploader) _ q (file w uploader excerpt).labels (λ l d k. (d, k))
      (file-MayApply w uploader excerpt)

pub is_only-eq : (q : ℕ) (ls : List ℕ) → is_only q ls ≡ true → ls ≡ q ∷ []
is_only-eq q [] h = absurd (ground (arith, h))
is_only-eq q (l ∷ []) h = ap (λ n. n ∷ []) (==→eq l q h)
is_only-eq q (l ∷ m ∷ ls) h = absurd (ground (arith, h))
