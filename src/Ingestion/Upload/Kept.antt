-- ===== src/Ingestion/Upload/Kept.antt =====
-- No document is without a label, and quarantine is exclusive.
use zenith_enterprise.Common.{
  ℕ, ◌≡◌, inl, inr, refl, sym, ap, subst, ◌∙◌, Bool, true, false, Option, none, some, List, [], ◌∷◌,
  ◌++◌, ◌==◌, ltb, leb, not, length, keep_if, contains, sort_distinct, insert_distinct,
  contains-sort_distinct, IsAscending, insert_distinct-IsAscending, All, All-append, arith,
  Bool-cases,
}
use zenith_enterprise.Common.Text.{Text, is_empty}
use zenith_enterprise.Ingestion.Upload.{
  Labels, Resolved, wanted, unknown_labels, not_held, resolve_labels, Document, Library, set_labels,
  less_quarantine, merged, merge, fresh_document, insert_beside, merge_or_insert, record_as, upload,
  enqueue, Uploaded, upload_of, refused_labels, limit_exceeded, conflict,
}
use zenith_enterprise.Ingestion.Upload.Wanted.{
  IsResolved, resolve_labels-IsResolved, contains-keep_if, sort_distinct_full,
}

-- Labels of which there are some, and of which quarantine is the only one if it is one.
pub record AreProper (q : ℕ) (labels : List ℕ) : Type 0 where
  pub full : is_empty labels ≡ false
  pub exclusive : contains q labels ≡ true → labels ≡ q ∷ []

abbrev IsRising : List ℕ → Type 0
IsRising [] = Unit {0}
IsRising (x ∷ xs) = IsAscending x xs

insert_distinct-IsRising : (a : ℕ) (xs : List ℕ) → IsRising xs → IsRising (insert_distinct a xs)
insert_distinct-IsRising a [] h = tt
insert_distinct-IsRising a (x ∷ xs) h = ground (arith, h, insert_distinct-IsAscending x a xs)

sort_distinct-IsRising : (xs : List ℕ) → IsRising (sort_distinct xs)
sort_distinct-IsRising [] = tt
sort_distinct-IsRising (x ∷ xs) =
    insert_distinct-IsRising x (sort_distinct xs) (sort_distinct-IsRising xs)

others_stay :
    (q : ℕ) (xs : List ℕ)
    → IsRising xs
    → ltb 1 (length xs) ≡ true
    → is_empty (keep_if (λ l. not (l == q)) xs) ≡ false
others_stay q [] h k = absurd (ground (arith, k))
others_stay q (x ∷ []) h k = absurd (ground (arith, k))
others_stay q (x ∷ y ∷ xs) h k = ground (arith, h.0)

sole : (q : ℕ) (xs : List ℕ) → contains q xs ≡ true → ltb 1 (length xs) ≡ false → xs ≡ q ∷ []
sole q [] h k = absurd (ground (arith, h))
sole q (x ∷ []) h k = ground (arith, h)
sole q (x ∷ y ∷ xs) h k = absurd (ground (arith, k))

less_quarantine-AreProper :
    (q : ℕ) (union : List ℕ)
    → IsRising union
    → is_empty union ≡ false
    → AreProper q (less_quarantine (some q) union)
less_quarantine-AreProper q union rising full = elim (Bool-cases (contains q union)) [
  | inr e ↦ simp e (record { full = full; exclusive = λ h. absurd (ground (arith, e, h)) })
  | inl e ↦ elim (Bool-cases (ltb 1 (length union))) [
    | inl many ↦
        simp (e, many)
          (record {
            full = others_stay q union rising many;
            exclusive =
                λ h. absurd (ground (arith, h, contains-keep_if (λ l. not (l == q)) q union));
          })
    | inr few ↦ simp (e, few) (record { full = full; exclusive = λ h. sole q union e few })
  ]
]

is_empty-append_right : (xs ys : List ℕ) → is_empty ys ≡ false → is_empty (xs ++ ys) ≡ false
is_empty-append_right [] ys h = h
is_empty-append_right (x ∷ xs) ys h = refl

abbrev pub AreAllProper : ℕ → List Document → Type 0
AreAllProper q = All (λ d. AreProper q d.label_ids)

All-set_labels :
    (q id : ℕ) (labels : List ℕ) (ds : List Document)
    → AreProper q labels
    → AreAllProper q ds
    → AreAllProper q (set_labels id labels ds)
All-set_labels q id labels [] h k = tt
All-set_labels q id labels (d ∷ ds) h k = elim (Bool-cases (d.id == id)) [
  | inl e ↦ rw e (h, All-set_labels q id labels ds h k.1)
  | inr e ↦ rw e (k.0, All-set_labels q id labels ds h k.1)
]

module _ (ls : Labels) (reach : List ℕ) (user max_documents : ℕ) (sees : Document → Bool) (q : ℕ)
    (quarantine : ls.quarantine ≡ some q) where
  merge-AreAllProper :
      (existing : Document) (labels : List ℕ) (lib : Library)
      → is_empty labels ≡ false
      → AreAllProper q lib.documents
      → AreAllProper q (merge ls existing labels lib).0.documents
  merge-AreAllProper existing labels lib full k =
      let union = sort_distinct (existing.label_ids ++ labels) in
      All-set_labels q existing.id (merged ls existing.label_ids labels) lib.documents
        (subst (λ o. AreProper q (less_quarantine o union)) (sym quarantine)
          (less_quarantine-AreProper q union (sort_distinct-IsRising (existing.label_ids ++ labels))
            (sort_distinct_full _ (is_empty-append_right existing.label_ids labels full))))
        k

  insert_beside-AreAllProper :
      (o : Option Document) (id : ℕ) (sha256 : Text) (labels : List ℕ) (lib : Library)
      → AreProper q labels
      → AreAllProper q lib.documents
      → AreAllProper q
          (insert_beside ls reach user max_documents sees o id sha256 labels lib).0.documents
  insert_beside-AreAllProper (some hidden) id sha256 labels lib h k = k
  insert_beside-AreAllProper none id sha256 labels lib h k =
      All-append (λ d. AreProper q d.label_ids) lib.documents
        (fresh_document id sha256 labels user ∷ []) k (h, tt)

  merge_or_insert-AreAllProper :
      (o : Option Document) (id : ℕ) (sha256 : Text) (labels : List ℕ) (lib : Library)
      → AreProper q labels
      → AreAllProper q lib.documents
      → AreAllProper q
          (merge_or_insert ls reach user max_documents sees o id sha256 labels lib).0.documents
  merge_or_insert-AreAllProper (some existing) id sha256 labels lib h k =
      merge-AreAllProper existing labels lib h.full k
  merge_or_insert-AreAllProper none id sha256 labels lib h k =
      elim (Bool-cases (leb max_documents (length (keep_if sees lib.documents)))) [
        | inl e ↦ simp e k
        | inr e ↦ simp e (insert_beside-AreAllProper _ id sha256 labels lib h k)
      ]

  resolved-AreProper :
      (requested labels : List ℕ)
      → contains q requested ≡ false
      → IsResolved ls reach requested (wanted labels)
      → AreProper q labels
  resolved-AreProper requested labels apart (full, inl (chose, alone)) = record {
    full = full;
    exclusive = λ h. alone ∙ ap (λ n. n ∷ []) (rw quarantine refl);
  }
  resolved-AreProper requested labels apart (full, inr (chose, same, held)) = record {
    full = full;
    exclusive = λ h.
        absurd (ground (arith, apart, h, contains-sort_distinct q requested, ap (contains q) same));
  }

  record_as-AreAllProper :
      (r : Resolved) (id : ℕ) (sha256 : Text) (requested : List ℕ) (lib : Library)
      → contains q requested ≡ false
      → IsResolved ls reach requested r
      → AreAllProper q lib.documents
      → AreAllProper q (record_as ls reach user max_documents sees r id sha256 lib).0.documents
  record_as-AreAllProper (wanted labels) id sha256 requested lib apart h k =
      merge_or_insert-AreAllProper _ id sha256 labels lib
        (resolved-AreProper requested labels apart h) k
  record_as-AreAllProper (unknown_labels ks) id sha256 requested lib apart h k = k
  record_as-AreAllProper (not_held ks) id sha256 requested lib apart h k = k

documents-enqueue : (u : Uploaded) (lib : Library) → (enqueue u lib).documents ≡ lib.documents
documents-enqueue (upload_of id labels true) lib = refl
documents-enqueue (upload_of id labels false) lib = refl
documents-enqueue (refused_labels r) lib = refl
documents-enqueue limit_exceeded lib = refl
documents-enqueue conflict lib = refl

-- An upload that does not name the quarantine label leaves every document of the tenant with a label,
-- and none with the quarantine label beside another, where that was so before: whether the bytes are
-- new, are those of a document that the caller sees, whose labels then widen, or of one it does not.
pub upload-AreAllProper :
    (ls : Labels) (reach : List ℕ) (user max_documents : ℕ) (sees : Document → Bool) (q id : ℕ)
    (sha256 : Text) (requested : List ℕ) (lib : Library)
    → ls.quarantine ≡ some q
    → contains q requested ≡ false
    → AreAllProper q lib.documents
    → AreAllProper q (upload ls reach user max_documents sees id sha256 requested lib).0.documents
unfolding upload
upload-AreAllProper ls reach user max_documents sees q id sha256 requested lib quarantine apart k =
    let stored =
      record_as ls reach user max_documents sees (resolve_labels ls reach requested) id sha256
        lib in
    subst (AreAllProper q) (sym (documents-enqueue stored.1 stored.0)) (
      record_as-AreAllProper ls reach user max_documents sees q quarantine
        (resolve_labels ls reach requested) id sha256 requested lib apart
        (resolve_labels-IsResolved ls reach requested) k)
