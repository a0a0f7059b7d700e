-- ===== src/Ingestion/Pipeline/Held.antt =====
-- The document of a store, followed through the pipeline's writes and through its filing.
use zenith_enterprise.Common.{
  ℕ, ◌≡◌, ◌≢◌, inl, inr, refl, sym, ◌∙◌, ap, subst, true, Option, none, some, List, [], ◌∷◌, All,
  Bool-cases,
}
use zenith_enterprise.Common.Text.{Text}
use zenith_enterprise.Ingestion.Classification as C
use zenith_enterprise.Ingestion.Classification.{World, Outcome, file}
use zenith_enterprise.Ingestion.Chunker.{Chunk}
use zenith_enterprise.Ingestion.Pipeline.Rows.{
  Document, Store, Page, Row, ready, updated, on_document, note, visible,
}
use zenith_enterprise.Ingestion.Pipeline.Notes.{no_default, not_filed, filing_failed}
use zenith_enterprise.Ingestion.Pipeline.Relabelling.{
  Relabelled, MayApply, swapped-Relabelled, named-MayApply, is_only-eq,
}
use zenith_enterprise.Ingestion.Pipeline.{
  Services, default_id, quarantine_id, is_only, add_labels, without_label, Filed, apply_outcome,
  named_or_default, release_into, file_row, settled, left_alone, file_raised, swapped, swap_labels,
  file_document, finish, excerpt_of, note_some,
}

module _ {V : Type 0} where
  -- The document of a store, with what holds of it, beside the stored pages and rows.
  pub record At (pages : List Page) (rows : List (Row V)) (P : Document → Type 0) (s : Store V)
      : Type 0 where
    pub document : Document
    pub there : s.document ≡ some document
    pub pages_are : s.pages ≡ pages
    pub rows_are : s.rows ≡ rows
    pub holds : P document

  module _ (context : List ℕ) {pages : List Page} {rows : List (Row V)}
      (f : Document → Document) where
    pub on_document_seen :
        {P Q : Document → Type 0} {s : Store V}
        → ((d : Document) → P d → visible context d ≡ true)
        → ((d : Document) → P d → Q (f d))
        → At pages rows P s
        → At pages rows Q (on_document context f s)
    on_document_seen seen step a = record {
      document = f a.document;
      there = rw (a.there, seen a.document a.holds) refl;
      pages_are = a.pages_are;
      rows_are = a.rows_are;
      holds = step a.document a.holds;
    }

    pub on_document_any :
        {P : Document → Type 0} {s : Store V}
        → ((d : Document) → P d → P (f d))
        → At pages rows P s
        → At pages rows P (on_document context f s)
    on_document_any step a = elim (Bool-cases (visible context a.document)) [
      | inl e ↦ record {
        document = f a.document;
        there = rw (a.there, e) refl;
        pages_are = a.pages_are;
        rows_are = a.rows_are;
        holds = step a.document a.holds;
      }
      | inr e ↦ record {
        document = a.document;
        there = rw (a.there, e) refl;
        pages_are = a.pages_are;
        rows_are = a.rows_are;
        holds = a.holds;
      }
    ]

abbrev pub IsSame : Document → Document → Type 0
IsSame d₀ d = (d.label_ids ≡ d₀.label_ids) × (d.uploaded_by ≡ d₀.uploaded_by)

abbrev pub IsFiled : World → Document → Document → Type 0
IsFiled w d₀ d = (d.status ≡ ready) × Relabelled w d₀.uploaded_by d₀.label_ids d.label_ids

pub seen_same :
    (context : List ℕ) (d₀ d : Document)
    → visible context d₀ ≡ true
    → IsSame d₀ d
    → visible context d ≡ true
seen_same context d₀ d h (labels, uploader) = rw labels h

-- The two reserved labels of a tenant are different ones.
abbrev pub AreApart : World → Type 0
AreApart w = (q : ℕ) → quarantine_id w ≡ some q → default_id w ≢ some q

-- What `_file` may come to.
abbrev pub IsWell : {V : Type 0} → World → List Page → List (Row V) → Document → Filed V → Type 0
IsWell w pages rows d₀ (settled s) = At pages rows (IsFiled w d₀) s
IsWell w pages rows d₀ (left_alone s) = At pages rows (IsSame d₀) s
IsWell w pages rows d₀ (file_raised s) = At pages rows (IsFiled w d₀) s

module _ {V : Type 0} (sv : Services V) (context : List ℕ) {pages : List Page} {rows : List (Row V)}
    (d₀ : Document) (sees : visible context d₀ ≡ true) where
  noted :
      (s : Store V) (detail : Text)
      → At pages rows (IsSame d₀) s
      → At pages rows (IsSame d₀) (note context detail s)
  noted s detail a = on_document_any context _ (λ d h. h) a

  pub finish-IsFiled :
      (x : Filed V)
      → IsWell sv.classifier pages rows d₀ x
      → At pages rows (IsFiled sv.classifier d₀) (finish sv context x)
  finish-IsFiled (settled s) a = a
  finish-IsFiled (left_alone s) a =
      on_document_seen context _ (λ d. seen_same context d₀ d sees) (λ d h. (refl, inl h.0)) a
  finish-IsFiled (file_raised s) a =
      on_document_any context _ (λ d h. (refl, h.1)) (on_document_any context _ (λ d h. h) a)

  swap_labels-IsWell :
      (q : ℕ) (applied : List ℕ) (s : Store V)
      → Relabelled sv.classifier d₀.uploaded_by d₀.label_ids
          (without_label q (add_labels applied d₀.label_ids))
      → At pages rows (IsSame d₀) s
      → IsWell sv.classifier pages rows d₀ (swap_labels sv context q applied s)
  swap_labels-IsWell q applied s h a = elim (Bool-cases sv.record_raises) [
    | inl e ↦ simp e swapped_at
    | inr e ↦ simp e (record {
      document = swapped_at.document;
      there = swapped_at.there;
      pages_are = swapped_at.pages_are;
      rows_are = swapped_at.rows_are;
      holds = swapped_at.holds;
    })
  ]
    where
      swapped_at :
          At pages rows
            (IsFiled sv.classifier d₀)
            (record s { document = updated (swapped q applied) context s.document })
      swapped_at =
          on_document_seen context (swapped q applied) (λ d. seen_same context d₀ d sees)
            (λ d k. (refl, rw k.0 h)) a

  note_some_same :
      (detail : Option Text) (s : Store V)
      → At pages rows (IsSame d₀) s
      → At pages rows (IsSame d₀) (note_some sv context detail s)
  note_some_same none s a = a
  note_some_same (some detail) s a = noted s detail a

  release_into-IsWell :
      (home : Option ℕ) (q : ℕ) (outcome : Outcome) (s : Store V)
      → default_id sv.classifier ≡ home
      → quarantine_id sv.classifier ≡ some q
      → home ≢ some q
      → d₀.label_ids ≡ q ∷ []
      → At pages rows (IsSame d₀) s
      → IsWell sv.classifier pages rows d₀ (release_into sv context home q outcome s)
  release_into-IsWell none q outcome s e quarantine apart only a = noted s no_default a
  release_into-IsWell (some home) q outcome s e quarantine apart only a =
      swap_labels-IsWell q (home ∷ []) _
        (rw only (
          swapped-Relabelled sv.classifier d₀.uploaded_by q (home ∷ []) quarantine refl
            (((λ k. apart (ap some k)), inr e), tt)))
        (note_some_same (not_filed outcome) s a)

  named_or_default-IsWell :
      (q : ℕ) (applied : List ℕ) (outcome : Outcome) (s : Store V)
      → quarantine_id sv.classifier ≡ some q
      → default_id sv.classifier ≢ some q
      → d₀.label_ids ≡ q ∷ []
      → All (λ l. (l ≢ q) × MayApply sv.classifier d₀.uploaded_by l) applied
      → At pages rows (IsSame d₀) s
      → IsWell sv.classifier pages rows d₀ (named_or_default sv context q applied outcome s)
  named_or_default-IsWell q [] outcome s quarantine apart only h a =
      release_into-IsWell (default_id sv.classifier) q outcome s refl quarantine apart only a
  named_or_default-IsWell q (l ∷ ls) outcome s quarantine apart only h a =
      swap_labels-IsWell q (l ∷ ls) s
        (rw only (swapped-Relabelled sv.classifier d₀.uploaded_by q (l ∷ ls) quarantine refl h)) a

  apply_outcome-IsWell :
      (q : ℕ) (applied : List ℕ) (detail : Option Text) (outcome : Outcome) (s : Store V)
      → quarantine_id sv.classifier ≡ some q
      → default_id sv.classifier ≢ some q
      → d₀.label_ids ≡ q ∷ []
      → All (λ l. (l ≢ q) × MayApply sv.classifier d₀.uploaded_by l) applied
      → At pages rows (IsSame d₀) s
      → IsWell sv.classifier pages rows d₀ (apply_outcome sv context q applied detail outcome s)
  apply_outcome-IsWell q applied detail C.failed s quarantine apart only h a =
      noted s (filing_failed detail) a
  apply_outcome-IsWell q applied detail C.chose s quarantine apart only h a =
      named_or_default-IsWell q applied C.chose s quarantine apart only h a
  apply_outcome-IsWell q applied detail C.declined s quarantine apart only h a =
      named_or_default-IsWell q applied C.declined s quarantine apart only h a
  apply_outcome-IsWell q applied detail C.unavailable s quarantine apart only h a =
      named_or_default-IsWell q applied C.unavailable s quarantine apart only h a
  apply_outcome-IsWell q applied detail C.no_folders s quarantine apart only h a =
      named_or_default-IsWell q applied C.no_folders s quarantine apart only h a
  apply_outcome-IsWell q applied detail C.too_many_folders s quarantine apart only h a =
      named_or_default-IsWell q applied C.too_many_folders s quarantine apart only h a

  file_row-IsWell :
      (chunks : List Chunk) (d : Document) (q : Option ℕ) (s : Store V)
      → quarantine_id sv.classifier ≡ q
      → AreApart sv.classifier
      → IsSame d₀ d
      → At pages rows (IsSame d₀) s
      → IsWell sv.classifier pages rows d₀ (file_row sv context chunks (some d) q s)
  file_row-IsWell chunks d none s e apart same a = a
  file_row-IsWell chunks d (some q) s e apart same a = elim (Bool-cases (is_only q d.label_ids)) [
    | inl only ↦ simp only (
        apply_outcome-IsWell q _ _ _ s e (apart q e) (sym same.0 ∙ is_only-eq q d.label_ids only)
          (subst
            (λ u.
              All (λ l. (l ≢ q) × MayApply sv.classifier u l)
                (without_label q (file sv.classifier d.uploaded_by (excerpt_of chunks)).labels))
            same.1 (named-MayApply sv.classifier d.uploaded_by (excerpt_of chunks) q))
          a)
    | inr mixed ↦ simp mixed a
  ]

  -- `_file` of a document that is visible, whatever the model answers.
  pub file_document-IsWell :
      (chunks : List Chunk) (s : Store V)
      → AreApart sv.classifier
      → At pages rows (IsSame d₀) s
      → IsWell sv.classifier pages rows d₀ (file_document sv context chunks s)
  file_document-IsWell chunks s apart a =
      simp (a.there, seen_same context d₀ a.document sees a.holds)
        (file_row-IsWell chunks a.document (quarantine_id sv.classifier) s refl apart a.holds a)
