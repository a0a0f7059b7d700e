-- ===== src/Ingestion/Pipeline/Runs.antt =====
-- How a run of the pipeline ends.
use zenith_enterprise.Common.{
  ℕ, suc, ◌≡◌, ◌⊎◌, inl, inr, refl, sym, ◌∙◌, ap, subst, Bool, true, false, Option, none, some,
  List, [], ◌∷◌, ltb, length, map, arith, Bool-cases, Option-cases,
}
use zenith_enterprise.Common.Text.{Text, is_empty}
use zenith_enterprise.Ingestion.Chunker.{Chunk, chunk_stream, target_characters}
use zenith_enterprise.Ingestion.Chunker.Boxes.{ParsedPage}
use zenith_enterprise.Ingestion.Pipeline.Rows.{
  Document, is_paginated, Store, Page, Row, Status, failed, parsing, chunking, embedding,
  on_document, set_status, mark_failed, get_visible, visible, zip_rows, store_rows, stored_page,
  as_classifying,
}
use zenith_enterprise.Ingestion.Pipeline.Notes.{missing_file}
use zenith_enterprise.Ingestion.Pipeline.Held.{
  At, on_document_seen, on_document_any, IsSame, IsFiled, seen_same, AreApart, finish-IsFiled,
  file_document-IsWell,
}
use zenith_enterprise.Ingestion.Pipeline.{
  Services, Routing, Result, failure, success, Ingested, returned, raised, refuse, after_vectors,
  after_chunks, after_parsing, within_limit, after_counting, ingest, settle, run, run_row,
  after_persisting, chunks_of_pages, route, omission_noted, split_text, unrouted,
}

module _ {V : Type 0} where
  chunks-zip_rows :
      (cs : List Chunk) (vs : List V) (rows : List (Row V))
      → zip_rows cs vs ≡ some rows
      → (map (λ r. r.chunk) rows ≡ cs) × (map (λ r. r.embedding) rows ≡ vs)
  chunks-zip_rows [] [] rows h = (ground (arith, h), ground (arith, h))
  chunks-zip_rows [] (v ∷ vs) rows h = absurd (ground (arith, h))
  chunks-zip_rows (c ∷ cs) [] rows h = absurd (ground (arith, h))
  chunks-zip_rows (c ∷ cs) (v ∷ vs) rows h = elim (Option-cases (zip_rows cs vs)) [
    | inl e ↦ absurd (ground (arith, e, h))
    | inr (rest, e) ↦ (
      ground (arith, e, h, chunks-zip_rows cs vs rest e),
      ground (arith, e, h, chunks-zip_rows cs vs rest e),
    )
  ]

  -- What is to be searched of the pages of a file.
  abbrev pub searchable : Services V → Bool → List ParsedPage → List Chunk
  searchable sv true pages = chunks_of_pages (route sv.ocr_implemented sv.ocr_capable pages).pages
  searchable sv false [] = []
  searchable sv false (page ∷ pages) = chunk_stream page.text target_characters

  -- A run that ends in `failed`: what was stored before it is still there, and so are its labels.
  pub record HasFailed (s₀ : Store V) (d₀ : Document) (s : Store V) (r : Result) : Type 0 where
    pub answer : (r.status ≡ failure) × (r.chunks ≡ 0)
    pub kept : At s₀.pages s₀.rows (λ d. (d.status ≡ failed) × IsSame d₀ d) s

  -- A run that ends in `ready`: the rows are those of this run alone and there is one, each with the
  -- vector of its text.
  pub record HasSucceeded (sv : Services V) (d₀ : Document) (s : Store V) (r : Result)
      : Type 0 where
    pub answer : (r.status ≡ success) × (r.chunks ≡ length s.rows)
    pub full : is_empty s.rows ≡ false
    pub chunks :
        (pages : List ParsedPage) × (sv.parse ≡ some pages)
        × (map (λ row. row.chunk) s.rows ≡ searchable sv (is_paginated d₀.media_type) pages)
    pub vectors :
        sv.embed (map (λ row. row.chunk.text) s.rows) ≡ some (map (λ row. row.embedding) s.rows)
    pub filed : At s.pages s.rows (IsFiled sv.classifier d₀) s

  abbrev pub HasEnded : Services V → Store V → Document → Store V → Result → Type 0
  HasEnded sv s₀ d₀ s r = HasFailed s₀ d₀ s r ⊎ HasSucceeded sv d₀ s r

module _ {V : Type 0} (sv : Services V) (context : List ℕ) (s₀ : Store V) (d₀ : Document)
    (sees : visible context d₀ ≡ true) (apart : AreApart sv.classifier) where
  abbrev Follows : Store V → Type 0
  Follows s = At s₀.pages s₀.rows (IsSame d₀) s

  abbrev IsFine : Ingested V → Type 0
  IsFine (returned s r) = HasEnded sv s₀ d₀ s r
  IsFine (raised s) = Follows s

  set_status-Follows :
      (status : Status) (s : Store V) → Follows s → Follows (set_status context status s)
  set_status-Follows status s a = on_document_any context _ (λ d h. h) a

  mark_failed_at :
      (detail : Text) (s : Store V)
      → Follows s
      → At s₀.pages s₀.rows (λ d. (d.status ≡ failed) × IsSame d₀ d) (mark_failed context detail s)
  mark_failed_at detail s a =
      on_document_seen context _ (λ d. seen_same context d₀ d sees) (λ d h. (refl, h)) a

  refuse-IsFine :
      (detail : Text) (pages : ℕ) (s : Store V)
      → Follows s
      → IsFine (refuse sv context detail pages s)
  refuse-IsFine detail pages s a =
      inl (record { answer = (refl, refl); kept = mark_failed_at detail s a })

  omission_noted_at :
      {stored : List Page} {rows : List (Row V)} (r : Routing) (total : ℕ) (s : Store V)
      → At stored rows (IsSame d₀) s
      → At stored rows (IsSame d₀) (omission_noted sv context r total s)
  omission_noted_at r total s a = elim (Bool-cases (is_empty r.omitted)) [
    | inl e ↦ simp e a
    | inr e ↦ simp e (on_document_any context _ (λ d h. h) a)
  ]

  stored_at :
      (pages : List ParsedPage) (rows : List (Row V)) (s : Store V)
      → Follows s
      → At (map stored_page pages) rows (IsSame d₀) (
          on_document context
            (as_classifying pages)
            (record s { pages = map stored_page pages; rows = rows; space_registered = true }))
  stored_at pages rows s a =
      on_document_seen context (as_classifying pages) (λ d. seen_same context d₀ d sees) (λ d h. h)
        (record {
          document = a.document;
          there = a.there;
          pages_are = refl;
          rows_are = refl;
          holds = a.holds;
        })

  -- The rows of this run are stored, and the end is that of the filing.
  ended :
      (pages : List ParsedPage) (chunks : List Chunk) (vectors : List V) (stored : List Page)
      (rows : List (Row V)) (total : ℕ) (s : Store V)
      → sv.parse ≡ some pages
      → chunks ≡ searchable sv (is_paginated d₀.media_type) pages
      → is_empty chunks ≡ false
      → sv.embed (map (λ c. c.text) chunks) ≡ some vectors
      → zip_rows chunks vectors ≡ some rows
      → At stored rows (IsFiled sv.classifier d₀) s
      → HasSucceeded sv d₀ s
          (record { status = success; pages = total; chunks = length chunks; detail = none })
  ended pages chunks vectors stored rows total s parsed are full embedded zipped a =
      let split = chunks-zip_rows chunks vectors rows zipped in
      record {
        answer = (refl, rw (a.rows_are) (ground (arith, length-map_of rows, ap length split.0)));
        full = rw (a.rows_are) (nonempty_of rows chunks split.0 full);
        chunks = (pages, parsed, rw (a.rows_are) (split.0 ∙ are));
        vectors = rw (a.rows_are, split.1, texts_of rows, split.0) embedded;
        filed = record {
          document = a.document;
          there = a.there;
          pages_are = refl;
          rows_are = refl;
          holds = a.holds;
        };
      }
    where
      length-map_of : (rows : List (Row V)) → length (map (λ r. r.chunk) rows) ≡ length rows
      length-map_of [] = refl
      length-map_of (r ∷ rows) = ap suc (length-map_of rows)

      nonempty_of :
          (rows : List (Row V)) (cs : List Chunk)
          → map (λ r. r.chunk) rows ≡ cs
          → is_empty cs ≡ false
          → is_empty rows ≡ false
      nonempty_of [] cs h k = absurd (ground (arith, h, k))
      nonempty_of (r ∷ rows) cs h k = refl

      texts_of :
          (rows : List (Row V))
          → map (λ row. row.chunk.text) rows ≡ map (λ c. c.text) (map (λ row. row.chunk) rows)
      texts_of [] = refl
      texts_of (r ∷ rows) = ap (λ ts. r.chunk.text ∷ ts) (texts_of rows)

  stored-IsFine :
      (r : Routing) (pages : List ParsedPage) (chunks : List Chunk) (total : ℕ) (vectors : List V)
      (rows : Option (List (Row V))) (s : Store V)
      → sv.parse ≡ some pages
      → chunks ≡ searchable sv (is_paginated d₀.media_type) pages
      → is_empty chunks ≡ false
      → sv.embed (map (λ c. c.text) chunks) ≡ some vectors
      → zip_rows chunks vectors ≡ rows
      → Follows s
      → IsFine (after_persisting sv context r total chunks (store_rows context r.pages rows s) s)
  stored-IsFine r pages chunks total vectors none s parsed are full embedded zipped a = a
  stored-IsFine r pages chunks total vectors (some rows) s parsed are full embedded zipped a = inr (
      ended pages chunks vectors (map stored_page r.pages) rows total _ parsed are full embedded
        zipped
        (finish-IsFiled sv context d₀ sees _ (
          file_document-IsWell sv context d₀ sees chunks _ apart
            (omission_noted_at r total _ (stored_at r.pages rows s a)))))

  after_vectors-IsFine :
      (r : Routing) (pages : List ParsedPage) (chunks : List Chunk) (total : ℕ)
      (vectors : Option (List V)) (s : Store V)
      → sv.parse ≡ some pages
      → chunks ≡ searchable sv (is_paginated d₀.media_type) pages
      → is_empty chunks ≡ false
      → sv.embed (map (λ c. c.text) chunks) ≡ vectors
      → Follows s
      → IsFine (after_vectors sv context r total chunks vectors s)
  after_vectors-IsFine r pages chunks total none s parsed are full embedded a = a
  after_vectors-IsFine r pages chunks total (some vectors) s parsed are full embedded a =
      stored-IsFine r pages chunks total vectors _ s parsed are full embedded refl a

  after_chunks-IsFine :
      (r : Routing) (pages : List ParsedPage) (chunks : List Chunk) (total : ℕ) (s : Store V)
      → sv.parse ≡ some pages
      → chunks ≡ searchable sv (is_paginated d₀.media_type) pages
      → Follows s
      → IsFine (after_chunks sv context r total chunks s)
  after_chunks-IsFine r pages chunks total s parsed are a = elim (Bool-cases (is_empty chunks)) [
    | inl e ↦ simp e (refuse-IsFine _ total s a)
    | inr e ↦ simp e (
        after_vectors-IsFine r pages chunks total _ _ parsed are e refl
          (set_status-Follows embedding s a))
  ]

  split_text-IsFine :
      (pages : List ParsedPage) (s : Store V)
      → sv.parse ≡ some pages
      → is_paginated d₀.media_type ≡ false
      → Follows s
      → IsFine (split_text sv context pages s)
  split_text-IsFine [] s parsed flat a = a
  split_text-IsFine (page ∷ pages) s parsed flat a =
      after_chunks-IsFine (unrouted (page ∷ pages)) (page ∷ pages) _ _ s parsed (rw flat refl) a

  after_parsing-IsFine :
      (paginated : Bool) (pages : Option (List ParsedPage)) (s : Store V)
      → sv.parse ≡ pages
      → is_paginated d₀.media_type ≡ paginated
      → Follows s
      → IsFine (after_parsing sv context paginated pages s)
  after_parsing-IsFine paginated none s parsed kind a = a
  after_parsing-IsFine true (some pages) s parsed kind a =
      after_chunks-IsFine (route sv.ocr_implemented sv.ocr_capable pages) pages _ _ _ parsed
        (rw kind refl) (set_status-Follows chunking s a)
  after_parsing-IsFine false (some pages) s parsed kind a =
      split_text-IsFine pages _ parsed kind (set_status-Follows chunking s a)

  within_limit-IsFine :
      (paginated : Bool) (pages : ℕ) (s : Store V)
      → is_paginated d₀.media_type ≡ paginated
      → Follows s
      → IsFine (within_limit sv context paginated pages s)
  within_limit-IsFine paginated pages s kind a = elim (Bool-cases (ltb sv.max_pages pages)) [
    | inl e ↦ simp e (refuse-IsFine _ pages s a)
    | inr e ↦
        simp e
          (after_parsing-IsFine paginated sv.parse _ refl kind (set_status-Follows parsing s a))
  ]

  after_counting-IsFine :
      (paginated : Bool) (counted : Option ℕ) (s : Store V)
      → is_paginated d₀.media_type ≡ paginated
      → Follows s
      → IsFine (after_counting sv context paginated counted s)
  after_counting-IsFine false counted s kind a = within_limit-IsFine false 0 s kind a
  after_counting-IsFine true none s kind a = a
  after_counting-IsFine true (some pages) s kind a = within_limit-IsFine true pages s kind a

  ingest-IsFine : (s : Store V) → Follows s → IsFine (ingest sv context d₀.media_type s)
  unfolding ingest
  ingest-IsFine s a = elim (Bool-cases sv.file_exists) [
    | inl e ↦ simp e (after_counting-IsFine (is_paginated d₀.media_type) sv.count_pages s refl a)
    | inr e ↦ simp e (refuse-IsFine missing_file 0 s a)
  ]

  settle_ends :
      (x : Ingested V)
      → IsFine x
      → HasEnded sv s₀ d₀ (settle sv context x).0 (settle sv context x).1
  settle_ends (returned s r) h = h
  settle_ends (raised s) h = inl (record { answer = (refl, refl); kept = mark_failed_at _ s h })

-- A run over a document that the context sees ends in one of two ways, whatever the services answer
-- and wherever they raise. Either it answers `failed` with no chunk, the document is `failed`, and the
-- stored pages and rows and the labels are those from before; or it answers `ready`, the document is
-- `ready`, the rows are exactly the chunks of the parsed pages, at least one, each with the vector of
-- its text, and the labels are unchanged or what filing may make of the quarantine label. The two
-- reserved labels are different ones.
pub run_ends :
    {V : Type 0} (sv : Services V) (context : List ℕ) (s : Store V) (d : Document)
    → s.document ≡ some d
    → visible context d ≡ true
    → AreApart sv.classifier
    → HasEnded sv s d (run sv context s).0 (run sv context s).1
unfolding run
run_ends sv context s d there sees apart =
    subst (λ o. HasEnded sv s d (run_row sv context o s).0 (run_row sv context o s).1)
      (sym (got s.document there))
      (settle_ends sv context s d sees apart (ingest sv context d.media_type s) (
        ingest-IsFine sv context s d sees apart s (record {
          document = d;
          there = there;
          pages_are = refl;
          rows_are = refl;
          holds = (refl, refl);
        })))
  where
    got : (o : Option Document) → o ≡ some d → get_visible context o ≡ some d
    got o e = rw (e, sees) refl

-- A run never publishes a document: one that carries a label carries one afterwards, whichever way the
-- run ends.
pub run_keeps_labelled :
    {V : Type 0} (sv : Services V) (context : List ℕ) (s : Store V) (d d' : Document)
    → s.document ≡ some d
    → visible context d ≡ true
    → AreApart sv.classifier
    → is_empty d.label_ids ≡ false
    → (run sv context s).0.document ≡ some d'
    → is_empty d'.label_ids ≡ false
run_keeps_labelled sv context s d d' there sees apart labelled after =
    elim (run_ends sv context s d there sees apart) [
      | inl f ↦ ground (arith, labelled, f.kept.there, after, f.kept.holds.1.0)
      | inr f ↦ elim f.filed.holds.1 [
        | inl same ↦ ground (arith, labelled, f.filed.there, after, same)
        | inr (q, _, _, full, _) ↦ ground (arith, f.filed.there, after, full)
      ]
    ]
