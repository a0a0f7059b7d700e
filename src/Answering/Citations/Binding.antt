-- ===== src/Answering/Citations/Binding.antt =====
-- What `bind` lets through.
use zenith_enterprise.Common.{
  ℕ, zero, suc, ◌-◌, ◌≤◌, ◌<◌, ◌≡◌, ◌⊎◌, refl, ap, ◌∙◌, true, false, some, List, [], ◌∷◌, ◌++◌,
  ◌&&◌, length, map, get_elem?, contains, sort_distinct, insert_distinct, All, IsAscending,
  contains-sort_distinct, length-append, length-keep_if-le, contains-append, All-of_contains,
  sort_distinct-IsAscending, arith, Bool-cases, inl, inr,
}
use zenith_enterprise.Common.Text.{Text, is_empty}
use zenith_enterprise.Retrieval.Hits.{Hit}
use zenith_enterprise.Answering.Citations.{
  Piece, plain, cite, pieces, in_range, survivors, cleaned, fabrications, cited, ChunkCitation,
  citation, citations_of, Bound, abstention, is_abstention, tidy, bind,
}

-- All the numbers in an answer's markers.
abbrev pub numbers_of : List Piece → List ℕ
numbers_of [] = []
numbers_of (plain c ∷ ps) = numbers_of ps
numbers_of (cite ns ∷ ps) = ns ++ numbers_of ps

contains-survivors :
    (k a : ℕ) (ns : List ℕ) → contains a (survivors k ns) ≡ (in_range k a && contains a ns)
contains-survivors k a [] = ground arith
contains-survivors k a (n ∷ ns) = ground (arith, contains-survivors k a ns)

contains-cited :
    (k a : ℕ) (ps : List Piece)
    → contains a (cited k ps) ≡ (in_range k a && contains a (numbers_of ps))
contains-cited k a [] = ground arith
contains-cited k a (plain c ∷ ps) = contains-cited k a ps
contains-cited k a (cite ns ∷ ps) = ground (
  arith,
  contains-append a (survivors k ns) (cited k ps),
  contains-append a ns (numbers_of ps),
  contains-survivors k a ns,
  contains-cited k a ps,
)

survivors-InRange : (k : ℕ) (ns : List ℕ) → All (λ n. in_range k n ≡ true) (survivors k ns)
survivors-InRange k [] = tt
survivors-InRange k (n ∷ ns) = ground (arith, survivors-InRange k ns)

get_elem?-some {ℓ} :
    {A : Type ℓ} (xs : List A) (i : ℕ) → i < length xs → (x : A) × (get_elem? xs i ≡ some x)
get_elem?-some [] i h = absurd (omega arith)
get_elem?-some (x ∷ xs) zero h = (x, refl)
get_elem?-some (x ∷ xs) (suc i) h = get_elem?-some xs i (omega arith)

-- A citation is of the passage that its number names.
abbrev pub Names : List Hit → ChunkCitation → Type 0
Names hits c =
    (1 ≤ c.marker)
    × (c.marker ≤ length hits)
    × (hit : Hit) × (get_elem? hits (c.marker - 1) ≡ some hit)
    × (c ≡ citation c.marker hit)

abbrev pub markers : List ChunkCitation → List ℕ
markers = map λ c. c.marker

citations_of-cons :
    (hits : List Hit) (n : ℕ) (ns : List ℕ) (hit : Hit)
    → get_elem? hits (n - 1) ≡ some hit
    → citations_of hits (n ∷ ns) ≡ citation n hit ∷ citations_of hits ns
unfolding citations_of
citations_of-cons hits n ns hit e = rw (e, citations_of)

citations_of-Names :
    (hits : List Hit) (ns : List ℕ)
    → All (λ n. in_range (length hits) n ≡ true) ns
    → All (Names hits) (citations_of hits ns) × (markers (citations_of hits ns) ≡ ns)
citations_of-Names hits [] h = unfold citations_of in (tt, refl)
citations_of-Names hits (n ∷ ns) h =
    let rest = citations_of-Names hits ns h.1 in
    let (hit, e) = get_elem?-some hits (n - 1) (ground (arith, h.0)) in
    rw (citations_of-cons hits n ns hit e)
      (((ground (arith, h.0), ground (arith, h.0), hit, e, refl), rest.0), ap (◌∷◌ n) rest.1)

-- The numbers that an answer cites, each once and in order: those in its markers that name one of
-- the passages.
abbrev pub cited_numbers : Text → List Hit → List ℕ
cited_numbers answer hits = sort_distinct (cited (length hits) (pieces answer))

cited_numbers-InRange :
    (answer : Text) (hits : List Hit)
    → All (λ n. in_range (length hits) n ≡ true) (cited_numbers answer hits)
cited_numbers-InRange answer hits =
    let k = length hits in
    let ps = pieces answer in
    All-of_contains (cited_numbers answer hits)
      λ a h. ground (arith, h, contains-sort_distinct a (cited k ps), contains-cited k a ps)

is_empty-markers : (cs : List ChunkCitation) → is_empty (markers cs) ≡ false → is_empty cs ≡ false
is_empty-markers [] h = h
is_empty-markers (c ∷ cs) h = refl

positive :
    (answer : Text) (hits : List Hit) → All (λ n. 0 < n) (cited (length hits) (pieces answer))
positive answer hits =
    let k = length hits in
    let ps = pieces answer in
    All-of_contains (cited k ps) λ a h. ground (arith, h, contains-cited k a ps)

survivors-append :
    (k : ℕ) (ms ns : List ℕ) → survivors k (ms ++ ns) ≡ survivors k ms ++ survivors k ns
survivors-append k [] ns = refl
survivors-append k (m ∷ ms) ns = ground (arith, survivors-append k ms ns)

fabrications_lem :
    (k : ℕ) (ps : List Piece)
    → fabrications k ps ≡ length (numbers_of ps) - length (survivors k (numbers_of ps))
fabrications_lem k [] = omega arith
fabrications_lem k (plain c ∷ ps) = fabrications_lem k ps
fabrications_lem k (cite ns ∷ ps) = rw survivors-append (
    omega (
      arith,
      fabrications_lem k ps,
      length-append ns (numbers_of ps),
      length-append (survivors k ns) (survivors k (numbers_of ps)),
      length-keep_if-le (in_range k) ns,
      length-keep_if-le (in_range k) (numbers_of ps),
    ))

abbrev abstaining : Text → List Hit → Bound
abstaining answer hits = record {
  answer = abstention;
  citations = [];
  abstained = true;
  fabricated = fabrications (length hits) (pieces answer);
}

abbrev answering : Text → List Hit → Bound
answering answer hits = record {
  answer = tidy (cleaned (length hits) (pieces answer));
  citations = citations_of hits (cited_numbers answer hits);
  abstained = false;
  fabricated = fabrications (length hits) (pieces answer);
}

bind_cases :
    (answer : Text) (hits : List Hit)
    → (bind answer hits ≡ abstaining answer hits)
      ⊎ ((bind answer hits ≡ answering answer hits)
          × (is_empty (cited (length hits) (pieces answer)) ≡ false))
unfolding bind
bind_cases answer hits = elim (Bool-cases (is_abstention (cleaned (length hits) (pieces answer)))) [
  | inl said ↦ inl (rw said)
  | inr unsaid ↦ elim (Bool-cases (is_empty (cited (length hits) (pieces answer)))) [
    | inl bare ↦ inl (rw (unsaid, bare))
    | inr used ↦ inr (rw (unsaid, used), used)
  ]
]

is_empty-insert_distinct : (a : ℕ) (xs : List ℕ) → is_empty (insert_distinct a xs) ≡ false
is_empty-insert_distinct a [] = refl
is_empty-insert_distinct a (x ∷ xs) = ground arith

is_empty-sort_distinct : (xs : List ℕ) → is_empty xs ≡ false → is_empty (sort_distinct xs) ≡ false
is_empty-sort_distinct [] h = h
is_empty-sort_distinct (x ∷ xs) h = is_empty-insert_distinct x (sort_distinct xs)

pub bind_shape :
    (answer : Text) (hits : List Hit)
    → ((bind answer hits).fabricated ≡ fabrications (length hits) (pieces answer))
      × (((bind answer hits).abstained ≡ true)
          ⊎ (markers (bind answer hits).citations ≡ cited_numbers answer hits))
bind_shape answer hits = elim (bind_cases answer hits) [
  | inl e ↦ rw e (refl, inl refl)
  | inr (e, used) ↦ rw e (
    refl,
    inr (citations_of-Names hits (cited_numbers answer hits) (cited_numbers-InRange answer hits)).1,
  )
]

-- `bind` has two outcomes. It abstains: then the answer is the abstention sentence and cites nothing.
-- Or it answers: then there is a citation, each is of the passage that its number names, and the
-- numbers are ascending.
pub bind_outcomes :
    (answer : Text) (hits : List Hit)
    → let b = bind answer hits in
      ((b.abstained ≡ true) × (b.answer ≡ abstention) × (b.citations ≡ []))
      ⊎ ((b.abstained ≡ false)
          × (is_empty b.citations ≡ false)
          × All (Names hits) b.citations
          × IsAscending 0 (markers b.citations))
bind_outcomes answer hits =
    let numbers = cited_numbers answer hits in
    let inside = cited_numbers-InRange answer hits in
    let bound = citations_of-Names hits numbers inside in
    elim (bind_cases answer hits) [
      | inl e ↦ inl (rw e (refl, refl, refl))
      | inr (e, used) ↦ inr (
          rw e (
            refl,
            is_empty-markers (citations_of hits numbers)
                (rw bound.1 (is_empty-sort_distinct (cited (length hits) (pieces answer)) used)),
            bound.0,
            rw bound.1 (
                sort_distinct-IsAscending 0 (cited (length hits) (pieces answer))
                  (positive answer hits)),
          ))
    ]

-- The numbers that a bound answer cites are exactly those in its markers that name a passage.
pub bind_cites :
    (answer : Text) (hits : List Hit) (a : ℕ)
    → (bind answer hits).abstained ≡ false
    → contains a (markers (bind answer hits).citations)
      ≡ (in_range (length hits) a && contains a (numbers_of (pieces answer)))
bind_cites answer hits a h =
    let k = length hits in
    let ps = pieces answer in
    let bound =
      citations_of-Names hits (cited_numbers answer hits) (cited_numbers-InRange answer hits) in
    elim (bind_cases answer hits) [
      | inl e ↦ absurd (ground (arith, ap (λ b. b.abstained) e, h))
      | inr (e, used) ↦
          rw (e, bound.1, contains-sort_distinct a (cited k ps), contains-cited k a ps)
    ]

-- On every outcome the count of fabrications is that of the numbers in markers that name no passage.
pub bind_fabricated :
    (answer : Text) (hits : List Hit)
    → (bind answer hits).fabricated
      ≡ length (numbers_of (pieces answer))
        - length (survivors (length hits) (numbers_of (pieces answer)))
bind_fabricated answer hits =
    (bind_shape answer hits).0 ∙ fabrications_lem (length hits) (pieces answer)
