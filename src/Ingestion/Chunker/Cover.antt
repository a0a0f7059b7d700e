-- ===== src/Ingestion/Chunker/Cover.antt =====
-- The chunks of a document: none is too long, and nothing but white space is left out.
use mathlib.Core.List.{reverse, reverse-cons}
use zenith_enterprise.Common.{
  ℕ, zero, suc, ◌+◌, ◌-◌, ◌/◌, ◌≤◌, ◌<◌, ◌≡◌, refl, Bool, true, false, Option, none, some, List, [],
  ◌∷◌, ltb, leb, length, take, drop, length-append, All, arith, Bool-cases, inl, inr, ◌&&◌, ◌||◌,
  all, get_elem?, map, ap,
}
use zenith_enterprise.Common.Text.{Text, strip, is_empty, is_space, drop_while, all-append}
use zenith_enterprise.Retrieval.Hits.{Box}
use zenith_enterprise.Ingestion.Chunker.{
  Chunk, slice, cuts, chunks_of, chunk_stream, chunk_page, estimated_tokens, min_characters,
  characters_per_token,
}
use zenith_enterprise.Ingestion.Chunker.Boxes.{ParsedPage, boxes_for}
use zenith_enterprise.Ingestion.Chunker.Cuts.{
  IsPiece, cuts-IsPiece, covers, cuts-covers, length-slice,
}

length-reverse : (s : Text) → length (reverse s) ≡ length s
length-reverse [] = refl
length-reverse (c ∷ s) =
    rw (reverse-cons c s) (ground (arith, length-append (reverse s) (c ∷ []), length-reverse s))

all-reversed : (p : ℕ → Bool) (s : Text) → all p (reverse s) ≡ all p s
all-reversed p [] = refl
all-reversed p (c ∷ s) =
    rw (reverse-cons c s) (ground (arith, all-append p (reverse s) (c ∷ []), all-reversed p s))

length-drop_while-le : (p : ℕ → Bool) (s : Text) → length (drop_while p s) ≤ length s
length-drop_while-le p [] = omega arith
length-drop_while-le p (c ∷ s) = ground (arith, length-drop_while-le p s)

is_empty-drop_while : (p : ℕ → Bool) (s : Text) → is_empty (drop_while p s) ≡ all p s
is_empty-drop_while p [] = refl
is_empty-drop_while p (c ∷ s) = ground (arith, is_empty-drop_while p s)

all-drop_while : (p : ℕ → Bool) (s : Text) → all p (drop_while p s) ≡ all p s
all-drop_while p [] = refl
all-drop_while p (c ∷ s) = ground (arith, all-drop_while p s)

is_empty-reverse : (s : Text) → is_empty (reverse s) ≡ is_empty s
is_empty-reverse [] = refl
is_empty-reverse (c ∷ s) = ground (arith, length-reverse (c ∷ s))

length-strip-le : (s : Text) → length (strip s) ≤ length s
unfolding strip
length-strip-le s = omega (
  arith,
  length-reverse (drop_while is_space (reverse (drop_while is_space s))),
  length-drop_while-le is_space (reverse (drop_while is_space s)),
  length-reverse (drop_while is_space s),
  length-drop_while-le is_space s,
)

-- Nothing is left of white space, and of nothing else.
is_empty-strip : (s : Text) → is_empty (strip s) ≡ all is_space s
unfolding strip
is_empty-strip s =
    rw
      (
        is_empty-reverse (drop_while is_space (reverse (drop_while is_space s))),
        is_empty-drop_while is_space (reverse (drop_while is_space s)),
        all-reversed is_space (drop_while is_space s),
      )
      (all-drop_while is_space s)

all-take-drop :
    (p : ℕ → Bool) (s n i c : ℕ) (xs : Text)
    → get_elem? xs i ≡ some c
    → p c ≡ false
    → s ≤ i
    → i < s + n
    → all p (take n (drop s xs)) ≡ false
all-take-drop p s n i c [] e q h k = ground (arith, e)
all-take-drop p zero zero i c (x ∷ xs) e q h k = absurd (omega arith)
all-take-drop p zero (suc n) zero c (x ∷ xs) e q h k = ground (arith, e, q)
all-take-drop p zero (suc n) (suc i) c (x ∷ xs) e q h k =
    ground (arith, all-take-drop p zero n i c xs e q (omega arith) (omega arith))
all-take-drop p (suc s) n zero c (x ∷ xs) e q h k = absurd (omega arith)
all-take-drop p (suc s) n (suc i) c (x ∷ xs) e q h k =
    all-take-drop p s n i c xs e q (omega arith) (omega arith)

get_elem?-inside : (xs : Text) (i c : ℕ) → get_elem? xs i ≡ some c → i < length xs
get_elem?-inside [] i c e = ground (arith, e)
get_elem?-inside (x ∷ xs) zero c e = omega arith
get_elem?-inside (x ∷ xs) (suc i) c e = omega (arith, get_elem?-inside xs i c e)

-- A position lies in the range of one of the chunks.
abbrev pub cited_by : ℕ → List Chunk → Bool
cited_by i [] = false
cited_by i (c ∷ cs) = (leb c.char_start i && ltb i c.char_end) || cited_by i cs

chunks_of-covers :
    (page_num : Option ℕ) (boxes_for : ℕ → ℕ → List Box) (text : Text) (pieces : List (ℕ × ℕ))
    (i c : ℕ)
    → get_elem? text i ≡ some c
    → is_space c ≡ false
    → covers i pieces ≡ true
    → cited_by i (chunks_of page_num boxes_for text pieces) ≡ true
chunks_of-covers page_num boxes_for text [] i c e q h = h
chunks_of-covers page_num boxes_for text ((start, end) ∷ rest) i c e q h = ground (
  arith,
  is_empty-strip (slice start end text),
  all-take-drop is_space start (end - start) i c text e q,
  chunks_of-covers page_num boxes_for text rest i c e q,
)

-- What every chunk keeps: a range of the text, no more text than the target, and so few tokens.
pub record IsGood (text : Text) (target : ℕ) (chunk : Chunk) : Type 0 where
  pub range : chunk.char_start < chunk.char_end
  pub inside : chunk.char_end ≤ length text
  pub content : chunk.text ≡ strip (slice chunk.char_start chunk.char_end text)
  pub some_text : is_empty chunk.text ≡ false
  pub tokens : estimated_tokens chunk ≤ target / characters_per_token + 1

chunks_of-IsGood :
    (page_num : Option ℕ) (boxes_for : ℕ → ℕ → List Box) (text : Text) (target : ℕ)
    (pieces : List (ℕ × ℕ))
    → All (IsPiece text target) pieces
    → All (IsGood text target) (chunks_of page_num boxes_for text pieces)
chunks_of-IsGood page_num boxes_for text target [] h = tt
chunks_of-IsGood page_num boxes_for text target ((start, end) ∷ rest) h =
    let later = chunks_of-IsGood page_num boxes_for text target rest h.1 in
    let body = strip (slice start end text) in
    elim (Bool-cases (is_empty body)) [
      | inl e ↦ rw e later
      | inr e ↦
          let first : IsGood text target (record {
            page_num = page_num;
            char_start = start;
            char_end = end;
            text = body;
            boxes = boxes_for start end;
          }) =
            record {
              range = h.0.forward;
              inside = h.0.inside;
              content = refl;
              some_text = e;
              tokens = omega (
                arith,
                h.0.short,
                length-strip-le (slice start end text),
                length-slice start end text,
              );
            } in
          rw e (first, later)
    ]

-- No chunk of a document is empty or larger than the target allows, whatever the text.
pub chunk_stream-IsGood :
    (text : Text) (target : ℕ) → 0 < target → All (IsGood text target) (chunk_stream text target)
chunk_stream-IsGood text target h = elim (Bool-cases (ltb (length (strip text)) min_characters)) [
  | inl e ↦ rw e tt
  | inr e ↦ rw e (
      chunks_of-IsGood none (λ start end. []) text target (cuts (length text) text target 0)
        (cuts-IsPiece (length text) text target 0 h))
]

-- A document with at least 100 characters of text between the white space at its two ends loses nothing
-- but white space, whatever the target is, if not zero: each other character lies in the range of a
-- chunk.
pub chunk_stream_covers :
    (text : Text) (target i c : ℕ)
    → 0 < target
    → min_characters ≤ length (strip text)
    → get_elem? text i ≡ some c
    → is_space c ≡ false
    → cited_by i (chunk_stream text target) ≡ true
chunk_stream_covers text target i c h enough e q =
    let inside = get_elem?-inside text i c e in
    let pieces = cuts (length text) text target 0 in
    let covered = cuts-covers (length text) text target 0 i h (omega arith) (omega arith) inside in
    ground (arith, chunks_of-covers none (λ start end. []) text pieces i c e q covered)

-- The same of a page.
chunk_page-IsGood :
    (page : ParsedPage) (target : ℕ)
    → 0 < target
    → All (IsGood page.text target) (chunk_page page target)
chunk_page-IsGood page target h =
    elim (Bool-cases (ltb (length (strip page.text)) min_characters)) [
      | inl e ↦ rw e tt
      | inr e ↦ rw e (
          chunks_of-IsGood (some page.page_num) (boxes_for page) page.text target
            (cuts (length page.text) page.text target 0)
            (cuts-IsPiece (length page.text) page.text target 0 h))
    ]

abbrev pub place : Chunk → ℕ × ℕ × Text
place c = (c.char_start, c.char_end, c.text)

places_alike :
    (m n : Option ℕ) (f g : ℕ → ℕ → List Box) (text : Text) (pieces : List (ℕ × ℕ))
    → map place (chunks_of m f text pieces) ≡ map place (chunks_of n g text pieces)
places_alike m n f g text [] = refl
places_alike m n f g text ((start, end) ∷ rest) =
    elim (Bool-cases (is_empty (strip (slice start end text)))) [
      | inl e ↦ rw e (places_alike m n f g text rest)
      | inr e ↦
          rw e
            (ap (◌∷◌ (start, end, strip (slice start end text))) (places_alike m n f g text rest))
    ]

-- The two entry points split alike: a page's chunks have the ranges and texts of those of its text as
-- a document without pages.
pub chunk_page_agrees :
    (page : ParsedPage) (target : ℕ)
    → map place (chunk_page page target) ≡ map place (chunk_stream page.text target)
chunk_page_agrees page target = elim (Bool-cases (ltb (length (strip page.text)) min_characters)) [
  | inl e ↦ rw e refl
  | inr e ↦ rw e (
      places_alike (some page.page_num) none (boxes_for page) (λ start end. []) page.text
        (cuts (length page.text) page.text target 0))
]
