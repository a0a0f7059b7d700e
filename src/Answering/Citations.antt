-- ===== src/Answering/Citations.antt =====
-- backend/app/features/generation/answering/citations.py. Text is a list of code points; the log
-- lines are left out.
pub mod Binding
mod Reading
mod Agreement
mod Nested
mod Tests
use zenith_enterprise.Common.{
  ℕ, zero, suc, ◌+◌, ◌-◌, Bool, true, false, Option, none, some, List, [], ◌∷◌, ◌++◌, ◌==◌, leb,
  ltb, if◌then◌else◌, ◌&&◌, ◌||◌, length, map, keep_if, get_elem?, sort_distinct,
}
use zenith_enterprise.Common.Text.{
  Text, codes, is_empty, is_digit, is_space, strip, int, render, drop_while, text_eq, lower,
  rstrip_dot,
}
use zenith_enterprise.Retrieval.Hits.{Hit, Box}

-- A text cut by `MARKER`, the regular expression `\[(\d+(?:\s*,\s*\d+)*)\]`: the characters outside
-- its matches, and for each match its numbers, `[int(part) for part in match.group(1).split(",")]`.
pub data Piece : Type 0 where
  plain : ℕ → Piece
  cite : List ℕ → Piece

-- Where in a match the text stands: behind the bracket, in the digits of a number, in the space
-- behind a number, or behind a comma.
data Place : Type 0 where
  bracket digits gap comma : Place

data Move : Type 0 where
  grow separate skip close reject : Move

move : Place → ℕ → Move
move bracket c = if is_digit c then grow else reject
move digits c =
    if is_digit c
    then grow
    else if c == b','
    then separate
    else if is_space c
    then skip
    else if c == b']'
    then close
    else reject
move gap c = if c == b',' then separate else if is_space c then skip else reject
move comma c = if is_digit c then grow else if is_space c then skip else reject

after_space : Place → Place
after_space bracket = bracket
after_space digits = gap
after_space gap = gap
after_space comma = comma

-- The match behind a bracket: the parts between its commas, and how many characters it takes.
match_marker : Place → Text → List Text → ℕ → Text → Option (List Text × ℕ)
match_marker place part parts n [] = none
match_marker place part parts n (c ∷ s) = elim (move place c) [
  | grow ↦ match_marker digits (part ++ c ∷ []) parts (n + 1) s
  | separate ↦ match_marker comma [] (parts ++ part ∷ []) (n + 1) s
  | skip ↦ match_marker (after_space place) part parts (n + 1) s
  | close ↦ some (parts ++ part ∷ [], n + 1)
  | reject ↦ none
]

-- `MARKER.sub` finds its matches from the left, and none overlaps another: the first argument
-- counts the characters of a match that are still to be skipped.
pub pieces_from : ℕ → Text → List Piece
unfolding match_marker move after_space
pieces_from taken [] = []
pieces_from (suc taken) (c ∷ s) = pieces_from taken s
pieces_from zero (c ∷ s) = elim (c == b'[') [
  | false ↦ plain c ∷ pieces_from zero s
  | true ↦ elim (match_marker bracket [] [] 0 s) [
    | none ↦ plain c ∷ pieces_from zero s
    | some (parts, n) ↦ cite (map int parts) ∷ pieces_from n s
  ]
]

pub pieces : Text → List Piece
unfolding pieces_from
pieces = pieces_from zero

-- `number in range(1, len(hits) + 1)`
abbrev pub in_range : ℕ → ℕ → Bool
in_range passages number = leb 1 number && leb number passages

abbrev pub survivors : ℕ → List ℕ → List ℕ
survivors passages = keep_if (in_range passages)

-- What `keep` writes, counts and remembers over the matches of one answer.
abbrev pub cleaned : ℕ → List Piece → Text
cleaned passages [] = []
cleaned passages (plain c ∷ ps) = c ∷ cleaned passages ps
cleaned passages (cite ns ∷ ps) = render (survivors passages ns) ++ cleaned passages ps

abbrev pub fabrications : ℕ → List Piece → ℕ
fabrications passages [] = 0
fabrications passages (plain c ∷ ps) = fabrications passages ps
fabrications passages (cite ns ∷ ps) =
    (length ns - length (survivors passages ns)) + fabrications passages ps

abbrev pub cited : ℕ → List Piece → List ℕ
cited passages [] = []
cited passages (plain c ∷ ps) = cited passages ps
cited passages (cite ns ∷ ps) = survivors passages ns ++ cited passages ps

pub record ChunkCitation : Type 0 where
  pub marker : ℕ
  pub chunk_id : ℕ
  pub document_id : ℕ
  pub filename : Text
  pub media_type : Text
  pub page_num : Option ℕ
  pub char_start : ℕ
  pub char_end : ℕ
  pub text : Text
  pub bboxes : List Box

-- `_citation`
abbrev pub citation : ℕ → Hit → ChunkCitation
citation marker hit = record {
  marker = marker;
  chunk_id = hit.chunk_id;
  document_id = hit.document_id;
  filename = hit.filename;
  media_type = hit.media_type;
  page_num = hit.page_num;
  char_start = hit.char_start;
  char_end = hit.char_end;
  text = hit.text;
  bboxes = hit.bboxes;
}

-- `hits[number - 1]` for each number; one out of range would be an `IndexError`.
citations_of : List Hit → List ℕ → List ChunkCitation
citations_of hits [] = []
citations_of hits (n ∷ ns) = elim (get_elem? hits (n - 1)) [
  | none ↦ citations_of hits ns
  | some hit ↦ citation n hit ∷ citations_of hits ns
]

pub record Bound : Type 0 where
  pub answer : Text
  pub citations : List ChunkCitation
  pub abstained : Bool
  pub fabricated : ℕ

-- `ABSTENTION` of prompt.py.
abbrev pub abstention : Text
abstention = codes "The documents provided do not contain an answer to this question."

-- `_is_abstention`
pub is_abstention : Text → Bool
is_abstention answer = text_eq (lower (rstrip_dot (strip answer))) (lower (rstrip_dot abstention))

-- `re.sub(r"[ \t]{2,}", " ", …)`: `run` blanks were read, the first of them `first`.
blank : ℕ → Bool
blank c = c == 32 || c == 9

blanks : ℕ → ℕ → Text
blanks zero first = []
blanks (suc zero) first = first ∷ []
blanks (suc (suc run)) first = 32 ∷ []

squeeze : ℕ → ℕ → Text → Text
unfolding blank blanks
squeeze run first [] = blanks run first
squeeze run first (c ∷ s) = elim (blank c) [
  | true ↦ squeeze (suc run) (if run == 0 then c else first) s
  | false ↦ blanks run first ++ (c ∷ squeeze 0 0 s)
]

-- `re.sub(r" +([.,;:])", r"\1", …)`: `run` spaces were read.
spaces : ℕ → Text
spaces zero = []
spaces (suc run) = 32 ∷ spaces run

is_point : ℕ → Bool
is_point c = c == b'.' || c == b',' || c == b';' || c == b':'

pull : ℕ → Text → Text
unfolding spaces is_point
pull run [] = spaces run
pull run (c ∷ s) = elim (c == 32) [
  | true ↦ pull (suc run) s
  | false ↦ (if is_point c then [] else spaces run) ++ (c ∷ pull 0 s)
]

-- `_tidy`
pub tidy : Text → Text
unfolding squeeze pull
tidy answer = strip (pull 0 (squeeze 0 0 answer))

pub bind : Text → List Hit → Bound
unfolding citations_of
bind answer hits =
    let ps = pieces answer in
    let passages = length hits in
    let text = cleaned passages ps in
    let numbers = cited passages ps in
    let abstain : Bound = record {
      answer = abstention;
      citations = [];
      abstained = true;
      fabricated = fabrications passages ps;
    } in
    if is_abstention text then abstain else if is_empty numbers then abstain else record {
      answer = tidy text;
      citations = citations_of hits (sort_distinct numbers);
      abstained = false;
      fabricated = fabrications passages ps;
    }

-- `stripped`: every marker goes, and the numbers in them are counted.
abbrev pub without_markers : List Piece → Text
without_markers [] = []
without_markers (plain c ∷ ps) = c ∷ without_markers ps
without_markers (cite ns ∷ ps) = without_markers ps

abbrev pub numbers_in : List Piece → ℕ
numbers_in [] = 0
numbers_in (plain c ∷ ps) = numbers_in ps
numbers_in (cite ns ∷ ps) = length ns + numbers_in ps

pub stripped : Text → Text × ℕ
stripped answer = let ps = pieces answer in (tidy (without_markers ps), numbers_in ps)
