-- ===== src/Answering/Streaming.antt =====
-- `MarkerFilter` of backend/app/features/generation/answering/streaming.py. Text is a list of code
-- points, and the sets of numbers are lists.
pub mod Chunks
mod Markers
pub mod Numbers
pub mod Segments
mod Escapes
mod Tests
use zenith_enterprise.Common.{
  ℕ, ◌+◌, ◌-◌, Bool, true, false, List, [], ◌∷◌, ◌++◌, ◌==◌, ltb, if◌then◌else◌, ◌&&◌, ◌||◌, not,
  length, all, contains, map, keep_if,
}
use zenith_enterprise.Common.Text.{
  Text, is_empty, is_digit, is_number, strip, split_on, int, render,
}

pub record MarkerFilter : Type 0 where
  pub valid : List ℕ
  pub buffer : Text
  pub fabricated : ℕ
  pub cited : List ℕ
  pub swallow_space : Bool

abbrev pub init : List ℕ → MarkerFilter
init valid = record {
  valid = valid;
  buffer = [];
  fabricated = 0;
  cited = [];
  swallow_space = false;
}

-- `MAX_MARKER`
abbrev pub max_marker : ℕ
max_marker = 24

abbrev pub is_plausible : ℕ → Bool
is_plausible c = is_digit c || c == b',' || c == b' '

abbrev tail : Text → Text
tail [] = []
tail (c ∷ s) = s

abbrev drop_last : Text → Text
drop_last [] = []
drop_last (c ∷ []) = []
drop_last (c ∷ d ∷ s) = c ∷ drop_last (d ∷ s)

-- `_plausible`: of the buffer behind its bracket.
abbrev pub plausible : Text → Bool
plausible buffer = all is_plausible (tail buffer)

abbrev pub all_numbers : List Text → Bool
all_numbers [] = true
all_numbers (part ∷ parts) = is_number part && all_numbers parts

-- The numbers in the middle of a marker, `[part.strip() for part in marker[1:-1].split(",")]`.
abbrev pub parts_of : Text → List Text
parts_of marker = map strip (split_on b',' [] (drop_last (tail marker)))

pub resolve : MarkerFilter → Text → MarkerFilter × Text
resolve f marker =
    let parts = parts_of marker in
    let numbers = map int parts in
    let survivors = keep_if (λ n. contains n f.valid) numbers in
    if all_numbers parts
    then (
      record f {
        fabricated = f.fabricated + (length parts - length survivors);
        cited = f.cited ++ survivors;
      },
      render survivors,
    )
    else (f, marker)

-- The body of the loop in `feed`, for a character that comes while nothing is held back.
pass : MarkerFilter → ℕ → MarkerFilter × Text
pass f c =
    if c == b'['
    then (record f { buffer = c ∷ [] }, [])
    else if f.swallow_space && c == b' '
    then (record f { swallow_space = false }, [])
    else (record f { swallow_space = false }, c ∷ [])

-- The same while a marker is held back; `buffer` has the character already.
hold : MarkerFilter → Text → ℕ → MarkerFilter × Text
hold f buffer c =
    if c == b']'
    then (let (f', resolved) = resolve f buffer in
        (record f' { buffer = []; swallow_space = is_empty resolved }, resolved))
    else if ltb max_marker (length buffer) || not (plausible buffer)
    then (record f { buffer = [] }, buffer)
    else (record f { buffer = buffer }, [])

pub feed_character : MarkerFilter → ℕ → MarkerFilter × Text
unfolding pass hold
feed_character f c = if is_empty f.buffer then pass f c else hold f (f.buffer ++ c ∷ []) c

pub feed : MarkerFilter → Text → MarkerFilter × Text
feed f [] = (f, [])
feed f (c ∷ chunk) =
    let (f', out) = feed_character f c in let (last, rest) = feed f' chunk in (last, out ++ rest)

pub flush : MarkerFilter → MarkerFilter × Text
flush f = (record f { buffer = [] }, f.buffer)

-- `filtered`: the texts that the generator yields, none of them empty.
abbrev yielded : Text → List Text → List Text
yielded text rest = if is_empty text then rest else text ∷ rest

filter_from : MarkerFilter → List Text → List Text
filter_from f [] = yielded (flush f).1 []
filter_from f (token ∷ tokens) =
    let (f', text) = feed f token in yielded text (filter_from f' tokens)

pub filtered : List Text → List ℕ → List Text
unfolding filter_from
filtered tokens valid = filter_from (init valid) tokens

-- What the filter has let through where no end comes.
abbrev pub unfinished : MarkerFilter → List Text → List Text
unfinished f [] = []
unfinished f (token ∷ tokens) = yielded (feed f token).1 (unfinished (feed f token).0 tokens)
