-- ===== src/Answering/Streaming/Segments.antt =====
-- The filter against an independent description: an answer as prose and markers.
use zenith_enterprise.Common.{
  ℕ, ◌+◌, ◌-◌, ◌≤◌, ◌≡◌, Bool, false, List, [], ◌∷◌, ◌++◌, length, if◌then◌else◌, ◌&&◌, ◌==◌,
}
use zenith_enterprise.Common.Text.{Text, render, is_empty}
use zenith_enterprise.Answering.Streaming.{MarkerFilter, max_marker}
use zenith_enterprise.Answering.Streaming.Numbers.{join_from, kept}

-- A piece of an answer: a character of prose, or a marker with its first number and the others.
pub data Segment : Type 0 where
  letter : ℕ → Segment
  marker : Bool → ℕ → List ℕ → Segment

abbrev pub text_of : List Segment → Text
text_of [] = []
text_of (letter c ∷ s) = c ∷ text_of s
text_of (marker spaced n ns ∷ s) = (b'[' ∷ join_from spaced n ns ++ b']' ∷ []) ++ text_of s

-- No bracket opens but a marker's, and no marker is longer than the filter waits for.
abbrev pub Fits : Segment → Type 0
Fits (letter c) = (c == b'[') ≡ false
Fits (marker spaced n ns) = length (join_from spaced n ns) + 1 ≤ max_marker

-- What the client should receive: prose as it stands, and of each marker the valid numbers. After a
-- marker that is dropped whole, the space that follows is dropped too.
abbrev pub shown : List ℕ → Bool → List Segment → Text
shown valid swallow [] = []
shown valid swallow (letter c ∷ s) =
    (if swallow && c == b' ' then [] else c ∷ []) ++ shown valid false s
shown valid swallow (marker spaced n ns ∷ s) =
    render (kept valid (n ∷ ns)) ++ shown valid (is_empty (kept valid (n ∷ ns))) s

-- How many numbers of an answer's markers name no passage, and which name one.
abbrev pub invented : List ℕ → List Segment → ℕ
invented valid [] = 0
invented valid (letter c ∷ s) = invented valid s
invented valid (marker spaced n ns ∷ s) =
    (length (n ∷ ns) - length (kept valid (n ∷ ns))) + invented valid s

abbrev pub references : List ℕ → List Segment → List ℕ
references valid [] = []
references valid (letter c ∷ s) = references valid s
references valid (marker spaced n ns ∷ s) = kept valid (n ∷ ns) ++ references valid s

-- What feeding the text of some segments should come to.
record Shows (f : MarkerFilter) (segs : List Segment) (r : MarkerFilter × Text) : Type 0 where
  text : r.1 ≡ shown f.valid f.swallow_space segs
  settled : r.0.buffer ≡ []
  counted : r.0.fabricated ≡ f.fabricated + invented f.valid segs
  noted : r.0.cited ≡ f.cited ++ references f.valid segs

after_marker : MarkerFilter → ℕ → List ℕ → MarkerFilter
after_marker f n ns = record f {
  buffer = [];
  fabricated = f.fabricated + (length (n ∷ ns) - length (kept f.valid (n ∷ ns)));
  cited = f.cited ++ kept f.valid (n ∷ ns);
  swallow_space = is_empty (kept f.valid (n ∷ ns));
}
