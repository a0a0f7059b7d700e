-- ===== src/Answering/Streaming/Tests.antt =====
-- The filter on answers with good and bad markers.
use zenith_enterprise.Common.{◌≡◌, refl, true, false, List, [], ◌∷◌}
use zenith_enterprise.Common.Text.{codes, strip, split_on, int, show}
use zenith_enterprise.Answering.Streaming.{feed, feed_character, filtered, resolve, flush}
use zenith_enterprise.Answering.Streaming.Segments.{Segment, letter, marker, text_of, shown}

tokens_of_an_answer :
    filtered (codes "4% [" ∷ codes "9" ∷ codes "] of [1, " ∷ codes "7]." ∷ []) (1 ∷ 2 ∷ [])
    ≡ codes "4% " ∷ codes "of " ∷ codes "[1]." ∷ []
unfolding filtered feed feed_character resolve flush strip split_on int show
tokens_of_an_answer = refl

abbrev segments : List Segment
segments =
    letter b'a'
    ∷ letter b' '
    ∷ marker true 1 (9 ∷ [])
    ∷ marker false 8 []
    ∷ letter b' '
    ∷ letter b'.'
    ∷ []

text_of-segments : text_of segments ≡ codes "a [1, 9][8] ."
unfolding show
text_of-segments = refl

shown-segments : shown (1 ∷ 2 ∷ []) false segments ≡ codes "a [1]."
unfolding show
shown-segments = refl
