-- ===== src/Answering/Citations/Tests.antt =====
-- `bind` on answers with good and bad markers.
use zenith_enterprise.Common.{
  ℕ, ◌≡◌, ◌⊎◌, All, IsAscending, ◌&&◌, refl, true, false, none, some, List, [], ◌∷◌, contains,
}
use zenith_enterprise.Common.Text.{Text, is_empty, codes, strip, int, show, rstrip_dot}
use zenith_enterprise.Retrieval.Hits.{Hit}
use zenith_enterprise.Answering.Streaming.Segments.{Segment, letter, marker}
use zenith_enterprise.Answering.Citations.{
  bind, pieces, abstention, tidy, is_abstention, in_range, stripped,
}
use zenith_enterprise.Answering.Citations.Binding.{
  markers, numbers_of, bind_cites, bind_outcomes, Names,
}

abbrev passage : ℕ → Hit
passage id = record {
  chunk_id = id;
  document_id = 7;
  filename = [];
  media_type = [];
  page_num = some 3;
  char_start = 0;
  char_end = 5;
  text = [];
  bboxes = [];
  lexical_rank = none;
  dense_rank = none;
}

abbrev passages : List Hit
passages = passage 40 ∷ passage 41 ∷ []

abbrev an_answer : Text
an_answer = codes "It is 4% [2, 9] , see [ 1 ] and [7] ."

bound_answer : (bind an_answer passages).answer ≡ codes "It is 4% [2], see [ 1 ] and."
unfolding bind pieces is_abstention tidy strip rstrip_dot int show
bound_answer = refl

bound_markers : markers (bind an_answer passages).citations ≡ 2 ∷ []
unfolding bind pieces is_abstention tidy strip rstrip_dot int show
bound_markers = refl

uncited_is_discarded : (bind (codes "It is 4% [3].") passages).abstained ≡ true
unfolding bind pieces is_abstention tidy strip rstrip_dot int show
uncited_is_discarded = refl

stripped_answer : stripped (codes "You asked [1] twice [2, 3].") ≡ (codes "You asked twice.", 3)
unfolding stripped pieces tidy strip int
stripped_answer = refl

bind_cites_example :
    contains 2 (markers (bind an_answer passages).citations)
    ≡ (in_range 2 2 && contains 2 (numbers_of (pieces an_answer)))
unfolding bind pieces is_abstention tidy strip rstrip_dot int show
bind_cites_example = bind_cites an_answer passages 2 refl

bind_outcomes_example :
    let b = bind an_answer passages in
    ((b.abstained ≡ true) × (b.answer ≡ abstention) × (b.citations ≡ []))
    ⊎ ((b.abstained ≡ false)
        × (is_empty b.citations ≡ false)
        × All (Names passages) b.citations
        × IsAscending 0 (markers b.citations))
bind_outcomes_example = bind_outcomes an_answer passages

abbrev segments : List Segment
segments = letter b'a' ∷ marker true 2 (9 ∷ []) ∷ letter b'.' ∷ []
