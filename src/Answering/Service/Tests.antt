-- ===== src/Answering/Service/Tests.antt =====
-- A thread of one turn, a passage, and a model that routes and answers.
use zenith_enterprise.Common.{
  ◌≡◌, refl, Bool, true, false, Option, none, some, List, [], ◌∷◌, if◌then◌else◌,
}
use zenith_enterprise.Common.Text.{Text, codes, is_empty, starts_with, strip}
use zenith_enterprise.Retrieval.Hits.{Hit}
use zenith_enterprise.Answering.Conversation.{Turn}
use zenith_enterprise.Answering.Routing.{Model, read_reply, grounded, conversational}
use zenith_enterprise.Answering.Service.{Found, answer}
use zenith_enterprise.Answering.Service.Outcomes.{IsAnswer, answer_outcomes}
use zenith_enterprise.Answering.Service.Streamed.{Tokens, stream}
use zenith_enterprise.Answering.Service.Streamed.Outcomes.{IsStreamed, stream_outcomes}
use zenith_enterprise.Answering.Service.Streamed.Cuts.{Agree, provider_of, stream_cuts}

abbrev passage : Hit
passage = record {
  chunk_id = 7;
  document_id = 1;
  filename = codes "f";
  media_type = codes "text/plain";
  page_num = some 2;
  char_start = 0;
  char_end = 4;
  text = codes "data";
  bboxes = [];
  lexical_rank = some 1;
  dense_rank = none;
}

abbrev search : Text → Option Found
search query =
    some
      record { hits = if is_empty query then [] else passage ∷ []; degraded = false; reason = none }

abbrev reply : Bool → Text
reply true = codes "SEARCH: \"data\"\nthe rest"
reply false = codes "It is so [1]."

-- It routes and answers.
abbrev model : Model
model system prompt = some record {
  text = reply (starts_with (codes "You prepare") system);
  model = codes "m";
  prompt_tokens = none;
  completion_tokens = some 5;
}

abbrev history : List Turn
history = record { question = codes "Why?"; answer = codes "So." } ∷ []

quoted_query : read_reply (reply true) (codes "and it?") ≡ grounded (codes "data")
unfolding read_reply strip
quoted_query = refl

chat_turn : read_reply (codes "chat.") (codes "and it?") ≡ conversational
unfolding read_reply strip
chat_turn = refl

answer_outcomes_example :
    IsAnswer
      (codes "and it?")
      false
      model
      search
      (answer (codes "and it?") false history model search)
answer_outcomes_example = answer_outcomes (codes "and it?") false history model search

abbrev at_once : Text → Text → Tokens
at_once system prompt = record { tokens = codes "It is so [1, 9]." ∷ []; is_finished = true }

abbrev in_pieces : Text → Text → Tokens
in_pieces system prompt = record {
  tokens = codes "It is so [" ∷ codes "1," ∷ codes " 9]." ∷ [];
  is_finished = true;
}

stream_outcomes_example :
    IsStreamed
      (codes "and it?")
      true
      (provider_of model (codes "m") none in_pieces)
      search
      (stream (codes "and it?") true history (provider_of model (codes "m") none in_pieces) search)
stream_outcomes_example =
    stream_outcomes (codes "and it?") true history (provider_of model (codes "m") none in_pieces)
      search

stream_cuts_example :
    Agree
      (stream (codes "and it?") false history (provider_of model (codes "m") none at_once) search)
      (stream (codes "and it?") false history (provider_of model (codes "m") none in_pieces) search)
stream_cuts_example =
    stream_cuts (codes "and it?") false history model (codes "m") none search at_once in_pieces
      λ system prompt. (refl, refl)
