-- ===== src/Answering/Service.antt =====
-- `AnswerService` of backend/app/features/generation/service.py: the whole answer. The search and the
-- model are arguments, in which `none` is an exception; the times and the identifiers of the log are
-- left out.
mod Recorded
pub mod Outcomes
pub mod Streamed
mod Tests
use zenith_enterprise.Common.{
  ℕ, Bool, true, false, Option, none, some, List, [], ◌∷◌, if◌then◌else◌, ◌&&◌, not, map,
}
use zenith_enterprise.Common.Text.{Text, is_empty}
use zenith_enterprise.Retrieval.Hits.{Hit}
use zenith_enterprise.Retrieval.Search.{index_of}
use zenith_enterprise.Answering.Citations.{Bound, ChunkCitation, bind, stripped, abstention}
use zenith_enterprise.Answering.Conversation.{Turn, bounded, rendered}
use zenith_enterprise.Answering.Routing.{Model, Completion, Intent, resolve, or_message}
use zenith_enterprise.Answering.Prompt as Prompt

-- What the service reads of a `SearchResult`.
pub record Found : Type 0 where
  pub hits : List Hit
  pub degraded : Bool
  pub reason : Option Text

pub record Answer : Type 0 where
  pub answer : Text
  pub citations : List ChunkCitation
  pub abstained : Bool
  pub consulted : List Hit
  pub model : Text
  pub degraded : Bool
  pub reason : Option Text

-- A row of `query_citations`: the passage and its rank in the search.
pub record Cited : Type 0 where
  pub chunk_id : ℕ
  pub rank : Option ℕ

-- A row of `queries`, with its citations.
pub record Logged : Type 0 where
  pub question : Text
  pub answer : Text
  pub model_used : Option Text
  pub prompt_tokens : Option ℕ
  pub completion_tokens : Option ℕ
  pub citations : List Cited

abbrev pub model_used : Text → Option Text
model_used model = if is_empty model then none else some model

-- `_record_citations`; a passage that is no hit would be a `KeyError`.
abbrev pub cited_rows : List ChunkCitation → List Hit → List Cited
cited_rows citations hits =
    map
      (λ c. record {
        chunk_id = c.chunk_id;
        rank = index_of 1 c.chunk_id (map (λ h. h.chunk_id) hits);
      })
      citations

-- What the provider reported: the tokens of the prompt, then those of the completion.
abbrev pub Usage : Type 0
Usage = Option (Option ℕ × Option ℕ)

abbrev pub usage_of : Completion → Usage
usage_of c = some (c.prompt_tokens, c.completion_tokens)

abbrev pub prompt_of : Usage → Option ℕ
prompt_of none = none
prompt_of (some u) = u.0

abbrev pub completion_of : Usage → Option ℕ
completion_of none = none
completion_of (some u) = u.1

-- `_record`
abbrev pub logged : Text → Bound → List Hit → Text → Usage → Logged
logged question bound hits model usage = record {
  question = question;
  answer = bound.answer;
  model_used = model_used model;
  prompt_tokens = prompt_of usage;
  completion_tokens = completion_of usage;
  citations = cited_rows bound.citations hits;
}

abbrev pub answer_of : Bound → Found → Text → Answer
answer_of bound found model = record {
  answer = bound.answer;
  citations = bound.citations;
  abstained = bound.abstained;
  consulted = found.hits;
  model = model;
  degraded = found.degraded;
  reason = found.reason;
}

abbrev pub silent : Bound
silent = record { answer = abstention; citations = []; abstained = true; fabricated = 0 }

abbrev pub nothing_found : Found
nothing_found = record { hits = []; degraded = false; reason = none }

-- The end of `_conversational`.
abbrev pub conversational_from : Text → Option Completion → Option (Answer × Logged)
conversational_from message none = none
conversational_from message (some c) =
    let text = stripped c.text in
    let bound : Bound = record {
      answer = text.0;
      citations = [];
      abstained = false;
      fabricated = text.1;
    } in
    some (answer_of bound nothing_found c.model, logged message bound [] c.model (usage_of c))

-- `_conversational`
abbrev pub conversational_answer : Text → List Turn → Model → Option (Answer × Logged)
conversational_answer message thread complete =
    conversational_from message
      (complete Prompt.chat_system (Prompt.build_chat (rendered thread) message))

-- `answer`, from what the model wrote about the passages.
abbrev pub grounded_from : Text → Found → Option Completion → Option (Answer × Logged)
grounded_from question found none = none
grounded_from question found (some c) =
    let bound = bind c.text found.hits in
    some (answer_of bound found c.model, logged question bound found.hits c.model (usage_of c))

-- `answer`, from the search on. The model is asked where there is a passage.
abbrev pub answer_from : Text → List Turn → Model → Option Found → Option (Answer × Logged)
answer_from question thread complete none = none
answer_from question thread complete (some found) =
    if is_empty found.hits
    then some (answer_of silent found [], logged question silent [] [] none)
    else grounded_from question found
        (complete Prompt.system (Prompt.build question found.hits (rendered thread)))

-- `answer`, from the intent on: `intent.query or question`.
abbrev pub answer_as :
    Option Text → Bool → Text → List Turn → Model → (Text → Option Found) → Option (Answer × Logged)
answer_as none true question thread complete search =
    answer_from question thread complete (search question)
answer_as none false question thread complete search =
    conversational_answer question thread complete
answer_as (some query) scoped question thread complete search =
    answer_from question thread complete (search (or_message query question))

-- `answer`: `scoped` where documents were named.
unfoldable pub answer :
    Text → Bool → List Turn → Model → (Text → Option Found) → Option (Answer × Logged)
answer question scoped history complete search =
    let thread = bounded history in
    answer_as (resolve thread question complete).query scoped question thread complete search
