-- ===== src/Answering/Service/Streamed.antt =====
-- `AnswerService.stream` of backend/app/features/generation/service.py: the same answer in pieces.
pub mod Outcomes
pub mod Cuts
use zenith_enterprise.Common.{
  ℕ, suc, Bool, true, false, Option, none, some, List, [], ◌∷◌, if◌then◌else◌, length,
}
use zenith_enterprise.Common.Text.{Text, is_empty}
use zenith_enterprise.Retrieval.Hits.{Hit}
use zenith_enterprise.Answering.Citations.{bind}
use zenith_enterprise.Answering.Streaming.{init, unfinished, filtered}
use zenith_enterprise.Answering.Streaming.Chunks.{concat}
use zenith_enterprise.Answering.Conversation.{Turn, bounded, rendered}
use zenith_enterprise.Answering.Routing.{Model, resolve, or_message}
use zenith_enterprise.Answering.Prompt as Prompt
use zenith_enterprise.Answering.Service.{
  Found, Answer, Logged, Usage, logged, answer_of, silent, conversational_answer,
}

-- What a provider streams: tokens, after which it ends or raises.
pub record Tokens : Type 0 where
  pub tokens : List Text
  pub is_finished : Bool

-- A provider that streams; what it then says of the model and of the tokens spent.
pub record Provider : Type 0 where
  pub complete : Model
  pub stream : Text → Text → Tokens
  pub model : Text
  pub last_usage : Usage

-- What the caller receives: the texts, and the result behind them unless there was an exception.
pub record Streamed : Type 0 where
  pub texts : List Text
  pub result : Option (Answer × Logged)

-- `range(1, k + 1)`, from its start and its length.
abbrev pub range : ℕ → List Hit → List ℕ
range start [] = []
range start (h ∷ hits) = start ∷ range (suc start) hits

abbrev pub whole : Option (Answer × Logged) → Streamed
whole none = record { texts = []; result = none }
whole (some (a, l)) = record { texts = a.answer ∷ []; result = some (a, l) }

-- The text that was let through is bound again.
abbrev pub bound_again : Text → Provider → Found → Text → Answer × Logged
bound_again question provider found text =
    let bound = bind text found.hits in
    (
      answer_of bound found provider.model,
      logged question bound found.hits provider.model provider.last_usage,
    )

abbrev pub streamed_texts : Text → Provider → Found → List Text → Streamed
streamed_texts question provider found texts = record {
  texts = texts;
  result = some (bound_again question provider found (concat texts));
}

abbrev pub streamed_tokens : Text → Provider → Found → Tokens → Streamed
streamed_tokens question provider found sent =
    let valid = range 1 found.hits in
    if sent.is_finished
    then streamed_texts question provider found (filtered sent.tokens valid)
    else record { texts = unfinished (init valid) sent.tokens; result = none }

-- `stream`, from the search on.
abbrev pub stream_from : Text → List Turn → Provider → Option Found → Streamed
stream_from question thread provider none = record { texts = []; result = none }
stream_from question thread provider (some found) =
    if is_empty found.hits
    then record {
      texts = [];
      result = some (answer_of silent found [], logged question silent [] [] none);
    }
    else streamed_tokens question provider found
        (provider.stream Prompt.system (Prompt.build question found.hits (rendered thread)))

abbrev pub stream_as :
    Option Text → Bool → Text → List Turn → Provider → (Text → Option Found) → Streamed
stream_as none true question thread provider search =
    stream_from question thread provider (search question)
stream_as none false question thread provider search =
    whole (conversational_answer question thread provider.complete)
stream_as (some query) scoped question thread provider search =
    stream_from question thread provider (search (or_message query question))

-- `stream`
abbrev pub stream : Text → Bool → List Turn → Provider → (Text → Option Found) → Streamed
stream question scoped history provider search =
    let thread = bounded history in
    stream_as (resolve thread question provider.complete).query scoped question thread provider
      search
