-- ===== src/Answering/Service/Streamed/Outcomes.antt =====
-- What a streamed answer may be.
use zenith_enterprise.Common.{
  ◌≡◌, ◌⊎◌, inl, inr, refl, Bool, true, false, Option, none, some, List, [], ◌∷◌, Bool-cases,
}
use zenith_enterprise.Common.Text.{Text, is_empty}
use zenith_enterprise.Answering.Citations.{bind}
use zenith_enterprise.Answering.Citations.Binding.{bind_outcomes}
use zenith_enterprise.Answering.Streaming.Chunks.{concat}
use zenith_enterprise.Answering.Conversation.{Turn, bounded}
use zenith_enterprise.Answering.Routing.{Completion, resolve, or_message}
use zenith_enterprise.Answering.Service.{Found, Answer, Logged, conversational_from}
use zenith_enterprise.Answering.Service.Recorded.{cited_rows-IsRanked, cited_rows-passages}
use zenith_enterprise.Answering.Service.Outcomes.{
  IsTalk, IsAbstention, IsGrounded, IsLogged, Failed, outcome-Names,
}
use zenith_enterprise.Answering.Service.Streamed.{
  Provider, Streamed, whole, streamed_texts, streamed_tokens, stream_from, stream_as, stream,
}

-- No result, where something that was asked failed, or the model stopped in the middle.
abbrev pub Broke : Provider → (Text → Option Found) → Type 0
Broke provider search =
    Failed provider.complete search
    ⊎ ((system : Text) × (prompt : Text) × ((provider.stream system prompt).is_finished ≡ false))

-- The result behind the texts.
abbrev pub IsResult :
    Text → Bool → Provider → (Text → Option Found) → List Text → Option (Answer × Logged) → Type 0
IsResult question scoped provider search texts none = Broke provider search
IsResult question scoped provider search texts (some (a, l)) =
    (((scoped ≡ false) × IsTalk a × (texts ≡ a.answer ∷ [])) ⊎ (IsAbstention a ⊎ IsGrounded a))
    × IsLogged question a l

abbrev pub IsStreamed : Text → Bool → Provider → (Text → Option Found) → Streamed → Type 0
IsStreamed question scoped provider search s =
    IsResult question scoped provider search s.texts s.result

module _ (question : Text) (thread : List Turn) (provider : Provider)
    (search : Text → Option Found) where
  streamed_texts-IsStreamed :
      (scoped : Bool) (found : Found) (texts : List Text)
      → IsStreamed question scoped provider search (streamed_texts question provider found texts)
  streamed_texts-IsStreamed scoped found texts =
      let cited = (bind (concat texts) found.hits).citations in
      let outcome = bind_outcomes (concat texts) found.hits in
      (
        inr outcome,
        (
          refl,
          refl,
          cited_rows-passages found.hits cited,
          cited_rows-IsRanked found.hits cited (outcome-Names (concat texts) found.hits outcome),
        ),
      )

  streamed_tokens-IsStreamed :
      (scoped : Bool) (found : Found) (system prompt : Text)
      → IsStreamed question scoped provider search
          (streamed_tokens question provider found (provider.stream system prompt))
  streamed_tokens-IsStreamed scoped found system prompt =
      elim (Bool-cases (provider.stream system prompt).is_finished) [
        | inl ends ↦ simp ends (streamed_texts-IsStreamed scoped found _)
        | inr stops ↦ simp stops (inr (system, prompt, stops))
      ]

  stream_from-IsStreamed :
      (scoped : Bool) (query : Text) (o : Option Found)
      → search query ≡ o
      → IsStreamed question scoped provider search (stream_from question thread provider o)
  stream_from-IsStreamed scoped query none e = inl (inl (query, e))
  stream_from-IsStreamed scoped query (some found) e = elim (Bool-cases (is_empty found.hits)) [
    | inl bare ↦ simp bare (inr (inl (refl, refl, refl)), (refl, refl, refl, tt))
    | inr full ↦ simp full (streamed_tokens-IsStreamed scoped found _ _)
  ]

  whole-IsStreamed :
      (system prompt : Text) (o : Option Completion)
      → provider.complete system prompt ≡ o
      → IsStreamed question false provider search (whole (conversational_from question o))
  whole-IsStreamed system prompt none e = inl (inr (system, prompt, e))
  whole-IsStreamed system prompt (some c) e =
      (inl (refl, (refl, refl, refl), refl), (refl, refl, refl, tt))

  stream_as-IsStreamed :
      (intent : Option Text) (scoped : Bool)
      → IsStreamed question scoped provider search
          (stream_as intent scoped question thread provider search)
  stream_as-IsStreamed (some query) scoped =
      stream_from-IsStreamed scoped (or_message query question) _ refl
  stream_as-IsStreamed none true = stream_from-IsStreamed true question _ refl
  stream_as-IsStreamed none false = whole-IsStreamed _ _ _ refl

-- A streamed answer has the four ends of one that is not streamed, whatever the search and the model
-- give: from the conversation, in one piece; by abstention; from the passages, citing at least one,
-- each the passage consulted under its number; or none, and then the search or the model failed, or
-- the model stopped in the middle. What is answered is logged, with the passages that it cites, each
-- under a rank that a hit of it has among those consulted.
pub stream_outcomes :
    (question : Text) (scoped : Bool) (history : List Turn) (provider : Provider)
    (search : Text → Option Found)
    → IsStreamed question scoped provider search (stream question scoped history provider search)
stream_outcomes question scoped history provider search =
    stream_as-IsStreamed question (bounded history) provider search
      (resolve (bounded history) question provider.complete).query scoped
