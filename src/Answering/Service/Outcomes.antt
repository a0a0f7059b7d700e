-- ===== src/Answering/Service/Outcomes.antt =====
-- What an answer may be.
use zenith_enterprise.Common.{
  ◌≡◌, ◌⊎◌, inl, inr, refl, Bool, true, false, Option, none, some, List, [], map, All, IsAscending,
  Bool-cases,
}
use zenith_enterprise.Common.Text.{Text, is_empty}
use zenith_enterprise.Retrieval.Hits.{Hit}
use zenith_enterprise.Answering.Citations.{bind, abstention}
use zenith_enterprise.Answering.Citations.Binding.{Names, markers, bind_outcomes}
use zenith_enterprise.Answering.Conversation.{Turn, bounded}
use zenith_enterprise.Answering.Routing.{Model, Completion, resolve, or_message}
use zenith_enterprise.Answering.Service.Recorded.{
  IsRanked, cited_rows-IsRanked, cited_rows-passages,
}
use zenith_enterprise.Answering.Service.{
  Found, Answer, Logged, conversational_from, grounded_from, answer_from, answer_as, answer,
}

-- An answer from the conversation: nothing was consulted and nothing is cited.
abbrev pub IsTalk : Answer → Type 0
IsTalk a = (a.abstained ≡ false) × (a.citations ≡ []) × (a.consulted ≡ [])

abbrev pub IsAbstention : Answer → Type 0
IsAbstention a = (a.abstained ≡ true) × (a.answer ≡ abstention) × (a.citations ≡ [])

-- An answer from the passages: it cites some, each is the passage consulted under its number, and the
-- numbers are ascending.
abbrev pub IsGrounded : Answer → Type 0
IsGrounded a =
    (a.abstained ≡ false)
    × (is_empty a.citations ≡ false)
    × All (Names a.consulted) a.citations
    × IsAscending 0 (markers a.citations)

-- What the log holds of it: the passages cited, each with its rank among those consulted.
abbrev pub IsLogged : Text → Answer → Logged → Type 0
IsLogged question a l =
    (l.question ≡ question)
    × (l.answer ≡ a.answer)
    × (map (λ row. row.chunk_id) l.citations ≡ map (λ c. c.chunk_id) a.citations)
    × All (IsRanked a.consulted) l.citations

-- No answer, where the search or the model failed on something that it was asked.
abbrev pub Failed : Model → (Text → Option Found) → Type 0
Failed complete search =
    ((query : Text) × (search query ≡ none))
    ⊎ ((system : Text) × (prompt : Text) × (complete system prompt ≡ none))

abbrev pub IsAnswer :
    Text → Bool → Model → (Text → Option Found) → Option (Answer × Logged) → Type 0
IsAnswer question scoped complete search none = Failed complete search
IsAnswer question scoped complete search (some (a, l)) =
    (((scoped ≡ false) × IsTalk a) ⊎ (IsAbstention a ⊎ IsGrounded a)) × IsLogged question a l

pub outcome-Names :
    (text : Text) (hits : List Hit)
    → let b = bind text hits in
      ((b.abstained ≡ true) × (b.answer ≡ abstention) × (b.citations ≡ []))
        ⊎ ((b.abstained ≡ false)
            × (is_empty b.citations ≡ false)
            × All (Names hits) b.citations
            × IsAscending 0 (markers b.citations))
      → All (Names hits) b.citations
outcome-Names text hits (inl (abstains, said, bare)) = rw bare tt
outcome-Names text hits (inr (answers, some_cited, named, ascending)) = named

module _ (question : Text) (thread : List Turn) (complete : Model)
    (search : Text → Option Found) where
  grounded_from-IsAnswer :
      (scoped : Bool) (found : Found) (system prompt : Text) (o : Option Completion)
      → complete system prompt ≡ o
      → IsAnswer question scoped complete search (grounded_from question found o)
  grounded_from-IsAnswer scoped found system prompt none e = inr (system, prompt, e)
  grounded_from-IsAnswer scoped found system prompt (some c) e =
      let cited = (bind c.text found.hits).citations in
      let outcome = bind_outcomes c.text found.hits in
      (
        inr outcome,
        (
          refl,
          refl,
          cited_rows-passages found.hits cited,
          cited_rows-IsRanked found.hits cited (outcome-Names c.text found.hits outcome),
        ),
      )

  answer_from-IsAnswer :
      (scoped : Bool) (query : Text) (o : Option Found)
      → search query ≡ o
      → IsAnswer question scoped complete search (answer_from question thread complete o)
  answer_from-IsAnswer scoped query none e = inl (query, e)
  answer_from-IsAnswer scoped query (some found) e = elim (Bool-cases (is_empty found.hits)) [
    | inl bare ↦ simp bare (inr (inl (refl, refl, refl)), (refl, refl, refl, tt))
    | inr full ↦ simp full (grounded_from-IsAnswer scoped found _ _ _ refl)
  ]

  conversational_from-IsAnswer :
      (system prompt : Text) (o : Option Completion)
      → complete system prompt ≡ o
      → IsAnswer question false complete search (conversational_from question o)
  conversational_from-IsAnswer system prompt none e = inr (system, prompt, e)
  conversational_from-IsAnswer system prompt (some c) e =
      (inl (refl, (refl, refl, refl)), (refl, refl, refl, tt))

  answer_as-IsAnswer :
      (intent : Option Text) (scoped : Bool)
      → IsAnswer question scoped complete search
          (answer_as intent scoped question thread complete search)
  answer_as-IsAnswer (some query) scoped =
      answer_from-IsAnswer scoped (or_message query question) _ refl
  answer_as-IsAnswer none true = answer_from-IsAnswer true question _ refl
  answer_as-IsAnswer none false = conversational_from-IsAnswer _ _ _ refl

-- Whatever the search finds and the model writes, in its routing as in its answer, a question has one
-- of four ends. It is answered from the conversation, with nothing consulted and nothing cited, which
-- never happens where documents were named; or by the abstention sentence, with nothing cited; or from
-- the passages, citing at least one, each the passage that was consulted under its number; or not at
-- all, and then the search or the model failed. What is answered is logged, with the passages that it
-- cites, each under a rank that a hit of it has among those consulted.
pub answer_outcomes :
    (question : Text) (scoped : Bool) (history : List Turn) (complete : Model)
    (search : Text → Option Found)
    → IsAnswer question scoped complete search (answer question scoped history complete search)
unfolding answer
answer_outcomes question scoped history complete search =
    answer_as-IsAnswer question (bounded history) complete search
      (resolve (bounded history) question complete).query scoped
