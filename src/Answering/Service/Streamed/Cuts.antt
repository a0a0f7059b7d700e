-- ===== src/Answering/Service/Streamed/Cuts.antt =====
-- How the model's answer is cut into tokens does not matter.
use zenith_enterprise.Common.{
  ℕ, ◌≡◌, inl, inr, refl, ap, sym, ◌∙◌, Bool, true, false, Option, none, some, List, ◌++◌,
  Bool-cases,
}
use zenith_enterprise.Common.Text.{Text, is_empty}
use zenith_enterprise.Answering.Streaming.{init, feed, filtered}
use zenith_enterprise.Answering.Streaming.Chunks.{concat, unfinished-concat, filtered-concat}
use zenith_enterprise.Answering.Conversation.{Turn, bounded, rendered}
use zenith_enterprise.Answering.Prompt as Prompt
use zenith_enterprise.Answering.Routing.{Model, resolve}
use zenith_enterprise.Answering.Service.{Found, Usage}
use zenith_enterprise.Answering.Service.Streamed.{
  Tokens, Provider, Streamed, range, unfinished, bound_again, streamed_texts, streamed_tokens,
  stream_from, stream_as, stream,
}

-- Two streams of the same text, which end alike.
abbrev pub Alike : Tokens → Tokens → Type 0
Alike s t = (concat s.tokens ≡ concat t.tokens) × (s.is_finished ≡ t.is_finished)

-- The caller reads the same text, and receives the same result.
abbrev pub Agree : Streamed → Streamed → Type 0
Agree s t = (concat s.texts ≡ concat t.texts) × (s.result ≡ t.result)

texts_agree :
    (tokens others : List Text) (valid : List ℕ)
    → concat tokens ≡ concat others
    → concat (filtered tokens valid) ≡ concat (filtered others valid)
texts_agree tokens others valid e =
    filtered-concat tokens valid
    ∙ ap (λ text. (feed (init valid) text).1 ++ (feed (init valid) text).0.buffer) e
    ∙ sym (filtered-concat others valid)

begun_agree :
    (tokens others : List Text) (valid : List ℕ)
    → concat tokens ≡ concat others
    → concat (unfinished (init valid) tokens) ≡ concat (unfinished (init valid) others)
begun_agree tokens others valid e =
    unfinished-concat tokens (init valid)
    ∙ ap (λ text. (feed (init valid) text).1) e
    ∙ sym (unfinished-concat others (init valid))

abbrev pub provider_of : Model → Text → Usage → (Text → Text → Tokens) → Provider
provider_of complete model usage stream = record {
  complete = complete;
  stream = stream;
  model = model;
  last_usage = usage;
}

module _ (question : Text) (thread : List Turn) (complete : Model) (model : Text) (usage : Usage)
    (s t : Text → Text → Tokens)
    (alike : (system prompt : Text) → Alike (s system prompt) (t system prompt)) where
  streamed_texts-Agree :
      (found : Found) (texts others : List Text)
      → concat texts ≡ concat others
      → Agree
          (streamed_texts question (provider_of complete model usage s) found texts)
          (streamed_texts question (provider_of complete model usage t) found others)
  streamed_texts-Agree found texts others e = (
    e,
    ap (λ text. some (bound_again question (provider_of complete model usage s) found text)) e,
  )

  streamed_tokens-Agree :
      (found : Found) (system prompt : Text)
      → Agree
          (streamed_tokens question (provider_of complete model usage s) found (s system prompt))
          (streamed_tokens question (provider_of complete model usage t) found (t system prompt))
  streamed_tokens-Agree found system prompt =
      let (same, ends) = alike system prompt in
      let valid = range 1 found.hits in
      let sent = (s system prompt).tokens in
      let others = (t system prompt).tokens in
      elim (Bool-cases (s system prompt).is_finished) [
        | inl done ↦
            simp (done, sym ends ∙ done)
              (streamed_texts-Agree found (filtered sent valid) (filtered others valid)
                (texts_agree sent others valid same))
        | inr broken ↦ simp (broken, sym ends ∙ broken) (begun_agree sent others valid same, refl)
      ]

  stream_from-Agree :
      (o : Option Found)
      → Agree
          (stream_from question thread (provider_of complete model usage s) o)
          (stream_from question thread (provider_of complete model usage t) o)
  stream_from-Agree none = (refl, refl)
  stream_from-Agree (some found) = elim (Bool-cases (is_empty found.hits)) [
    | inl bare ↦ simp bare (refl, refl)
    | inr full ↦ simp full (
        streamed_tokens-Agree found Prompt.system
          (Prompt.build question found.hits (rendered thread)))
  ]

  stream_as-Agree :
      (intent : Option Text) (scoped : Bool) (search : Text → Option Found)
      → Agree
          (stream_as intent scoped question thread (provider_of complete model usage s) search)
          (stream_as intent scoped question thread (provider_of complete model usage t) search)
  stream_as-Agree (some query) scoped search = stream_from-Agree _
  stream_as-Agree none true search = stream_from-Agree _
  stream_as-Agree none false search = (refl, refl)

-- However the model's answers are cut into tokens, the caller of a streamed question reads the same
-- text and receives the same result, its citations and its row of the log among it: of two providers
-- that differ only in the cuts, wherever the streams end or break.
pub stream_cuts :
    (question : Text) (scoped : Bool) (history : List Turn) (complete : Model) (model : Text)
    (usage : Usage) (search : Text → Option Found) (s t : Text → Text → Tokens)
    → ((system prompt : Text) → Alike (s system prompt) (t system prompt))
    → Agree
        (stream question scoped history (provider_of complete model usage s) search)
        (stream question scoped history (provider_of complete model usage t) search)
stream_cuts question scoped history complete model usage search s t alike =
    stream_as-Agree question (bounded history) complete model usage s t alike
      (resolve (bounded history) question complete).query scoped search
