-- ===== src/Embeddings/Client.antt =====
-- `TeiClient` of backend/app/features/embeddings/client.py: batches within the server's two limits,
-- and the retries of one batch. The server is a parameter `post`, which may change a state of its own
-- and says what came of a request; the pauses between attempts are left out.
mod Batches
mod Retries
mod Tests
use zenith_enterprise.Common.{
  ℕ, zero, suc, ◌+◌, ◌/◌, ◌<◌, Bool, true, false, List, [], ◌∷◌, ◌++◌, ltb, leb, if◌then◌else◌,
  ◌&&◌, ◌||◌, not, length,
}
use zenith_enterprise.Common.Text.{Text, is_empty}

-- The two limits of the profile that the client reads.
pub record Profile : Type 0 where
  pub max_batch_tokens : ℕ
  pub max_client_batch_size : ℕ

-- `_estimate_tokens`
abbrev pub estimate_tokens : Text → ℕ
estimate_tokens text = length text / 3 + 1

-- `over_budget or over_count`
abbrev pub must_yield : Profile → List Text → ℕ → Text → Bool
must_yield p batch tokens text =
    (not (is_empty batch) && ltb p.max_batch_tokens (tokens + estimate_tokens text))
    || leb p.max_client_batch_size (length batch)

-- The loop of `plan_batches`, with the batch that is being filled.
unfoldable pub fill : Profile → List Text → ℕ → List Text → List (List Text)
fill p batch tokens [] = if is_empty batch then [] else batch ∷ []
fill p batch tokens (text ∷ texts) =
    let fresh = fill p (text ∷ []) (estimate_tokens text) texts in
    let longer = fill p (batch ++ text ∷ []) (tokens + estimate_tokens text) texts in
    if must_yield p batch tokens text then batch ∷ fresh else longer

abbrev pub plan_batches : Profile → List Text → List (List Text)
plan_batches p texts = fill p [] 0 texts

-- What comes of one request: the vectors, an error status, or one of `RETRYABLE`.
pub data Reply {ℓ} (V : Type ℓ) : Type ℓ where
  vectors : List V → Reply V
  status : ℕ → Reply V
  unreachable : Reply V

-- What comes of a batch: `rejected` and `no_answer` are the two messages of `EmbeddingServiceError`.
pub data Result {ℓ} (V : Type ℓ) : Type ℓ where
  embedded : List V → Result V
  rejected : ℕ → Result V
  no_answer : Result V

abbrev pub default_attempts : ℕ
default_attempts = 3

module _ {ℓ κ} {W : Type ℓ} {V : Type κ} (post : W → List Text → W × Reply V) where
  unfoldable pub send_batch : ℕ → W → List Text → W × Result V
  send_batch zero w batch = (w, no_answer)
  send_batch (suc attempts) w batch =
      let w' = (post w batch).0 in
      let again = send_batch attempts w' batch in
      elim (post w batch).1 [
        | vectors vs ↦ (w', embedded vs)
        | status code ↦ if ltb code 500 then (w', rejected code) else again
        | unreachable ↦ again
      ]

  abbrev pub with_vectors : List V → Result V → Result V
  with_vectors vs (embedded us) = embedded (vs ++ us)
  with_vectors vs (rejected code) = rejected code
  with_vectors vs no_answer = no_answer

  -- The loop of `embed`: the first batch that fails ends it.
  unfoldable pub embed_batches : W → List (List Text) → W × Result V
  embed_batches w [] = (w, embedded [])
  embed_batches w (batch ∷ batches) =
      let sent = send_batch default_attempts w batch in
      let rest = embed_batches sent.0 batches in
      elim sent.1 [
        | embedded vs ↦ (rest.0, with_vectors vs rest.1)
        | rejected code ↦ (sent.0, rejected code)
        | no_answer ↦ (sent.0, no_answer)
      ]

  abbrev pub embed : Profile → W → List Text → W × Result V
  embed p w texts = embed_batches w (plan_batches p texts)

  abbrev pub embed_query : W → Text → W × Result V
  embed_query w question = send_batch 1 w (question ∷ [])
