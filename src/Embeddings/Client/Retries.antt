-- ===== src/Embeddings/Client/Retries.antt =====
-- What the client makes of the server's replies.
use zenith_enterprise.Common.{
  ℕ, zero, suc, ◌<◌, ◌≡◌, refl, ap, ◌∙◌, Bool, true, false, List, [], ◌∷◌, ◌++◌, ltb, if◌then◌else◌,
  map, length, All, arith,
}
use zenith_enterprise.Common.Text.{Text}
use zenith_enterprise.Embeddings.Client.{
  Profile, plan_batches, Reply, vectors, status, unreachable, Result, embedded, rejected, no_answer,
  send_batch, embed_batches, embed, default_attempts,
}
use zenith_enterprise.Embeddings.Client.Batches.{concat, plan_batches-IsLegal}

-- A server whose replies are written down beforehand.
abbrev pub scripted {ℓ} : {V : Type ℓ} → List (Reply V) → List Text → List (Reply V) × Reply V
scripted [] batch = ([], unreachable)
scripted (r ∷ rs) batch = (rs, r)

-- A failure that is worth another attempt.
abbrev pub is_passing {ℓ} : {V : Type ℓ} → Reply V → Bool
is_passing (vectors vs) = false
is_passing (status code) = if ltb code 500 then false else true
is_passing unreachable = true

-- What a reply that is not passing makes of the batch.
abbrev pub decided {ℓ} : {V : Type ℓ} → Reply V → Result V
decided (vectors vs) = embedded vs
decided (status code) = rejected code
decided unreachable = no_answer

-- Passing failures are waited out as long as attempts are left: the first reply that is not one
-- decides, after no further request. Where every attempt fails, the batch has no answer.
pub send_batch_decides {ℓ} :
    {V : Type ℓ} (attempts : ℕ) (failures : List (Reply V)) (r : Reply V) (rest : List (Reply V))
    (batch : List Text)
    → All (λ f. is_passing f ≡ true) failures
    → is_passing r ≡ false
    → length failures < attempts
    → send_batch scripted attempts (failures ++ r ∷ rest) batch ≡ (rest, decided r)
unfolding send_batch
send_batch_decides zero failures r rest batch h k l = absurd (omega arith)
send_batch_decides (suc n) [] (vectors vs) rest batch h k l = refl
send_batch_decides (suc n) [] (status code) rest batch h k l = ground arith
send_batch_decides (suc n) [] unreachable rest batch h k l = absurd (ground arith)
send_batch_decides (suc n) (vectors vs ∷ failures) r rest batch h k l = absurd (ground (arith, h.0))
send_batch_decides (suc n) (status code ∷ failures) r rest batch h k l =
    ground (arith, h.0, send_batch_decides n failures r rest batch h.1 k)
send_batch_decides (suc n) (unreachable ∷ failures) r rest batch h k l =
    send_batch_decides n failures r rest batch h.1 k (omega arith)

module _ {ℓ κ} {W : Type ℓ} {V : Type κ} (post : W → List Text → W × Reply V) (f : Text → V) where
  map-append : (xs ys : List Text) → map f (xs ++ ys) ≡ map f xs ++ map f ys
  map-append [] ys = refl
  map-append (x ∷ xs) ys = ap (◌∷◌ (f x)) (map-append xs ys)

  send_batch-answers :
      (n : ℕ) (w : W) (batch : List Text)
      → (post w batch).1 ≡ vectors (map f batch)
      → (send_batch post (suc n) w batch).1 ≡ embedded (map f batch)
  unfolding send_batch
  send_batch-answers n w batch h = rw (send_batch, h) refl

  embed_batches-answers :
      (w : W) (batches : List (List Text))
      → ((w : W) (batch : List Text) → (post w batch).1 ≡ vectors (map f batch))
      → (embed_batches post w batches).1 ≡ embedded (map f (concat batches))
  unfolding embed_batches send_batch
  embed_batches-answers w [] h = refl
  embed_batches-answers w (batch ∷ batches) h =
      let next = (send_batch post default_attempts w batch).0 in
      rw
        (
          send_batch-answers 2 w batch (h w batch),
          embed_batches-answers next batches h,
          map-append batch (concat batches),
        )
        refl

-- A server that answers every request with one vector for each text: `embed` returns one vector for
-- each text, in the order of the texts, however they are cut into batches.
pub embed_answers {ℓ κ} :
    {W : Type ℓ} {V : Type κ} (post : W → List Text → W × Reply V) (f : Text → V) (p : Profile)
    (w : W) (texts : List Text)
    → ((w : W) (batch : List Text) → (post w batch).1 ≡ vectors (map f batch))
    → 0 < p.max_client_batch_size
    → (embed post p w texts).1 ≡ embedded (map f texts)
embed_answers post f p w texts honest size =
    embed_batches-answers post f w (plan_batches p texts) honest
    ∙ ap (λ ts. embedded (map f ts)) (plan_batches-IsLegal p texts size).0
