-- ===== src/Embeddings/Client/Tests.antt =====
-- Three texts in batches of two, and a server that is slow to start.
use zenith_enterprise.Common.{ℕ, ◌≡◌, ◌+◌, refl, List, [], ◌∷◌, arith, map, All, length}
use zenith_enterprise.Common.Text.{Text, codes}
use zenith_enterprise.Embeddings.Client.{
  Profile, fill, plan_batches, Reply, vectors, status, embedded, no_answer, send_batch, embed,
  embed_query,
}
use zenith_enterprise.Embeddings.Client.Batches.{concat, IsLegal, plan_batches-IsLegal}
use zenith_enterprise.Embeddings.Client.Retries.{scripted, embed_answers}

abbrev profile : Profile
profile = record { max_batch_tokens = 5; max_client_batch_size = 2 }

abbrev texts : List Text
texts = codes "abc" ∷ codes "de" ∷ codes "fghijklmnopqrs" ∷ codes "t" ∷ []

batches_of_texts :
    plan_batches profile texts
    ≡ (codes "abc" ∷ codes "de" ∷ []) ∷ (codes "fghijklmnopqrs" ∷ []) ∷ (codes "t" ∷ []) ∷ []
unfolding fill
batches_of_texts = refl

plan_batches-IsLegal_example :
    (concat (plan_batches profile texts) ≡ texts)
    × All (IsLegal profile) (plan_batches profile texts)
plan_batches-IsLegal_example = plan_batches-IsLegal profile texts (omega arith)

query_is_not_retried :
    embed_query {V = ℕ} scripted (status 503 ∷ vectors (7 ∷ []) ∷ []) (codes "abc")
    ≡ (vectors (7 ∷ []) ∷ [], no_answer)
unfolding send_batch
query_is_not_retried = refl

abbrev honest : ℕ → List Text → ℕ × Reply ℕ
honest w batch = (w + 1, vectors (map length batch))

embed_answers_example : (embed honest profile 0 texts).1 ≡ embedded (map length texts)
embed_answers_example = embed_answers honest length profile 0 texts (λ w batch. refl) (omega arith)
