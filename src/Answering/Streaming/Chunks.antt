-- ===== src/Answering/Streaming/Chunks.antt =====
-- How the model cuts its answer into tokens makes no difference to what the client receives.
use zenith_enterprise.Common.{
  ℕ, ◌≤◌, ◌≡◌, refl, true, List, [], ◌∷◌, ◌++◌, append_assoc, append-nil, length,
}
use zenith_enterprise.Common.Text.{Text}
use zenith_enterprise.Answering.Streaming.{
  MarkerFilter, init, feed_character, feed, flush, filtered, filter_from, unfinished, yielded,
  plausible, max_marker,
}

-- Feeding two chunks is feeding their concatenation: the same filter, and the same text.
pub feed-append :
    (s t : Text) (f : MarkerFilter)
    → feed f (s ++ t) ≡ ((feed (feed f s).0 t).0, (feed f s).1 ++ (feed (feed f s).0 t).1)
unfolding feed
feed-append [] t f = refl
feed-append (c ∷ s) t f = simp (feed-append s t (feed_character f c).0, append_assoc)

abbrev pub concat : List Text → Text
concat [] = []
concat (s ∷ ss) = s ++ concat ss

concat-yielded : (s : Text) (ss : List Text) → concat (yielded s ss) ≡ s ++ concat ss
concat-yielded [] ss = refl
concat-yielded (c ∷ s) ss = refl

filter_from-concat :
    (tokens : List Text) (f : MarkerFilter)
    → concat (filter_from f tokens)
      ≡ (feed f (concat tokens)).1 ++ (feed f (concat tokens)).0.buffer
unfolding filter_from feed flush
filter_from-concat [] f = rw (concat-yielded f.buffer [], append-nil)
filter_from-concat (token ∷ tokens) f = simp (
  concat-yielded,
  filter_from-concat tokens (feed f token).0,
  feed-append token (concat tokens) f,
  append_assoc,
)

-- However the answer arrives, the client receives the concatenation of what it would receive if the
-- whole answer arrived at once, followed by a marker that was never closed.
pub filtered-concat :
    (tokens : List Text) (valid : List ℕ)
    → concat (filtered tokens valid)
      ≡ (feed (init valid) (concat tokens)).1 ++ (feed (init valid) (concat tokens)).0.buffer
unfolding filtered
filtered-concat tokens valid = filter_from-concat tokens (init valid)

pub unfinished-concat :
    (tokens : List Text) (f : MarkerFilter)
    → concat (unfinished f tokens) ≡ (feed f (concat tokens)).1
unfolding feed
unfinished-concat [] f = refl
unfinished-concat (token ∷ tokens) f =
    simp (
      concat-yielded,
      unfinished-concat tokens (feed f token).0,
      feed-append token (concat tokens) f,
    )

-- What is held back: nothing, or a bracket and at most 23 more characters that may still be a marker.
pub record IsBounded (f : MarkerFilter) : Type 0 where
  pub short : length f.buffer ≤ max_marker
  pub candidate : plausible f.buffer ≡ true
