-- ===== src/Answering/Streaming/Escapes.antt =====
-- Two ways in which a marker passes the filter unchecked.
use zenith_enterprise.Common.{
  ℕ, ◌+◌, ◌≤◌, ◌≡◌, refl, Bool, true, false, List, [], ◌∷◌, ◌++◌, append_assoc, length, arith, not,
  all, length-append, ◌==◌,
}
use zenith_enterprise.Common.Text.{Text, is_empty}
use zenith_enterprise.Answering.Streaming.Chunks.{feed-append}
use zenith_enterprise.Answering.Streaming.Markers.{open_marker, feed-plausible}
use zenith_enterprise.Answering.Streaming.{
  MarkerFilter, init, feed_character, feed, max_marker, is_plausible,
}

abbrev pub no_bracket : Text → Bool
no_bracket = all λ c. not (c == b'[')

-- Without an opening bracket every character passes at once.
feed_prose :
    (s : Text) (f : MarkerFilter)
    → f.buffer ≡ []
    → f.swallow_space ≡ false
    → no_bracket s ≡ true
    → feed f s ≡ (f, s)
unfolding feed feed_character
feed_prose [] f e w h = refl
feed_prose (c ∷ s) f e w h = ground (arith, feed_prose s f e w)

-- A doubled bracket switches the check off: whatever follows, up to the next bracket that opens,
-- reaches the client as the model wrote it, a marker of a number that names no passage included, and
-- nothing is counted.
pub double_bracket_escapes :
    (s : Text) (valid : List ℕ)
    → no_bracket s ≡ true
    → feed (init valid) (b'[' ∷ b'[' ∷ s) ≡ (init valid, b'[' ∷ b'[' ∷ s)
unfolding feed feed_character
double_bracket_escapes s valid h = rw (feed_prose s (init valid) refl refl h)

overflow :
    (f : MarkerFilter) (c : ℕ)
    → is_empty f.buffer ≡ false
    → is_plausible c ≡ true
    → max_marker ≤ length f.buffer
    → feed_character f c ≡ (record f { buffer = [] }, f.buffer ++ c ∷ [])
unfolding feed_character
overflow f c e q room = ground (arith, length-append f.buffer (c ∷ []))

-- So does the length of a list: a marker whose inside has 24 characters or more is given up at the
-- 24th, and reaches the client as the model wrote it, and nothing is counted.
pub long_marker_escapes :
    (held rest : Text) (last : ℕ) (valid : List ℕ)
    → length held + 1 ≡ max_marker
    → all is_plausible held ≡ true
    → is_plausible last ≡ true
    → no_bracket rest ≡ true
    → let answer = b'[' ∷ (held ++ (last ∷ rest)) in feed (init valid) answer ≡ (init valid, answer)
unfolding feed
long_marker_escapes held rest last valid room p q h =
    let full : MarkerFilter = record (init valid) { buffer = b'[' ∷ held } in
    rw (
      open_marker (init valid) refl,
      feed-append held (last ∷ rest) (record (init valid) { buffer = b'[' ∷ [] }),
      feed-plausible held (record (init valid) { buffer = b'[' ∷ [] }) refl p refl (omega arith),
      overflow full last refl q (omega arith),
      feed_prose rest (init valid) refl refl h,
      append_assoc held (last ∷ []) rest,
    )
