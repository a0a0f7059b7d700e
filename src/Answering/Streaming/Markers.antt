-- ===== src/Answering/Streaming/Markers.antt =====
-- What the filter does to one marker: it is held back whole, and resolved when it closes.
use zenith_enterprise.Common.{
  ℕ, ◌+◌, ◌≤◌, ◌≡◌, refl, true, false, [], ◌∷◌, ◌++◌, append_assoc, append-nil, length, arith, all,
  ◌&&◌, length-append,
}
use zenith_enterprise.Common.Text.{Text, is_empty, all-append}
use zenith_enterprise.Answering.Streaming.Chunks.{feed-append}
use zenith_enterprise.Answering.Streaming.{
  MarkerFilter, feed_character, feed, resolve, plausible, max_marker, is_plausible,
}

plausible-append :
    (b : Text) (c : ℕ)
    → is_empty b ≡ false
    → plausible (b ++ c ∷ []) ≡ (plausible b && is_plausible c)
plausible-append [] c h = cc
plausible-append (d ∷ b) c h = ground (arith, all-append is_plausible b (c ∷ []))

feed_plausible_character :
    (f : MarkerFilter) (c : ℕ)
    → is_empty f.buffer ≡ false
    → is_plausible c ≡ true
    → plausible f.buffer ≡ true
    → length f.buffer + 1 ≤ max_marker
    → feed_character f c ≡ (record f { buffer = f.buffer ++ c ∷ [] }, [])
unfolding feed_character
feed_plausible_character f c e p q room =
    ground (arith, plausible-append f.buffer c e, length-append f.buffer (c ∷ []))

is_empty-append : (s : Text) (c : ℕ) → is_empty (s ++ c ∷ []) ≡ false
is_empty-append [] c = refl
is_empty-append (d ∷ s) c = refl

-- Characters that may belong to a marker are held back while there is room.
pub feed-plausible :
    (s : Text) (f : MarkerFilter)
    → is_empty f.buffer ≡ false
    → all is_plausible s ≡ true
    → plausible f.buffer ≡ true
    → length f.buffer + length s ≤ max_marker
    → feed f s ≡ (record f { buffer = f.buffer ++ s }, [])
unfolding feed
feed-plausible [] f e p q room = rw append-nil
feed-plausible (c ∷ s) f e p q room =
    let one = feed_plausible_character f c e (ground (arith, p)) q (omega arith) in
    let next : MarkerFilter = record f { buffer = f.buffer ++ c ∷ [] } in
    let rest =
      feed-plausible s next (is_empty-append f.buffer c) (ground (arith, p))
        (ground (arith, plausible-append f.buffer c e, p, q))
        (omega (arith, length-append f.buffer (c ∷ []))) in
    rw (one, rest, append_assoc)

-- What `resolve` reads and changes.
resolve_fields :
    (f : MarkerFilter) (b m : Text)
    → ((resolve (record f { buffer = b }) m).1 ≡ (resolve f m).1)
      × ((resolve (record f { buffer = b }) m).0 ≡ record (resolve f m).0 { buffer = b })
      × ((resolve f m).0.valid ≡ f.valid)
unfolding resolve
resolve_fields f b m = ground arith

pub open_marker :
    (f : MarkerFilter)
    → f.buffer ≡ []
    → feed_character f b'[' ≡ (record f { buffer = b'[' ∷ [] }, [])
unfolding feed_character
open_marker f e = ground arith

close_marker :
    (f : MarkerFilter) (b : Text)
    → is_empty b ≡ false
    → let m = b ++ b']' ∷ [] in
      feed_character (record f { buffer = b }) b']' ≡ (
        record (resolve f m).0 { buffer = []; swallow_space = is_empty (resolve f m).1 },
        (resolve f m).1,
      )
unfolding feed_character
close_marker f b e = ground (arith, resolve_fields f b (b ++ b']' ∷ []))

-- From an empty buffer a bracket, at most 23 characters of a marker and the closing bracket are
-- replaced by what `resolve` makes of them.
pub feed_marker :
    (body : Text) (f : MarkerFilter)
    → f.buffer ≡ []
    → all is_plausible body ≡ true
    → length body + 1 ≤ max_marker
    → let m = b'[' ∷ body ++ b']' ∷ [] in
      feed f m ≡ (
        record (resolve f m).0 { buffer = []; swallow_space = is_empty (resolve f m).1 },
        (resolve f m).1,
      )
unfolding feed
feed_marker body f e p room =
    let held = feed-plausible body (record f { buffer = b'[' ∷ [] }) refl p refl (omega arith) in
    rw (
      open_marker f e,
      feed-append body (b']' ∷ []) (record f { buffer = b'[' ∷ [] }),
      held,
      close_marker f (b'[' ∷ body) refl,
      append-nil,
    )
