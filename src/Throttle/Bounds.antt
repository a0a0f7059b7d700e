-- ===== src/Throttle/Bounds.antt =====
-- How many keys the limiter remembers.
use zenith_enterprise.Common.{
  ℕ, suc, ◌+◌, ◌≤◌, ◌<◌, ◌≡◌, false, List, [], ◌∷◌, ◌++◌, arith, if◌then◌else◌,
}
use zenith_enterprise.Throttle.Dict.{Entries, get, has, put, length-put}
use zenith_enterprise.Throttle.{Limiter, tracked_keys, admit, allow, would_allow, evict, drop_stale}

evict-lt : (l : Limiter) (now : ℕ) → 0 < l.max_keys → tracked_keys (evict l now) < l.max_keys
unfolding evict
evict-lt l now h = ground arith

pub evict-fields :
    (l : Limiter) (now : ℕ)
    → ((evict l now).max_keys ≡ l.max_keys)
      × ((evict l now).limit ≡ l.limit)
      × ((evict l now).window ≡ l.window)
unfolding evict
evict-fields l now = ground arith

put_twice : (k : ℕ) (v w : List ℕ) (d : Entries) → put k v (put k w d) ≡ put k v d
put_twice k v w [] = ground arith
put_twice k v w (e ∷ d) = ground (arith, put_twice k v w d)

pub admit_tracked :
    (l : Limiter) (key now : ℕ)
    → tracked_keys (admit l key now).0
      ≡ (if has key l.hits then tracked_keys l else suc (tracked_keys l))
unfolding admit
admit_tracked l key now =
    let recent = drop_stale l.window now (get key l.hits) in
    ground (
      arith,
      put_twice key (recent ++ now ∷ []) recent l.hits,
      length-put key recent l.hits,
      length-put key (recent ++ now ∷ []) l.hits,
    )

-- `allow` evicts before it remembers, so whatever was remembered before, it leaves at most
-- `max_keys` keys behind.
pub allow_tracked :
    (l : Limiter) (key now : ℕ) → 0 < l.max_keys → tracked_keys (allow l key now).0 ≤ l.max_keys
unfolding allow
allow_tracked l key now h = ground (arith, evict-lt l now h, admit_tracked (evict l now) key now)

-- `would_allow` does not evict: asked about a key that it has not seen, it remembers one more,
-- however many it remembers already.
pub would_allow_tracked :
    (l : Limiter) (key now : ℕ)
    → has key l.hits ≡ false
    → tracked_keys (would_allow l key now).0 ≡ tracked_keys l + 1
unfolding would_allow
would_allow_tracked l key now h =
    ground (arith, length-put key (drop_stale l.window now (get key l.hits)) l.hits)
