-- ===== src/Throttle/Promises.antt =====
-- What the answer of `would_allow` is worth.
use zenith_enterprise.Common.{ℕ, ◌<◌, ◌≡◌, true, List, [], ◌∷◌, ◌++◌, ◌⊎◌, length, arith, ltb, not}
use zenith_enterprise.Throttle.Dict.{get, get-put_self, IsDict, put-IsDict, get-keep_if}
use zenith_enterprise.Throttle.{Limiter, allow, would_allow, evict, drop_stale, all_stale}
use zenith_enterprise.Throttle.Bounds.{evict-fields}
use zenith_enterprise.Throttle.Window.{admit-get, length-drop_stale}

evict-get :
    (l : Limiter) (now k : ℕ)
    → IsDict l.hits
    → (get k (evict l now).hits ≡ get k l.hits) ⊎ (get k (evict l now).hits ≡ [])
unfolding evict
evict-get l now k h = ground (arith, get-keep_if (λ e. not (all_stale l.window now e.1)) k l.hits h)

pub would_allow-get :
    (l : Limiter) (key now : ℕ)
    → (get key (would_allow l key now).0.hits ≡ drop_stale l.window now (get key l.hits))
      × ((would_allow l key now).1
          ≡ ltb (length (drop_stale l.window now (get key l.hits))) l.limit)
unfolding would_allow
would_allow-get l key now =
    ground (arith, get-put_self key (drop_stale l.window now (get key l.hits)) l.hits)

would_allow_fields :
    (l : Limiter) (key now : ℕ)
    → ((would_allow l key now).0.limit ≡ l.limit)
      × ((would_allow l key now).0.window ≡ l.window)
      × ((would_allow l key now).0.max_keys ≡ l.max_keys)
unfolding would_allow
would_allow_fields l key now = ground arith

would_allow-IsDict :
    (l : Limiter) (key now : ℕ) → IsDict l.hits → IsDict (would_allow l key now).0.hits
unfolding would_allow
would_allow-IsDict l key now h =
    ground (arith, put-IsDict key (drop_stale l.window now (get key l.hits)) l.hits h)

-- A call that `would_allow` promises is admitted whenever it is made next, also where `allow` has to
-- evict first; and it is recorded as the newest hit of its key.
pub would_allow_promises :
    (l : Limiter) (key now later : ℕ)
    → IsDict l.hits
    → (would_allow l key now).1 ≡ true
    → ((allow (would_allow l key now).0 key later).1 ≡ true)
      × ((recent : List ℕ) × (get key (allow (would_allow l key now).0 key later).0.hits
            ≡ recent ++ later ∷ [])
          × (length recent < l.limit))
unfolding allow
would_allow_promises l key now later d h =
    let asked = (would_allow l key now).0 in
    let kept = get key (evict asked later).hits in
    let facts = would_allow-get l key now in
    let same = would_allow_fields l key now in
    let evicted = evict-fields asked later in
    let small : length (drop_stale l.window later kept) < l.limit = ground (
      arith,
      facts,
      evict-get asked later key (would_allow-IsDict l key now d),
      length-drop_stale l.window later kept,
    ) in
    let result = admit-get (evict asked later) key later in
    (
      ground (arith, small, same, evicted, result),
      (drop_stale l.window later kept, ground (arith, small, same, evicted, result), small),
    )
