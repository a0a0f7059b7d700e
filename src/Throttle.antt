-- ===== src/Throttle.antt =====
-- `SlidingWindowLimiter` of backend/app/features/auth/throttle.py, and the two limiters in front of
-- a query (backend/app/features/query/throttle.py). The injected clock is an argument `now`, in
-- ticks; it is monotonic, so `now - t` never has to be negative. Keys are compared only.
pub mod Dict
mod Bounds
mod Window
mod Promises
pub mod Query
mod Tests
use zenith_enterprise.Common.{
  ℕ, suc, ◌+◌, ◌-◌, Bool, true, false, List, [], ◌∷◌, ◌++◌, ltb, leb, if◌then◌else◌, length,
  keep_if, not,
}
use Dict.{Entries, get, put}

pub record Limiter : Type 0 where
  pub limit : ℕ
  pub window : ℕ
  pub max_keys : ℕ
  pub hits : Entries

abbrev pub init : ℕ → ℕ → ℕ → Limiter
init limit window max_keys = record {
  limit = limit;
  window = window;
  max_keys = max_keys;
  hits = [];
}

abbrev pub reset : Limiter → Limiter
reset l = record l { hits = [] }

abbrev pub tracked_keys : Limiter → ℕ
tracked_keys l = length l.hits

-- `now - hits[0] > self._window`
abbrev pub is_stale : ℕ → ℕ → ℕ → Bool
is_stale window now t = ltb window (now - t)

-- The `while` of `_fresh`: the oldest hits stand first.
pub drop_stale : ℕ → ℕ → List ℕ → List ℕ
drop_stale window now [] = []
drop_stale window now (t ∷ ts) = if is_stale window now t then drop_stale window now ts else t ∷ ts

-- `_fresh`: the limiter with the key's deque purged, and that deque.
pub fresh : Limiter → ℕ → ℕ → Limiter × List ℕ
fresh l key now =
    let recent = drop_stale l.window now (get key l.hits) in
    (record l { hits = put key recent l.hits }, recent)

-- `not hits or now - hits[-1] > self._window`
all_stale : ℕ → ℕ → List ℕ → Bool
all_stale window now [] = true
all_stale window now (t ∷ []) = is_stale window now t
all_stale window now (t ∷ u ∷ ts) = all_stale window now (u ∷ ts)

-- `_evict`: keys are unique, so deleting the stale ones keeps the entries that are not stale.
pub evict : Limiter → ℕ → Limiter
unfolding all_stale
evict l now =
    if ltb (length l.hits) l.max_keys
    then l
    else let kept = keep_if (λ e. not (all_stale l.window now e.1)) l.hits in
      if leb l.max_keys (length kept) then record l { hits = [] } else record l { hits = kept }

-- `allow` below its call of `_evict`.
pub admit : Limiter → ℕ → ℕ → Limiter × Bool
unfolding fresh
admit l key now =
    let (l', recent) = fresh l key now in
    if leb l'.limit (length recent)
    then (l', false)
    else (record l' { hits = put key (recent ++ now ∷ []) l'.hits }, true)

pub allow : Limiter → ℕ → ℕ → Limiter × Bool
allow l key now = admit (evict l now) key now

pub would_allow : Limiter → ℕ → ℕ → Limiter × Bool
unfolding fresh
would_allow l key now = let (l', recent) = fresh l key now in (l', ltb (length recent) l'.limit)
