-- ===== src/Throttle/Tests.antt =====
-- The limiter at concrete calls.
use zenith_enterprise.Common.{ℕ, ◌≤◌, ◌≡◌, refl, [], ◌∷◌, List, arith}
use zenith_enterprise.Throttle.{Limiter, init, allow, admit, evict, tracked_keys, drop_stale}
use zenith_enterprise.Throttle.Bounds.{allow_tracked}
use zenith_enterprise.Throttle.Window.{count_within, run, times_of, admitted_within}

-- Two requests a minute, for at most two callers.
abbrev small : Limiter
small = record { limit = 2; window = 60; max_keys = 2; hits = (7, 10 ∷ []) ∷ (8, 50 ∷ []) ∷ [] }

abbrev calls : List (ℕ × ℕ)
calls = (7, 0) ∷ (7, 10) ∷ (7, 20) ∷ (8, 30) ∷ (7, 61) ∷ []

third_call_waits : (run (init 2 60 9) calls).1 ≡ (7, 0) ∷ (7, 10) ∷ (8, 30) ∷ (7, 61) ∷ []
unfolding run allow admit evict drop_stale
third_call_waits = refl

full_forgets_all : (allow small 9 55).0.hits ≡ (9, 55 ∷ []) ∷ []
unfolding allow admit evict drop_stale
full_forgets_all = refl

allow_tracked_example : tracked_keys (allow small 9 100).0 ≤ 2
allow_tracked_example = allow_tracked small 9 100 (omega arith)

admitted_within_example : count_within 60 61 (times_of 7 (run (init 2 60 3) calls).1) ≤ 2
admitted_within_example = admitted_within calls 2 60 3 7 61 (omega arith) (omega arith)
