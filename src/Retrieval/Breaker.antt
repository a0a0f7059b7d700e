-- ===== src/Retrieval/Breaker.antt =====
-- The circuit breaker of backend/app/features/retrieval/breaker.py. The injected clock is an
-- argument `now` of each call, in ticks; the log lines are left out.
mod Laws
mod Tests
use zenith_enterprise.Common.{
  ℕ, ◌+◌, ◌-◌, Bool, true, false, Option, none, some, List, [], ◌∷◌, leb, if◌then◌else◌,
}

pub data State : Type 0 where
  closed open_circuit half_open : State

-- `_now` is not a field but an argument.
pub record Breaker : Type 0 where
  pub failures_to_open : ℕ
  pub cooldown : ℕ
  pub failures : ℕ
  pub opened_at : Option ℕ

-- `FAILURES_TO_OPEN` and `COOLDOWN_SECONDS`, with ticks of one second.
abbrev pub default_breaker : Breaker
default_breaker = record { failures_to_open = 3; cooldown = 60; failures = 0; opened_at = none }

-- The property `state`.
pub state : Breaker → ℕ → State
state b now = elim b.opened_at [
  | none ↦ closed
  | some t ↦ if leb b.cooldown (now - t) then half_open else open_circuit
]

abbrev not_open : State → Bool
not_open closed = true
not_open open_circuit = false
not_open half_open = true

pub allows : Breaker → ℕ → Bool
allows b now = not_open (state b now)

pub succeeded : Breaker → Breaker
succeeded b = record b { failures = 0; opened_at = none }

-- The part of `failed` below its early return.
count_failure : Breaker → ℕ → Breaker
count_failure b now =
    if leb b.failures_to_open (b.failures + 1)
    then record b { failures = b.failures + 1; opened_at = some now }
    else record b { failures = b.failures + 1 }

pub failed : Breaker → ℕ → Breaker
unfolding count_failure
failed b now = elim (state b now) [
  | half_open ↦ record b { opened_at = some now }
  | closed ↦ count_failure b now
  | open_circuit ↦ count_failure b now
]

-- What one attempt reports, as `SearchService._rerank` does it: nothing is called, and nothing is
-- reported, while the breaker refuses.
unfoldable pub attempt : Breaker → ℕ × Bool → Breaker
attempt b (now, answered) =
    if allows b now then (if answered then succeeded b else failed b now) else b

pub attempts : Breaker → List (ℕ × Bool) → Breaker
attempts b [] = b
attempts b (e ∷ es) = attempts (attempt b e) es
