-- ===== src/Retrieval/Breaker/Laws.antt =====
-- The transitions of the circuit breaker: when it trips, how long it refuses, and what a probe
-- decides.
use zenith_enterprise.Common.{
  ℕ, ◌+◌, ◌-◌, ◌≤◌, ◌<◌, ◌≡◌, ◌↔◌, refl, Option, ◌||◌, ltb, Bool, true, false, none, some, List, [],
  ◌∷◌, ◌++◌, map, arith, length, All, all,
}
use zenith_enterprise.Retrieval.Breaker.{
  Breaker, state, allows, succeeded, failed, attempt, attempts,
}

-- A run of attempts that all fail, at the given times.
abbrev pub failures_at : List ℕ → List (ℕ × Bool)
failures_at = map λ t. (t, false)

attempt_closed_failure :
    (b : Breaker) (t : ℕ)
    → b.opened_at ≡ none
    → b.failures + 1 < b.failures_to_open
    → attempt b (t, false) ≡ record b { failures = b.failures + 1 }
unfolding attempt allows state failed
attempt_closed_failure b t c h = ground arith

-- Below the threshold a closed breaker only counts.
attempts_count :
    (ts : List ℕ) (b : Breaker)
    → b.opened_at ≡ none
    → b.failures + length ts < b.failures_to_open
    → attempts b (failures_at ts) ≡ record b { failures = b.failures + length ts }
unfolding attempts
attempts_count [] b c h = ground arith
attempts_count (t ∷ ts) b c h = ground (
  arith,
  attempt_closed_failure b t c (omega arith),
  attempts_count ts (record b { failures = b.failures + 1 }) c (omega arith),
)

attempt_last_failure :
    (b : Breaker) (t : ℕ)
    → b.opened_at ≡ none
    → b.failures + 1 ≡ b.failures_to_open
    → attempt b (t, false) ≡ record b { failures = b.failures_to_open; opened_at = some t }
unfolding attempt allows state failed
attempt_last_failure b t c h = ground arith

attempts-append :
    (es fs : List (ℕ × Bool)) (b : Breaker) → attempts b (es ++ fs) ≡ attempts (attempts b es) fs
unfolding attempts
attempts-append [] fs b = refl
attempts-append (e ∷ es) fs b = attempts-append es fs (attempt b e)

-- A closed breaker trips on the attempt that makes the failures in a row as many as
-- `failures_to_open`, at the time of that attempt, and stays closed on every one before.
pub attempts_trip :
    (ts : List ℕ) (t : ℕ) (b : Breaker)
    → b.opened_at ≡ none
    → b.failures + length ts + 1 ≡ b.failures_to_open
    → ((attempts b (failures_at ts)).opened_at ≡ none)
      × (attempts b (failures_at ts ++ (t, false) ∷ [])
          ≡ record b { failures = b.failures_to_open; opened_at = some t })
unfolding attempts
attempts_trip ts t b c h =
    let counted = attempts_count ts b c (omega arith) in
    (
      rw counted c,
      rw (attempts-append (failures_at ts) ((t, false) ∷ []) b, counted)
          (attempt_last_failure (record b { failures = b.failures + length ts }) t c h),
    )

-- A request is refused exactly when the breaker opened less than a cooldown ago.
allows_iff :
    (b : Breaker) (now : ℕ)
    → (allows b now ≡ false) ↔ ((t : ℕ) × (b.opened_at ≡ some t) × (now - t < b.cooldown))
unfolding allows state
allows_iff b now = (λ h. ground arith, λ h. ground arith)

-- While it is open and the cooldown runs, attempts change nothing: none is made.
attempts_refused :
    (es : List (ℕ × Bool)) (t : ℕ) (b : Breaker)
    → b.opened_at ≡ some t
    → All (λ e. (t ≤ e.0) × (e.0 < t + b.cooldown)) es
    → attempts b es ≡ b
unfolding attempts attempt allows state
attempts_refused [] t b o h = refl
attempts_refused (e ∷ es) t b o h = ground (arith, h.0, attempts_refused es t b o h.1)

-- A breaker that opened at `t` ignores every attempt from `t` until before `t + cooldown`. The first
-- one at or after that time is made: an answer closes the breaker and forgets the failures, and a
-- failure refuses every request of one more cooldown.
pub probe_decides :
    (es : List (ℕ × Bool)) (t now later : ℕ) (b : Breaker)
    → b.opened_at ≡ some t
    → All (λ e. (t ≤ e.0) × (e.0 < t + b.cooldown)) es
    → t + b.cooldown ≤ now
    → now ≤ later
    → later < now + b.cooldown
    → (attempts b (es ++ (now, true) ∷ []) ≡ record b { failures = 0; opened_at = none })
      × (attempts b (es ++ (now, false) ∷ []) ≡ record b { opened_at = some now })
      × (allows (attempts b (es ++ (now, false) ∷ [])) later ≡ false)
unfolding attempts attempt allows state failed succeeded
probe_decides es t now later b o h cool after soon =
    let quiet = attempts_refused es t b o h in
    (
      rw (attempts-append es _ b, quiet) (ground arith),
      rw (attempts-append es _ b, quiet) (ground arith),
      rw (attempts-append es _ b, quiet) (ground arith),
    )

-- The probe is not one request: once the cooldown is over, every request is let through until one
-- of them reports.
pub half_open_admits_all :
    (ns : List ℕ) (t : ℕ) (b : Breaker)
    → b.opened_at ≡ some t
    → All (λ now. t + b.cooldown ≤ now) ns
    → all (allows b) ns ≡ true
unfolding allows state
half_open_admits_all [] t b o h = refl
half_open_admits_all (n ∷ ns) t b o h = ground (arith, half_open_admits_all ns t b o h.1)

-- What a request that was let through reports, at any later time and in any order.
pub data Report : Type 0 where
  answered : Report
  failing : ℕ → Report

abbrev pub report : Breaker → Report → Breaker
report b answered = succeeded b
report b (failing now) = failed b now

abbrev pub reports : Breaker → List Report → Breaker
reports b [] = b
reports b (r ∷ rs) = reports (report b r) rs

abbrev pub is_some : Option ℕ → Bool
is_some none = false
is_some (some t) = true

-- A breaker is open, or stands below its threshold.
pub record IsSound (b : Breaker) : Type 0 where
  pub positive : 0 < b.failures_to_open
  pub below : (is_some b.opened_at || ltb b.failures b.failures_to_open) ≡ true

report-IsSound : (b : Breaker) (r : Report) → IsSound b → IsSound (report b r)
unfolding succeeded failed state
report-IsSound b answered s = ground arith
report-IsSound b (failing now) s = ground arith

-- Whatever the requests in flight report, and in whatever order, a closed breaker has counted
-- fewer failures than trip it.
pub reports-IsSound : (rs : List Report) (b : Breaker) → IsSound b → IsSound (reports b rs)
reports-IsSound [] b s = s
reports-IsSound (r ∷ rs) b s = reports-IsSound rs (report b r) (report-IsSound b r s)
