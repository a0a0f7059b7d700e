-- ===== src/Retrieval/Breaker/Tests.antt =====
-- The breaker with its default settings, and the laws at concrete times.
use zenith_enterprise.Common.{◌≡◌, refl, true, false, none, some, [], ◌∷◌, arith}
use zenith_enterprise.Retrieval.Breaker.{
  Breaker, default_breaker, state, allows, failed, attempt, attempts, half_open,
}
use zenith_enterprise.Retrieval.Breaker.Laws.{failures_at, probe_decides}

abbrev tripped : Breaker
tripped = record default_breaker { failures = 3; opened_at = some 20 }

third_failure_trips : attempts default_breaker (failures_at (10 ∷ 15 ∷ 20 ∷ [])) ≡ tripped
unfolding attempts attempt allows state failed
third_failure_trips = refl

recovers_half_open : state tripped 80 ≡ half_open
unfolding state
recovers_half_open = refl

probe_decides_example :
    (attempts tripped ((30, false) ∷ (80, true) ∷ [])
      ≡ record tripped { failures = 0; opened_at = none })
    × (attempts tripped ((30, false) ∷ (80, false) ∷ []) ≡ record tripped { opened_at = some 80 })
    × (allows (attempts tripped ((30, false) ∷ (80, false) ∷ [])) 130 ≡ false)
probe_decides_example =
    probe_decides ((30, false) ∷ []) 20 80 130 tripped refl (omega arith) (omega arith)
      (omega arith) (omega arith)
