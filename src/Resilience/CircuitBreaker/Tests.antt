-- ===== src/Resilience/CircuitBreaker/Tests.antt =====
-- Runs of a breaker with the settings of the database's, one event a second.
use fictional_barnacle.Prelude.{
  ℕ, ◌+◌, ◌*◌, ◌≤◌, ◌<◌, ◌≡◌, refl, ap, ◌≢◌, ◌↔◌, ◌⊎◌, none, some, List, [], ◌∷◌, ◌++◌, arith,
}
use fictional_barnacle.Resilience.CircuitBreaker.{
  CircuitBreaker, Event, PyException, Readings, aenter, aexit, closed, cooldown_elapsed, enter,
  entered, half_open, init, is_failure, leave, opened, pg_breaker, refused, run,
}
use fictional_barnacle.Resilience.CircuitBreaker.Backoff.{HasBackoff, run-init-HasBackoff}
use fictional_barnacle.Resilience.CircuitBreaker.Probe.{
  half_open_refuses, opened_admits_after_cooldown,
}
use fictional_barnacle.Resilience.CircuitBreaker.Window.{aexit_opens_iff}
use fictional_barnacle.Resilience.Clock.{second}

abbrev at : ℕ → Readings
at t = record { recorded = t; windowed = t; tripped = t }

abbrev timeout_error : PyException
timeout_error = record { mro = "TimeoutError" ∷ "OSError" ∷ "Exception" ∷ [] }

abbrev failing : ℕ → Event
failing t = leave (some timeout_error) (at (t * second))

-- Four callers get in; three of them fail, and the fourth is still inside.
abbrev three_failures : List Event
three_failures = enter 0 ∷ enter 0 ∷ enter 0 ∷ enter 0 ∷ failing 1 ∷ failing 2 ∷ failing 3 ∷ []

abbrev then_probe : List Event
then_probe = three_failures ++ enter (20 * second) ∷ []

tripped_state : (run (init pg_breaker) three_failures).state ≡ opened
unfolding run init is_failure cooldown_elapsed
tripped_state = refl

run-init-HasBackoff_example :
    HasBackoff pg_breaker (run (init pg_breaker) (then_probe ++ failing 21 ∷ []))
run-init-HasBackoff_example =
    run-init-HasBackoff pg_breaker (omega arith) (then_probe ++ failing 21 ∷ [])

half_open_refuses_example :
    (aenter (run (init pg_breaker) then_probe) 0).0 ≡ refused (record { retry_after_seconds = 15 })
unfolding run init is_failure cooldown_elapsed
half_open_refuses_example = ap (λ p. p.0) (half_open_refuses pg_breaker then_probe 0 refl)

opened_admits_after_cooldown_example :
    let cb = run (init pg_breaker) three_failures in
    let (entry, cb') = aenter cb (18 * second) in
    ((cb.opened_at + cb.current_cooldown ≤ 18 * second)
      × (entry ≡ entered)
      × (cb'.state ≡ half_open))
    ⊎ ((18 * second < cb.opened_at + cb.current_cooldown) × (entry ≢ entered) × (cb' ≡ cb))
unfolding run init is_failure cooldown_elapsed
opened_admits_after_cooldown_example =
    opened_admits_after_cooldown pg_breaker three_failures (18 * second) refl

-- The fourth caller, which came in before the trip, comes back while the probe is out: the breaker
-- closes on its success, and any number of callers get in.
early_settles : (aexit (run (init pg_breaker) then_probe) none (at 0)).state ≡ closed
unfolding run init is_failure cooldown_elapsed
early_settles = refl

abbrev two_old : CircuitBreaker
unfolding init
two_old = record (init pg_breaker) { failures = 1 * second ∷ 40 * second ∷ [] }

aexit_opens_iff_example :
    let recent : ℕ = 2 in
    (((aexit two_old (some timeout_error) (at (50 * second))).state ≡ opened) ↔ (3 ≤ recent))
    × (((aexit two_old (some timeout_error) (at (50 * second))).state ≡ opened)
        ⊎ ((aexit two_old (some timeout_error) (at (50 * second))).state ≡ closed))
unfolding init is_failure
aexit_opens_iff_example =
    aexit_opens_iff two_old (some timeout_error) (at (50 * second)) refl refl (omega arith)
