-- ===== src/Resilience/CircuitBreaker/Backoff.antt =====
-- The cooldown doubles from one trip to the next, up to its cap.
use native.Mathlib.Nat.{pow-suc}
use fictional_barnacle.Prelude.{
  ℕ, zero, suc, ◌*◌, ◌^◌, ◌≤◌, min, ◌≡◌, ap, ◌≢◌, Option, List, [], ◌∷◌, arith, ltb, if◌then◌else◌,
}
use fictional_barnacle.Resilience.CircuitBreaker.{
  CircuitBreaker, CircuitBreakerConfig, Event, PyException, Readings, aenter, aexit, closed, enter,
  init, leave, run, step, trip,
}

-- The cooldown after `n` trips in a row.
abbrev pub backoff : CircuitBreakerConfig → ℕ → ℕ
backoff config zero = config.cooldown_seconds
backoff config (suc n) = min (config.cooldown_seconds * 2 ^ n) config.max_cooldown_seconds

-- The count of trips and the cooldown agree, and the count is zero just while the breaker is
-- closed.
pub record HasBackoff (config : CircuitBreakerConfig) (cb : CircuitBreaker) : Type 0 where
  pub same_config : cb.config ≡ config
  pub cooldown : cb.current_cooldown ≡ backoff config cb.consecutive_trips
  pub calm : cb.state ≡ closed → cb.consecutive_trips ≡ 0
  pub tripped : cb.state ≢ closed → 1 ≤ cb.consecutive_trips

backoff_step :
    (config : CircuitBreakerConfig) (n : ℕ)
    → config.cooldown_seconds ≤ config.max_cooldown_seconds
    → (if ltb 1 (suc n)
        then min (backoff config n * 2) config.max_cooldown_seconds
        else backoff config n)
      ≡ backoff config (suc n)
backoff_step config zero h = ground arith
backoff_step config (suc n) h =
    ground (arith, pow-suc 2 n, ap (λ (t : ℕ). config.cooldown_seconds * t) (pow-suc 2 n))

module _ (config : CircuitBreakerConfig)
    (capped : config.cooldown_seconds ≤ config.max_cooldown_seconds) where
  aenter-HasBackoff :
      (cb : CircuitBreaker) (now : ℕ) → HasBackoff config cb → HasBackoff config (aenter cb now).1
  unfolding aenter
  aenter-HasBackoff cb now v = ground arith

  trip-HasBackoff :
      (cb : CircuitBreaker) (now : ℕ)
      → cb.config ≡ config
      → cb.current_cooldown ≡ backoff config cb.consecutive_trips
      → HasBackoff config (trip cb now)
  unfolding trip
  trip-HasBackoff cb now e c = ground (arith, backoff_step config cb.consecutive_trips capped)

  aexit-HasBackoff :
      (cb : CircuitBreaker) (exc_val : Option PyException) (r : Readings)
      → HasBackoff config cb
      → HasBackoff config (aexit cb exc_val r)
  unfolding aexit
  aexit-HasBackoff cb exc_val r v = ground (arith, backoff_step config cb.consecutive_trips capped)

  step-HasBackoff :
      (cb : CircuitBreaker) (e : Event) → HasBackoff config cb → HasBackoff config (step cb e)
  unfolding step
  step-HasBackoff cb (enter now) v = aenter-HasBackoff cb now v
  step-HasBackoff cb (leave exc_val r) v = aexit-HasBackoff cb exc_val r v

  run-HasBackoff :
      (cb : CircuitBreaker) (es : List Event) → HasBackoff config cb → HasBackoff config (run cb es)
  unfolding run
  run-HasBackoff cb [] v = v
  run-HasBackoff cb (e ∷ es) v = run-HasBackoff (step cb e) es (step-HasBackoff cb e v)

  init-HasBackoff : HasBackoff config (init config)
  unfolding init
  init-HasBackoff = ground arith

  -- For a configuration whose cooldown is within its cap, after any sequence of entries and exits
  -- the cooldown is the configured one doubled once for every trip in a row after the first and cut
  -- off at the cap, a closed breaker has no trips counted, and one that is not closed has at least
  -- one.
  pub run-init-HasBackoff : (es : List Event) → HasBackoff config (run (init config) es)
  run-init-HasBackoff es = run-HasBackoff (init config) es init-HasBackoff
