-- ===== src/Resilience/CircuitBreaker/Probe.antt =====
-- While the breaker is half open exactly one caller is inside.
use fictional_barnacle.Prelude.{
  ℕ, ◌+◌, ◌/◌, ◌≤◌, ◌<◌, ◌≡◌, refl, ◌≢◌, ◌⊎◌, Bool, true, false, List, [], ◌∷◌, arith,
}
use fictional_barnacle.Resilience.CircuitBreaker.{
  CircuitBreaker, CircuitBreakerConfig, CircuitState, Event, aenter, cooldown_elapsed, enter,
  entered, half_open, init, leave, opened, refused, run, step,
}
use fictional_barnacle.Resilience.Clock.{second}

abbrev pub is_half_open : CircuitState → Bool
is_half_open half_open = true
is_half_open _ = false

-- The flag is up just while the breaker is half open.
abbrev pub HasProbe : CircuitBreaker → Type 0
HasProbe cb = cb.probe_in_flight ≡ is_half_open cb.state

step-HasProbe : (cb : CircuitBreaker) (e : Event) → HasProbe cb → HasProbe (step cb e)
unfolding step
step-HasProbe cb (enter now) h = ground arith
step-HasProbe cb (leave exc_val r) h = ground arith

run-HasProbe : (cb : CircuitBreaker) (es : List Event) → HasProbe cb → HasProbe (run cb es)
unfolding run
run-HasProbe cb [] h = h
run-HasProbe cb (e ∷ es) h = run-HasProbe (step cb e) es (step-HasProbe cb e h)

init-HasProbe : (config : CircuitBreakerConfig) → HasProbe (init config)
unfolding init
init-HasProbe config = refl

-- A breaker that any sequence of entries and exits has left half open admits nobody, at any time:
-- the caller fails fast, is told to wait for the cooldown in whole seconds, and changes nothing.
pub half_open_refuses :
    (config : CircuitBreakerConfig) (es : List Event) (now : ℕ)
    → (run (init config) es).state ≡ half_open
    → aenter (run (init config) es) now ≡ (
      refused (record { retry_after_seconds = (run (init config) es).current_cooldown / second }),
      run (init config) es,
    )
unfolding aenter
half_open_refuses config es now h =
    ground (arith, run-HasProbe (init config) es (init-HasProbe config))

-- An open breaker that any sequence of entries and exits has produced refuses every caller before
-- its cooldown has passed, and stays as it is; once the cooldown has passed it admits the next
-- caller, and that makes it half open.
pub opened_admits_after_cooldown :
    (config : CircuitBreakerConfig) (es : List Event) (now : ℕ)
    → (run (init config) es).state ≡ opened
    → let cb = run (init config) es in
      let (entry, cb') = aenter cb now in
      ((cb.opened_at + cb.current_cooldown ≤ now) × (entry ≡ entered) × (cb'.state ≡ half_open))
      ⊎ ((now < cb.opened_at + cb.current_cooldown) × (entry ≢ entered) × (cb' ≡ cb))
unfolding aenter cooldown_elapsed
opened_admits_after_cooldown config es now h =
    ground (arith, run-HasProbe (init config) es (init-HasProbe config))
