-- ===== src/Resilience/CircuitBreaker/Settle.antt =====
-- How a half-open breaker is settled, and what the callers after that meet.
use fictional_barnacle.Prelude.{
  ℕ, ◌+◌, ◌*◌, ◌/◌, ◌≤◌, ◌<◌, min, ◌≡◌, ◌⊎◌, Bool, true, false, List, map, if◌then◌else◌,
}
use fictional_barnacle.Resilience.CircuitBreaker.{
  CircuitBreaker, CircuitBreakerConfig, Event, aenter, enter, entered, half_open, refused,
}
use fictional_barnacle.Resilience.Clock.{second}

-- Callers who try to enter, at the given times.
abbrev pub attempts : List ℕ → List Event
attempts times = map enter times

-- What an exit makes of a half-open breaker, for the caller who comes next, at the time `now`.
pub record IsSettled (config : CircuitBreakerConfig) (failing : Bool) (tripped now : ℕ)
    (cb cb' : CircuitBreaker) : Type 0 where
  pub cooldown : cb'.current_cooldown ≡ (
      if failing
      then min (cb.current_cooldown * 2) config.max_cooldown_seconds
      else config.cooldown_seconds)
  pub next_caller :
      ((failing ≡ true)
        × (now < tripped + cb'.current_cooldown)
        × (aenter cb' now
            ≡ (refused (record { retry_after_seconds = cb'.current_cooldown / second }), cb')))
      ⊎ ((failing ≡ true)
          × (tripped + cb'.current_cooldown ≤ now)
          × ((aenter cb' now).0 ≡ entered)
          × ((aenter cb' now).1.state ≡ half_open))
      ⊎ ((failing ≡ false) × (aenter cb' now ≡ (entered, cb')))
