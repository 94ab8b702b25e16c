-- ===== src/Resilience/CircuitBreaker.antt =====
-- tta/resilience/circuit_breaker.py. Every reading of `time.monotonic()` is an argument, a whole
-- number of microseconds; the lock makes each of the two methods one step.
pub mod Window
pub mod Backoff
pub mod Probe
pub mod Settle
mod Tests
use fictional_barnacle.Prelude.{
  ℕ, suc, ◌+◌, ◌*◌, ◌/◌, min, String, Bool, true, false, Option, none, some, List, [], ◌∷◌, ◌++◌,
  str_eq, leb, ltb, if◌then◌else◌, length, any,
}
use fictional_barnacle.Prelude.Keyed.{count}
use fictional_barnacle.Resilience.Clock.{second}

pub data CircuitState : Type 0 where
  closed opened half_open : CircuitState

-- An exception is known by the names of the classes on its method resolution order.
pub record PyException : Type 0 where
  pub mro : List String

pub record CircuitBreakerConfig : Type 0 where
  pub failure_threshold : ℕ
  pub window_seconds : ℕ
  pub cooldown_seconds : ℕ
  pub service_name : String
  pub max_cooldown_seconds : ℕ
  pub counted_exceptions : List String

-- `LLM_BREAKER`
abbrev pub llm_breaker : CircuitBreakerConfig
llm_breaker = record {
  failure_threshold = 5;
  window_seconds = 60_000_000;
  cooldown_seconds = 30_000_000;
  service_name = "llm";
  max_cooldown_seconds = 300_000_000;
  counted_exceptions = [];
}

-- `PG_BREAKER`
abbrev pub pg_breaker : CircuitBreakerConfig
pg_breaker = record {
  failure_threshold = 3;
  window_seconds = 30_000_000;
  cooldown_seconds = 15_000_000;
  service_name = "postgresql";
  max_cooldown_seconds = 300_000_000;
  counted_exceptions = [];
}

pub record CircuitBreaker : Type 0 where
  pub config : CircuitBreakerConfig
  pub state : CircuitState
  pub failures : List ℕ
  pub opened_at : ℕ
  pub consecutive_trips : ℕ
  pub current_cooldown : ℕ
  pub probe_in_flight : Bool

-- The field defaults and `__post_init__`.
pub init : CircuitBreakerConfig → CircuitBreaker
init config = record {
  config = config;
  state = closed;
  failures = [];
  opened_at = 0;
  consecutive_trips = 0;
  current_cooldown = config.cooldown_seconds;
  probe_in_flight = false;
}

-- `_record_failure`: the deque grows at its right end.
pub record_failure : CircuitBreaker → ℕ → CircuitBreaker
record_failure cb now = record cb { failures = cb.failures ++ now ∷ [] }

-- The `while` loop of `_window_failures`: `failures[0] < now - window` pops.
pub prune : ℕ → ℕ → List ℕ → List ℕ
prune window now [] = []
prune window now (t ∷ ts) =
    let rest = prune window now ts in if ltb (t + window) now then rest else t ∷ ts

-- `_window_failures`
pub window_failures : CircuitBreaker → ℕ → ℕ × CircuitBreaker
unfolding prune
window_failures cb now =
    let kept = prune cb.config.window_seconds now cb.failures in
    (length kept, record cb { failures = kept })

-- `_cooldown_elapsed`
pub cooldown_elapsed : CircuitBreaker → ℕ → Bool
cooldown_elapsed cb now = leb (cb.opened_at + cb.current_cooldown) now

isinstance : PyException → List String → Bool
isinstance exc classes = any (λ c. any (str_eq c) exc.mro) classes

-- `_is_counted`
pub is_counted : CircuitBreakerConfig → PyException → Bool
unfolding isinstance
is_counted config exc = elim config.counted_exceptions [
  | [] ↦ true
  | c ∷ cs ↦ isinstance exc (c ∷ cs)
]

-- `_transition`, less its log line.
pub transition : CircuitBreaker → CircuitState → CircuitBreaker
transition cb new_state = record cb { state = new_state }

-- `_trip`
pub trip : CircuitBreaker → ℕ → CircuitBreaker
unfolding transition
trip cb now =
    let trips = suc cb.consecutive_trips in
    let cooldown =
      if ltb 1 trips
      then min (cb.current_cooldown * 2) cb.config.max_cooldown_seconds
      else cb.current_cooldown in
    transition
      (record cb { consecutive_trips = trips; current_cooldown = cooldown; opened_at = now }) opened

-- `_fail_fast_error`: the seconds that the client is told to wait.
pub record FailFast : Type 0 where
  pub retry_after_seconds : ℕ

pub fail_fast_error : CircuitBreaker → FailFast
fail_fast_error cb = record { retry_after_seconds = cb.current_cooldown / second }

-- How `__aenter__` ends: the caller is admitted, or the error is raised.
pub data Entry : Type 0 where
  entered : Entry
  refused : FailFast → Entry

-- The second test of `__aenter__`.
probe : CircuitBreaker → Entry × CircuitBreaker
probe cb = elim cb.state [
  | half_open ↦
      if cb.probe_in_flight
      then (refused (fail_fast_error cb), cb)
      else (entered, record cb { probe_in_flight = true })
  | _ ↦ (entered, cb)
]

-- `__aenter__`
pub aenter : CircuitBreaker → ℕ → Entry × CircuitBreaker
unfolding probe transition fail_fast_error
aenter cb now = elim cb.state [
  | opened ↦
      if cooldown_elapsed cb now
      then probe (transition cb half_open)
      else (refused (fail_fast_error cb), cb)
  | _ ↦ probe cb
]

-- The three clock readings of a call of `__aexit__`.
pub record Readings : Type 0 where
  pub recorded : ℕ
  pub windowed : ℕ
  pub tripped : ℕ

-- The branch of `__aexit__` for a counted exception.
failed : CircuitBreaker → Readings → CircuitBreaker
unfolding record_failure window_failures trip
failed cb r =
    let cb1 = record_failure cb r.recorded in
    elim cb.state [
      | half_open ↦ trip cb1 r.tripped
      | closed ↦
          (let (count, cb2) = window_failures cb1 r.windowed in
            if leb cb.config.failure_threshold count then trip cb2 r.tripped else cb2)
      | opened ↦ cb1
    ]

-- The `else` branch of `__aexit__`.
succeeded : CircuitBreaker → CircuitBreaker
unfolding transition
succeeded cb = elim cb.state [
  | half_open ↦ record (transition cb closed) {
    failures = [];
    consecutive_trips = 0;
    current_cooldown = cb.config.cooldown_seconds;
  }
  | _ ↦ cb
]

-- `if self._state == CircuitState.HALF_OPEN: self._probe_in_flight = False`
clear_probe : CircuitBreaker → CircuitBreaker
clear_probe cb = elim cb.state [ half_open ↦ record cb { probe_in_flight = false } | _ ↦ cb ]

-- The test `exc_val is not None and self._is_counted(exc_val)`.
pub is_failure : CircuitBreakerConfig → Option PyException → Bool
unfolding is_counted
is_failure config none = false
is_failure config (some exc) = is_counted config exc

-- `__aexit__`
pub aexit : CircuitBreaker → Option PyException → Readings → CircuitBreaker
unfolding clear_probe failed succeeded
aexit cb exc_val r =
    let cb1 = clear_probe cb in if is_failure cb.config exc_val then failed cb1 r else succeeded cb1

-- What callers do to a breaker, one after the other under its lock.
pub data Event : Type 0 where
  enter : ℕ → Event
  leave : Option PyException → Readings → Event

pub step : CircuitBreaker → Event → CircuitBreaker
unfolding aenter aexit
step cb (enter now) = (aenter cb now).1
step cb (leave exc_val r) = aexit cb exc_val r

pub run : CircuitBreaker → List Event → CircuitBreaker
unfolding step
run cb [] = cb
run cb (e ∷ es) = run (step cb e) es
