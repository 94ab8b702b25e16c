-- ===== src/Resilience/RateLimiter.antt =====
-- The in-memory backend of tta/resilience/rate_limiter.py. `time.time()` is an argument.
pub mod Quota
pub mod Retry
pub mod Keys
mod Tests
use fictional_barnacle.Prelude.{
  ℕ, ◌+◌, ◌-◌, ◌*◌, min, max, String, Bool, true, false, none, some, List, [], ◌∷◌, ◌++◌, ltb,
  if◌then◌else◌, filter, length,
}
use fictional_barnacle.Prelude.Dict.{Dict, erase, insert, lookup}
use fictional_barnacle.Resilience.Clock.{ceil_seconds, second}

pub record RateLimitResult : Type 0 where
  pub allowed : Bool
  pub limit : ℕ
  pub remaining : ℕ
  pub reset_at : ℕ
  pub retry_after : ℕ

-- `InMemoryRateLimiter`: the timestamps of each key, in order of arrival.
pub record InMemoryRateLimiter : Type 0 where
  pub windows : Dict (List ℕ)

pub init : InMemoryRateLimiter
init = record { windows = [] }

-- `self._windows.get(key, [])`
pub window_of : InMemoryRateLimiter → String → List ℕ
window_of limiter key = elim (lookup key limiter.windows) [ none ↦ [] | some ts ↦ ts ]

-- `t > window_start`, for a window of `span` microseconds that ends at `now`.
abbrev pub is_alive : ℕ → ℕ → ℕ → Bool
is_alive span now t = ltb now (t + span)

-- `min` of a list that is not empty, by its first element and the rest.
pub minimum : ℕ → List ℕ → ℕ
minimum t [] = t
minimum t (u ∷ us) = min t (minimum u us)

-- `min(timestamps) if timestamps else now`
pub earliest : ℕ → List ℕ → ℕ
earliest now [] = now
earliest now (t ∷ ts) = minimum t ts

-- `check` on the timestamps that are left after pruning: the result and what is stored.
pub decide_window : List ℕ → ℕ → ℕ → ℕ → RateLimitResult × List ℕ
decide_window timestamps limit span now =
    if ltb (length timestamps) limit
    then (
      record {
        allowed = true;
        limit = limit;
        remaining = limit - (length timestamps + 1);
        reset_at = now + span;
        retry_after = 0;
      },
      timestamps ++ now ∷ [],
    )
    else (
      record {
        allowed = false;
        limit = limit;
        remaining = 0;
        reset_at = earliest now timestamps + span;
        retry_after = max 1 (ceil_seconds (earliest now timestamps + span - now));
      },
      timestamps,
    )

-- `InMemoryRateLimiter.check`
pub check : InMemoryRateLimiter → String → ℕ → ℕ → ℕ → RateLimitResult × InMemoryRateLimiter
unfolding window_of decide_window
check limiter key limit window_seconds now =
    let span = window_seconds * second in
    let timestamps = filter (is_alive span now) (window_of limiter key) in
    let (result, stored) = decide_window timestamps limit span now in
    (result, record { windows = insert key stored limiter.windows })

-- `InMemoryRateLimiter.clear_key`
pub clear_key : InMemoryRateLimiter → String → InMemoryRateLimiter
clear_key limiter key = record { windows = erase key limiter.windows }
