-- ===== src/Resilience/RateLimiter/Retry.antt =====
-- The advice of a rejection.
use fictional_barnacle.Prelude.{
  ℕ, ◌+◌, ◌-◌, ◌*◌, ◌≤◌, max, String, ◌≡◌, false, arith, eq_iff, length, filter,
}
use fictional_barnacle.Resilience.Clock.{ceil_seconds, second}
use fictional_barnacle.Resilience.RateLimiter.{
  InMemoryRateLimiter, check, earliest, is_alive, window_of,
}
use fictional_barnacle.Resilience.RateLimiter.Keys.{window_of-check}

-- A rejection leaves the timestamps that are alive, and tells how long the oldest of them lives on.
pub check_rejected :
    (limiter : InMemoryRateLimiter) (key : String) (limit window_seconds now : ℕ)
    → (check limiter key limit window_seconds now).0.allowed ≡ false
    → let (result, limiter') = check limiter key limit window_seconds now in
      let alive = filter (is_alive (window_seconds * second) now) (window_of limiter key) in
      (limit ≤ length alive)
      × (window_of limiter' key ≡ alive)
      × (result.retry_after
          ≡ max 1 (ceil_seconds (earliest now alive + window_seconds * second - now)))
unfolding check
check_rejected limiter key limit window_seconds now r =
    let w = window_of-check limiter key key limit window_seconds now in
    (ground (arith, w), ground (arith, w, eq_iff key key), ground arith)
