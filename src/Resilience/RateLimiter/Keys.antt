-- ===== src/Resilience/RateLimiter/Keys.antt =====
-- What a call does to the window of each key.
use fictional_barnacle.Prelude.{
  ℕ, ◌*◌, ◌<◌, String, ◌≡◌, ◌↔◌, true, [], ◌∷◌, ◌++◌, arith, str_eq, if◌then◌else◌, filter, length,
}
use fictional_barnacle.Prelude.Dict.{lookup-erase, lookup-insert}
use fictional_barnacle.Resilience.Clock.{second}
use fictional_barnacle.Resilience.RateLimiter.{
  InMemoryRateLimiter, check, clear_key, decide_window, is_alive, window_of,
}

-- `check` leaves the other keys' windows alone; in the checked key's window it keeps the timestamps
-- that are still alive, followed by the new one exactly if the request is allowed, which is exactly
-- when fewer than `limit` are alive.
pub window_of-check :
    (limiter : InMemoryRateLimiter) (key other : String) (limit window_seconds now : ℕ)
    → let (result, limiter') = check limiter key limit window_seconds now in
      let alive = filter (is_alive (window_seconds * second) now) (window_of limiter key) in
      ((result.allowed ≡ true) ↔ (length alive < limit))
      × (window_of limiter' other ≡ (
          if str_eq key other
          then (if result.allowed then alive ++ now ∷ [] else alive)
          else window_of limiter other))
unfolding check
window_of-check limiter key other limit window_seconds now =
    let alive = filter (is_alive (window_seconds * second) now) (window_of limiter key) in
    ground (
      arith,
      lookup-insert key other (decide_window alive limit (window_seconds * second) now).1
          limiter.windows,
    )

-- After a reset the key has no window and the others keep theirs.
pub window_of-clear_key :
    (limiter : InMemoryRateLimiter) (key other : String)
    → window_of (clear_key limiter key) other
      ≡ (if str_eq key other then [] else window_of limiter other)
unfolding clear_key window_of
window_of-clear_key limiter key other = ground (arith, lookup-erase key other limiter.windows)
