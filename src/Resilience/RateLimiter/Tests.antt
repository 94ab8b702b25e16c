-- ===== src/Resilience/RateLimiter/Tests.antt =====
-- Runs of a limiter that allows two requests in ten seconds.
use fictional_barnacle.Prelude.{ℕ, ◌*◌, ◌≤◌, String, ◌≡◌, refl, List, [], ◌∷◌, arith}
use fictional_barnacle.Prelude.Dict.{insert, lookup}
use fictional_barnacle.Resilience.Clock.{second}
use fictional_barnacle.Resilience.RateLimiter.{InMemoryRateLimiter, check, init}
use fictional_barnacle.Resilience.RateLimiter.Quota.{Request, admitted, admitted-le-limit, count_in}

abbrev request : String → ℕ → Request
request key t = record { key = key; limit = 2; window_seconds = 10; now = t * second }

abbrev requests : List Request
requests =
    request "a" 1
    ∷ request "a" 2
    ∷ request "b" 3
    ∷ request "a" 5
    ∷ request "a" 11
    ∷ request "a" 11
    ∷ []

admitted-requests : admitted "a" init requests ≡ 1 * second ∷ 2 * second ∷ 11 * second ∷ []
unfolding admitted init check lookup insert
admitted-requests = refl

admitted-le-limit_example : count_in (10 * second) (11 * second) (admitted "a" init requests) ≤ 2
admitted-le-limit_example = admitted-le-limit "a" 2 10 requests (11 * second) (ground arith)

abbrev full : InMemoryRateLimiter
full = record { windows = ("a", 1 * second ∷ 2 * second ∷ []) ∷ ("b", []) ∷ [] }
