-- ===== src/Resilience/CircuitBreaker/Window.antt =====
-- The sliding window of failures.
use fictional_barnacle.Prelude.{
  ℕ, ◌+◌, ◌≤◌, ◌≡◌, refl, ◌↔◌, ◌⊎◌, Bool, true, Option, List, [], ◌∷◌, ◌++◌, arith, leb, length,
  filter, All,
}
use fictional_barnacle.Resilience.CircuitBreaker.{
  CircuitBreaker, PyException, Readings, aexit, closed, is_failure, opened, prune, window_failures,
}

-- Oldest first.
abbrev pub IsOrdered : List ℕ → Type 0
IsOrdered [] = Unit
IsOrdered (t ∷ ts) = All (λ u. t ≤ u) ts × IsOrdered ts

-- A failure counts at `now` while it is at most `window` old.
abbrev pub is_recent : ℕ → ℕ → ℕ → Bool
is_recent window now t = leb now (t + window)

filter-All_recent :
    (window now t : ℕ) (ts : List ℕ)
    → now ≤ t + window
    → All (λ u. t ≤ u) ts
    → filter (is_recent window now) ts ≡ ts
filter-All_recent window now t [] h a = refl
filter-All_recent window now t (u ∷ ts) h a =
    ground (arith, filter-All_recent window now t ts h a.1)

prune-filter :
    (window now : ℕ) (ts : List ℕ)
    → IsOrdered ts
    → prune window now ts ≡ filter (is_recent window now) ts
unfolding prune
prune-filter window now [] o = refl
prune-filter window now (t ∷ ts) o =
    ground (arith, prune-filter window now ts o.1, filter-All_recent window now t ts)

-- On a deque whose entries are in order of time, popping from the left keeps exactly the failures
-- that are at most `window_seconds` old, and the method returns how many those are.
pub window_failures_exact :
    (cb : CircuitBreaker) (now : ℕ)
    → IsOrdered cb.failures
    → ((window_failures cb now).0
        ≡ length (filter (is_recent cb.config.window_seconds now) cb.failures))
      × ((window_failures cb now).1.failures
          ≡ filter (is_recent cb.config.window_seconds now) cb.failures)
unfolding window_failures
window_failures_exact cb now o =
    let e = prune-filter cb.config.window_seconds now cb.failures o in ground (arith, e)

-- A closed breaker whose failures are in order, on a counted failure at the end of a call, opens
-- exactly when the failures that are at most `window_seconds` old, the new one included, reach the
-- threshold; otherwise it stays closed.
pub aexit_opens_iff :
    (cb : CircuitBreaker) (exc_val : Option PyException) (r : Readings)
    → cb.state ≡ closed
    → is_failure cb.config exc_val ≡ true
    → IsOrdered (cb.failures ++ r.recorded ∷ [])
    → let recent =
        length (
          filter
            (is_recent cb.config.window_seconds r.windowed)
            (cb.failures ++ r.recorded ∷ [])) in
      (((aexit cb exc_val r).state ≡ opened) ↔ (cb.config.failure_threshold ≤ recent))
      × (((aexit cb exc_val r).state ≡ opened) ⊎ ((aexit cb exc_val r).state ≡ closed))
unfolding aexit
aexit_opens_iff cb exc_val r c f o =
    ground
      (arith, prune-filter cb.config.window_seconds r.windowed (cb.failures ++ r.recorded ∷ []) o)
