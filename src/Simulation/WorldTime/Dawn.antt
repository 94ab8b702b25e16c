-- ===== src/Simulation/WorldTime/Dawn.antt =====
-- The way to the next dawn.
use native.Mathlib.Nat.{div-add-mod', mod-lt, mul-le-mul_right}
use native.Mathlib.Decide.{dec_le}
use fictional_barnacle.Prelude.{
  ℕ, zero, suc, ◌+◌, ◌-◌, ◌*◌, ◌/◌, ◌%◌, ◌≤◌, ◌<◌, max, ◌≡◌, refl, inl, inr, Option, some, arith,
  if◌then◌else◌, Bool-cases, ltb→lt, ltb,
}
use fictional_barnacle.Simulation.WorldTime.{
  TimeConfig, dawn_minute_in_day, minutes_per_day, or_default, ticks_to_next_dawn, total_minutes,
}

-- The minute of the dawn of a day.
abbrev pub dawn_of : (ℕ → ℕ → ℕ) → TimeConfig → ℕ → ℕ
dawn_of int_product config day =
    day * minutes_per_day config + dawn_minute_in_day int_product config

-- `target` is the first dawn after the minute `now`.
pub record IsNextDawn (int_product : ℕ → ℕ → ℕ) (config : TimeConfig) (now target : ℕ)
    : Type 0 where
  pub day : ℕ
  pub is_dawn : target ≡ dawn_of int_product config day
  pub later : now < target
  pub first :
      (other : ℕ)
      → now < dawn_of int_product config other
      → target ≤ dawn_of int_product config other

-- Rounding up a quotient, by the quotient and the remainder.
ceil_quotient :
    (q r a b : ℕ)
    → q * b + r ≡ a + b - 1
    → r < b
    → 0 < a
    → (a ≤ max 1 q * b) × ((max 1 q - 1) * b < a)
ceil_quotient zero r a b e lt pos_a = absurd (omega arith)
ceil_quotient (suc m) r a b e lt pos_a =
    let up : max 1 (suc m) ≡ suc m = omega arith in
    let down : max 1 (suc m) - 1 ≡ m = omega arith in rw (down, up) (omega arith, omega arith)

ceil_bounds :
    (a b : ℕ)
    → 0 < a
    → 0 < b
    → (a ≤ max 1 ((a + b - 1) / b) * b) × ((max 1 ((a + b - 1) / b) - 1) * b < a)
ceil_bounds a b h k =
    ceil_quotient ((a + b - 1) / b) ((a + b - 1) % b) a b (div-add-mod' (a + b - 1) b)
      (mod-lt (a + b - 1) k) h

-- The code's `minutes_to_dawn`, by the minute of the day.
abbrev minutes_to : ℕ → ℕ → ℕ → ℕ
minutes_to per_day dawn current =
    if ltb current dawn then dawn - current else per_day - current + dawn

module _ (int_product : ℕ → ℕ → ℕ) (config : TimeConfig) (q r : ℕ) where
  abbrev per_day : ℕ
  per_day = minutes_per_day config

  abbrev dawn : ℕ
  dawn = dawn_minute_in_day int_product config

  today-IsNextDawn :
      r < per_day
      → dawn ≤ per_day
      → r < dawn
      → IsNextDawn int_product config (q * per_day + r) (dawn_of int_product config q)
  today-IsNextDawn lt fits before = record {
    day = q;
    is_dawn = refl;
    later = omega arith;
    first = λ other h. elim (dec_le q other) [
      | yes le ↦ omega (arith, mul-le-mul_right per_day le)
      | no gt ↦
          absurd (omega (arith, mul-le-mul_right {m = suc other} {n = q} per_day (omega arith)))
    ];
  }

  tomorrow-IsNextDawn :
      r < per_day
      → dawn ≤ r
      → IsNextDawn int_product config (q * per_day + r) (dawn_of int_product config (suc q))
  tomorrow-IsNextDawn lt after = record {
    day = suc q;
    is_dawn = refl;
    later = omega arith;
    first = λ other h. elim (dec_le (suc q) other) [
      | yes le ↦ omega (arith, mul-le-mul_right per_day le)
      | no gt ↦ absurd (omega (arith, mul-le-mul_right {m = other} {n = q} per_day (omega arith)))
    ];
  }

  minutes_to-IsNextDawn :
      r < per_day
      → dawn ≤ per_day
      → (0 < minutes_to per_day dawn r)
        × IsNextDawn int_product config
            (q * per_day + r)
            (q * per_day + r + minutes_to per_day dawn r)
  minutes_to-IsNextDawn lt fits = elim (Bool-cases (ltb r dawn)) [
    | inl before ↦
        (let e : q * per_day + r + (dawn - r) ≡ dawn_of int_product config q = ground arith in
          rw before (ground arith, rw e (today-IsNextDawn lt fits (ltb→lt r dawn before))))
    | inr after ↦
        (let e : q * per_day + r + (per_day - r + dawn) ≡ dawn_of int_product config (suc q) =
            omega arith in
          rw after (omega arith, rw e (tomorrow-IsNextDawn lt (ground arith))))
  ]

total_minutes-add :
    (ticks n : ℕ) (config : TimeConfig)
    → total_minutes (ticks + n) config ≡ total_minutes ticks config + n * config.minutes_per_tick
total_minutes-add ticks n config = omega arith

-- If the configuration has hours in its day and minutes in its tick, and what floating point makes
-- of the minute of its dawn lies within the day, then the ticks to the next dawn are at least one,
-- that many ticks reach the first such minute after the present one, and one tick fewer does not.
pub ticks_to_next_dawn_least :
    (int_product : ℕ → ℕ → ℕ) (current_ticks : ℕ) (config : Option TimeConfig)
    → 0 < (or_default config).hours_per_day
    → 0 < (or_default config).minutes_per_tick
    → dawn_minute_in_day int_product (or_default config) ≤ minutes_per_day (or_default config)
    → let cfg = or_default config in
      (n : ℕ) × (target : ℕ) × (ticks_to_next_dawn int_product current_ticks config ≡ some n)
      × IsNextDawn int_product cfg (total_minutes current_ticks cfg) target
      × (1 ≤ n)
      × (target ≤ total_minutes (current_ticks + n) cfg)
      × (total_minutes (current_ticks + (n - 1)) cfg < target)
unfolding ticks_to_next_dawn
ticks_to_next_dawn_least int_product current_ticks config h k fits =
    let cfg = or_default config in
    let now = total_minutes current_ticks cfg in
    let day = minutes_per_day cfg in
    let wait = minutes_to day (dawn_minute_in_day int_product cfg) (now % day) in
    let n = max 1 ((wait + cfg.minutes_per_tick - 1) / cfg.minutes_per_tick) in
    let (some_wait, reached) =
      minutes_to-IsNextDawn int_product cfg (now / day) (now % day) (mod-lt now (omega arith))
        fits in
    let (enough, least) = ceil_bounds wait cfg.minutes_per_tick some_wait k in
    (
      n,
      now + wait,
      ground arith,
      rw (div-add-mod' now day) at reached,
      omega arith,
      rw (total_minutes-add current_ticks n cfg) (omega (arith, enough)),
      rw (total_minutes-add current_ticks (n - 1) cfg) (omega (arith, least)),
    )
