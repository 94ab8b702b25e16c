-- ===== src/Simulation/WorldTime/Clock.antt =====
-- The clock face.
use native.Mathlib.Nat.{div-add-mod', mod-lt}
use fictional_barnacle.Prelude.{
  ℕ, ◌+◌, ◌*◌, ◌/◌, ◌%◌, ◌<◌, ◌≡◌, refl, ◌⊎◌, inl, inr, none, some, arith, Bool-cases, ◌==◌,
}
use fictional_barnacle.Simulation.WorldTime.{
  TimeConfig, WorldTime, boundaries_of, compute_world_time, minutes_per_day, resolve_label,
  sort_boundaries, total_minutes,
}

-- With at least one hour to the day there is a world time, and it tells the total: the days, hours
-- and minutes add up to the minutes that the ticks and the starting offset make, the hour is one of
-- the day's and the minute one of the hour's. With no hour to the day the computation fails.
pub compute_world_time_tells :
    (ticks : ℕ) (config : TimeConfig)
    → ((w : WorldTime) × (compute_world_time ticks config ≡ some w)
        × (w.day_count * minutes_per_day config + w.hour * 60 + w.minute
            ≡ total_minutes ticks config)
        × (w.hour < config.hours_per_day)
        × (w.minute < 60)
        × (w.total_ticks ≡ ticks))
      ⊎ ((config.hours_per_day ≡ 0) × (compute_world_time ticks config ≡ none))
unfolding compute_world_time
compute_world_time_tells ticks config = elim (Bool-cases (minutes_per_day config == 0)) [
  | inl empty ↦ inr (ground arith, rw (empty, compute_world_time))
  | inr full ↦ inl (
    record {
      total_ticks = ticks;
      day_count = total_minutes ticks config / minutes_per_day config;
      hour = total_minutes ticks config % minutes_per_day config / 60;
      minute = total_minutes ticks config % minutes_per_day config % 60;
      time_of_day_label =
          resolve_label (total_minutes ticks config % minutes_per_day config)
            (minutes_per_day config) "midnight" (sort_boundaries (boundaries_of config));
    },
    rw (full, compute_world_time),
    omega (arith, div-add-mod' (total_minutes ticks config) (minutes_per_day config)),
    omega (arith, mod-lt (total_minutes ticks config) {m = minutes_per_day config} (ground arith)),
    omega arith,
    refl,
  )
]
