-- ===== src/Simulation/WorldTime/Tests.antt =====
-- The default configuration: a tick is an hour, and the game starts at eight.
use fictional_barnacle.Prelude.{
  ℕ, ◌+◌, ◌-◌, ◌*◌, ◌/◌, ◌≤◌, ◌<◌, ◌≡◌, refl, ◌⊎◌, true, false, none, some, [], ◌∷◌, arith,
  if◌then◌else◌, ◌==◌,
}
use fictional_barnacle.Prelude.Dict.{lookup}
use fictional_barnacle.Simulation.WorldTime.{
  TimeConfig, WorldDelta, WorldTime, boundaries_of, compute_world_time, dawn_minute_in_day,
  default_config, minutes_per_day, skip_ahead, tick, ticks_to_next_dawn, total_minutes,
}
use fictional_barnacle.Simulation.WorldTime.Clock.{compute_world_time_tells}
use fictional_barnacle.Simulation.WorldTime.Dawn.{IsNextDawn, ticks_to_next_dawn_least}
use fictional_barnacle.Simulation.WorldTime.Label.{IsLabel, compute_world_time-IsLabel}

abbrev at_noon : WorldTime
at_noon = record {
  total_ticks = 28;
  day_count = 1;
  hour = 12;
  minute = 0;
  time_of_day_label = "midday";
}

compute-noon : compute_world_time 28 default_config ≡ some at_noon
unfolding compute_world_time
compute-noon = refl

compute_world_time_tells_example :
    ((w : WorldTime) × (compute_world_time 28 default_config ≡ some w)
      × (w.day_count * minutes_per_day default_config + w.hour * 60 + w.minute ≡ 2160)
      × (w.hour < 24)
      × (w.minute < 60)
      × (w.total_ticks ≡ 28))
    ⊎ ((default_config.hours_per_day ≡ 0) × (compute_world_time 28 default_config ≡ none))
compute_world_time_tells_example = compute_world_time_tells 28 default_config

compute_world_time-IsLabel_example :
    IsLabel 720 1440 "midnight" "midday" (boundaries_of default_config)
compute_world_time-IsLabel_example =
    compute_world_time-IsLabel 28 default_config at_noon compute-noon

abbrev turn : WorldDelta
turn = record { from_tick = 27; to_tick = 28; world_time = at_noon; was_capped = false }

abbrev short : TimeConfig
short = record default_config { max_skip_ticks = 8 }

abbrev skip : WorldDelta
skip = record { from_tick = 20; to_tick = 28; world_time = at_noon; was_capped = true }

tick_to_noon : tick 27 none ≡ some turn
unfolding tick compute_world_time
tick_to_noon = refl

skip_to_noon : skip_ahead 20 30 (some short) ≡ some skip
unfolding skip_ahead compute_world_time
skip_to_noon = refl

-- A product that is as it should be.
abbrev exact : ℕ → ℕ → ℕ
exact fraction minutes = fraction * minutes / 1000

-- As with 0.175 in floating point, where 0.175 * 1440 is below 252.
abbrev rounded : ℕ → ℕ → ℕ
rounded fraction minutes = if fraction == 175 then 251 else fraction * minutes / 1000

abbrev by_minutes : TimeConfig
by_minutes = record default_config {
  minutes_per_tick = 1;
  starting_hour = 0;
  tod_boundaries = some (("midnight", 0) ∷ ("dawn", 175) ∷ []);
}

-- At minute 251 the next dawn is a whole day away, though on the clock dawn comes a minute later.
day_long :
    (ticks_to_next_dawn rounded 251 (some by_minutes) ≡ some 1440)
    × (ticks_to_next_dawn exact 251 (some by_minutes) ≡ some 1)
unfolding ticks_to_next_dawn dawn_minute_in_day boundaries_of lookup
day_long = (refl, refl)

-- With ticks of a minute, the ticks to the default dawn lead to a minute that is not dawn yet.
dawn_too_early :
    let cfg = record by_minutes { tod_boundaries = none } in
    (ticks_to_next_dawn exact 0 (some cfg) ≡ some 299)
    × (compute_world_time 299 cfg
        ≡ some (record {
          total_ticks = 299;
          day_count = 0;
          hour = 4;
          minute = 59;
          time_of_day_label = "predawn";
        }))
unfolding ticks_to_next_dawn dawn_minute_in_day boundaries_of lookup compute_world_time
dawn_too_early = (refl, refl)

ticks_to_next_dawn_least_example :
    (n : ℕ) × (target : ℕ) × (ticks_to_next_dawn exact 28 none ≡ some n)
    × IsNextDawn exact default_config (total_minutes 28 default_config) target
    × (1 ≤ n)
    × (target ≤ total_minutes (28 + n) default_config)
    × (total_minutes (28 + (n - 1)) default_config < target)
unfolding dawn_minute_in_day
ticks_to_next_dawn_least_example =
    ticks_to_next_dawn_least exact 28 none (omega arith) (omega arith) (omega arith)
