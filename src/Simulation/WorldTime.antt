-- ===== src/Simulation/WorldTime.antt =====
-- tta/simulation/world_time.py, with the types of tta/simulation/types.py. Fractions of a day are
-- in thousandths, and compared exactly; what floating point makes of the product of a fraction and
-- a number of minutes, cut off to an integer, is a parameter. `none` is Python's
-- `ZeroDivisionError`.
pub mod Clock
pub mod Label
pub mod Dawn
pub mod Advance
mod Tests
use fictional_barnacle.Prelude.{
  ℕ, ◌+◌, ◌-◌, ◌*◌, ◌/◌, ◌%◌, min, max, String, Bool, false, Option, none, some, [], ◌∷◌,
  if◌then◌else◌, leb, ltb, ◌==◌,
}
use fictional_barnacle.Prelude.Dict.{Dict, lookup}

-- `WorldTime`
pub record WorldTime : Type 0 where
  pub total_ticks : ℕ
  pub day_count : ℕ
  pub hour : ℕ
  pub minute : ℕ
  pub time_of_day_label : String

-- `TimeConfig`
pub record TimeConfig : Type 0 where
  pub ticks_per_turn : ℕ
  pub minutes_per_tick : ℕ
  pub hours_per_day : ℕ
  pub day_start_hour : ℕ
  pub starting_hour : ℕ
  pub starting_day : ℕ
  pub max_skip_ticks : ℕ
  pub tod_boundaries : Option (Dict ℕ)

-- The field defaults, `TimeConfig()`.
abbrev pub default_config : TimeConfig
default_config = record {
  ticks_per_turn = 1;
  minutes_per_tick = 60;
  hours_per_day = 24;
  day_start_hour = 6;
  starting_hour = 8;
  starting_day = 0;
  max_skip_ticks = 48;
  tod_boundaries = none;
}

-- `WorldDelta`, less the fields that the later stages fill.
pub record WorldDelta : Type 0 where
  pub from_tick : ℕ
  pub to_tick : ℕ
  pub world_time : WorldTime
  pub was_capped : Bool

-- `DEFAULT_TOD_BOUNDARIES`
abbrev pub default_tod_boundaries : Dict ℕ
default_tod_boundaries =
    ("midnight", 0)
    ∷ ("predawn", 42)
    ∷ ("dawn", 208)
    ∷ ("morning", 292)
    ∷ ("midday", 500)
    ∷ ("afternoon", 583)
    ∷ ("dusk", 708)
    ∷ ("evening", 833)
    ∷ ("night", 917)
    ∷ []

abbrev pub minutes_per_day : TimeConfig → ℕ
minutes_per_day config = config.hours_per_day * 60

-- `total_minutes`, with the offset of the starting day and hour.
abbrev pub total_minutes : ℕ → TimeConfig → ℕ
total_minutes ticks config =
    ticks * config.minutes_per_tick
    + (config.starting_day * minutes_per_day config + config.starting_hour * 60)

-- `config.tod_boundaries or DEFAULT_TOD_BOUNDARIES`: an empty dict counts as none.
pub boundaries_of : TimeConfig → Dict ℕ
boundaries_of config = elim config.tod_boundaries [
  | none ↦ default_tod_boundaries
  | some [] ↦ default_tod_boundaries
  | some (b ∷ bs) ↦ b ∷ bs
]

-- `sorted(boundaries.items(), key=lambda kv: kv[1])`, by stable insertion.
pub insert_boundary : String × ℕ → Dict ℕ → Dict ℕ
insert_boundary b [] = b ∷ []
insert_boundary b (c ∷ cs) = if leb b.1 c.1 then b ∷ c ∷ cs else c ∷ insert_boundary b cs

pub sort_boundaries : Dict ℕ → Dict ℕ
unfolding insert_boundary
sort_boundaries [] = []
sort_boundaries (b ∷ bs) = insert_boundary b (sort_boundaries bs)

-- `fraction >= start`, for the fraction `minutes / per_day`.
abbrev pub has_started : ℕ → ℕ → ℕ → Bool
has_started minutes per_day start = leb (start * per_day) (1000 * minutes)

-- The `for` loop that resolves the label.
pub resolve_label : ℕ → ℕ → String → Dict ℕ → String
resolve_label minutes per_day label [] = label
resolve_label minutes per_day label (b ∷ bs) =
    resolve_label minutes per_day (if has_started minutes per_day b.1 then b.0 else label) bs

-- `compute_world_time`
pub compute_world_time : ℕ → TimeConfig → Option WorldTime
unfolding boundaries_of sort_boundaries resolve_label
compute_world_time total_ticks config =
    let per_day = minutes_per_day config in
    let total = total_minutes total_ticks config in
    let minutes_in_day = total % per_day in
    if per_day == 0
    then none
    else some (record {
      total_ticks = total_ticks;
      day_count = total / per_day;
      hour = minutes_in_day / 60;
      minute = minutes_in_day % 60;
      time_of_day_label =
          resolve_label minutes_in_day per_day "midnight" (sort_boundaries (boundaries_of config));
    })

-- `config or TimeConfig()`
abbrev pub or_default : Option TimeConfig → TimeConfig
or_default none = default_config
or_default (some config) = config

-- The end of `tick` and of `skip_ahead`.
abbrev pub delta_to : ℕ → ℕ → Bool → TimeConfig → Option WorldDelta
delta_to from_tick to_tick was_capped cfg = elim (compute_world_time to_tick cfg) [
  | none ↦ none
  | some world_time ↦ some (record {
    from_tick = from_tick;
    to_tick = to_tick;
    world_time = world_time;
    was_capped = was_capped;
  })
]

-- `WorldTimeService.tick`
pub tick : ℕ → Option TimeConfig → Option WorldDelta
tick current_ticks config =
    let cfg = or_default config in
    let steps = if ltb 0 cfg.ticks_per_turn then cfg.ticks_per_turn else 1 in
    delta_to current_ticks (current_ticks + steps) false cfg

-- `WorldTimeService.skip_ahead`
pub skip_ahead : ℕ → ℕ → Option TimeConfig → Option WorldDelta
skip_ahead current_ticks requested_ticks config =
    let cfg = or_default config in
    let actual = min requested_ticks cfg.max_skip_ticks in
    delta_to current_ticks (current_ticks + actual) (ltb actual requested_ticks) cfg

-- `WorldTimeService.initial_world_time`
pub initial_world_time : Option TimeConfig → Option WorldTime
initial_world_time config = compute_world_time 0 (or_default config)

-- `int(fraction * minutes)` of `boundaries.get("dawn", …)`: `int_product` is `int` of the product,
-- in floating point, of a fraction in thousandths and a number.
pub dawn_minute_in_day : (ℕ → ℕ → ℕ) → TimeConfig → ℕ
unfolding boundaries_of lookup
dawn_minute_in_day int_product config =
    let fraction : ℕ = elim (lookup "dawn" (boundaries_of config)) [
      | none ↦ 208
      | some start ↦ start
    ] in
    int_product fraction (minutes_per_day config)

-- `WorldTimeService.ticks_to_next_dawn`; `math.ceil(a / b)` is `(a + b - 1) / b`.
pub ticks_to_next_dawn : (ℕ → ℕ → ℕ) → ℕ → Option TimeConfig → Option ℕ
ticks_to_next_dawn int_product current_ticks config =
    let cfg = or_default config in
    let per_day = minutes_per_day cfg in
    let dawn = dawn_minute_in_day int_product cfg in
    let current = total_minutes current_ticks cfg % per_day in
    let minutes_to_dawn = if ltb current dawn then dawn - current else per_day - current + dawn in
    if per_day == 0
    then none
    else if cfg.minutes_per_tick == 0
    then none
    else some (max 1 ((minutes_to_dawn + cfg.minutes_per_tick - 1) / cfg.minutes_per_tick))
