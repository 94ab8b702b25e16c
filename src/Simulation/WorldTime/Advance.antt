-- ===== src/Simulation/WorldTime/Advance.antt =====
-- Turns and skips.
use fictional_barnacle.Prelude.{ℕ, ◌+◌, ◌<◌, min, max, ◌≡◌, ◌↔◌, true, false, Option, some, arith}
use fictional_barnacle.Simulation.WorldTime.{
  TimeConfig, WorldDelta, compute_world_time, or_default, skip_ahead, tick,
}

-- A turn of any configuration moves time forward, by the configured ticks or by one if that is
-- none, is never capped, and carries the world time of the tick that it reaches.
pub tick_advances :
    (current_ticks : ℕ) (config : Option TimeConfig) (d : WorldDelta)
    → tick current_ticks config ≡ some d
    → (d.from_tick ≡ current_ticks)
      × (d.from_tick < d.to_tick)
      × (d.to_tick ≡ current_ticks + max 1 (or_default config).ticks_per_turn)
      × (compute_world_time d.to_tick (or_default config) ≡ some d.world_time)
      × (d.was_capped ≡ false)
unfolding tick
tick_advances current_ticks config d e = ground arith

-- A skip moves time forward by what was asked for or by `max_skip_ticks`, whichever is less, says
-- that it was capped exactly when more was asked for than allowed, and carries the world time of
-- the tick that it reaches.
pub skip_ahead_capped :
    (current_ticks requested_ticks : ℕ) (config : Option TimeConfig) (d : WorldDelta)
    → skip_ahead current_ticks requested_ticks config ≡ some d
    → (d.from_tick ≡ current_ticks)
      × (d.to_tick ≡ current_ticks + min requested_ticks (or_default config).max_skip_ticks)
      × ((d.was_capped ≡ true) ↔ ((or_default config).max_skip_ticks < requested_ticks))
      × (compute_world_time d.to_tick (or_default config) ≡ some d.world_time)
unfolding skip_ahead
skip_ahead_capped current_ticks requested_ticks config d e = ground arith
