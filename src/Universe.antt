-- ===== src/Universe.antt =====
-- The universes of the players, tta/universe.
pub mod Service
