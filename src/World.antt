-- ===== src/World.antt =====
-- The world of tta/world.
pub mod Template
pub mod Validator
