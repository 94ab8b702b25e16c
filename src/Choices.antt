-- ===== src/Choices.antt =====
-- The choices of players and what follows from them, tta/choices.
pub mod Chain
pub mod Service
