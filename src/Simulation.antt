-- ===== src/Simulation.antt =====
-- The simulation of tta/simulation.
pub mod Autonomy
pub mod WorldTime
pub mod Consequence
pub mod NpcMemory
pub mod WorldMemory
