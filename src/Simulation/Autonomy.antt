-- ===== src/Simulation/Autonomy.antt =====
-- tta/simulation/npc_autonomy.py
pub mod Routine
pub mod Process
mod Tests
