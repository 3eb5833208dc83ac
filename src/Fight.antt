-- ===== src/Fight.antt =====
-- The fights of shared/fight.h and shared/fight.cpp, with the random sources of shared/rng.h.
pub mod Fighter
pub mod Damage
pub mod Clock
pub mod Rounds
pub mod Sources
pub mod Setup
pub mod Start
pub mod Replay
pub mod Alive
pub mod Fuel
pub mod Ends
pub mod Ticks
