-- ===== src/Tests.antt =====
-- A concrete world, runs of the program in it, and the theorems at concrete inputs.
mod World
mod Scaling
mod Repairing
mod Rounds
mod Maps
mod Registry
mod Status
mod Evicting
mod Working
mod Fallback
mod Interleaving
