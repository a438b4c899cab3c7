-- ===== src/Tests.antt =====
-- Runs of the model at small inputs, and the theorems at inputs that meet their hypotheses.
mod Queues
mod Scheduling
mod Tasks
mod Start
mod Rounds
mod Devices
mod Allocator
mod Blocks
