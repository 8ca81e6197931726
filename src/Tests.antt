-- ===== src/Tests.antt =====
-- Runs of the modelled operations on small inputs.
mod Wire
mod Handles
mod Tasks
mod Client
mod Federation
mod Waiting
mod Setup
