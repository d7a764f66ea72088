-- ===== src/Tests.antt =====
-- Runs at concrete inputs.
mod Samples
mod Planning
mod Frames
mod Orchestration
mod Inventory
mod Workers
mod Lifecycle
mod Cache
mod Warmups
mod Adapters
mod Places
