-- ===== src/Orchestrator.antt =====
-- crates/kide-core/src/orchestrator.rs: what Core checks before it commits what workers return. The
-- store, the threads and the clocks are not modelled.
pub mod Errors
pub mod Batch
pub mod Catalog
pub mod Digests
pub mod Materialization
pub mod Warmup
