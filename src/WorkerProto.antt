-- ===== src/WorkerProto.antt =====
-- crates/kide-core/src/worker_proto_adapter.rs: what crosses the pipe to a worker. Wire has the
-- messages of facts that the build generates from protocol/kide/worker.proto, Names the texts of the
-- enums, Facts and Relations the facts of a source unit, Provenances the table of a snapshot's
-- provenances, and Snapshots the snapshot. Control, Codes, Queries, Handshakes, Manifests, Batches
-- and Artifacts have the other messages beside their adapters, and Envelope the envelope of all.
pub mod Wire
pub mod Names
pub mod Facts
pub mod Relations
pub mod Provenances
pub mod Snapshots
pub mod Control
pub mod Codes
pub mod Queries
pub mod Handshakes
pub mod Manifests
pub mod Batches
pub mod Artifacts
pub mod Envelope
