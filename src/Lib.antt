-- ===== src/Lib.antt =====
-- kide keeps a durable index of a code base. Core, the crate crates/kide-core, owns the index; the
-- workers are processes that Core starts when it needs one, talks to in length-prefixed protobuf
-- frames, and may stop at any time. This library models the decisions of Core:
--
-- - Canonical: crates/kide-core/src/canonical.rs, the records that Core persists. Identities, paths
--   and fingerprints are their UTF-8 bytes (`Base.Strings.Text`).
-- - Freshness: crates/kide-core/src/freshness.rs, what may be reused: `plan_invalidation`,
--   `plan_analysis_invalidation` and `api_dependent_invalidations`.
-- - DependencyIdentity: crates/kide-core/src/dependency_identity.rs, with the descriptor of
--   protocol.rs and the blob key of artifact_cache.rs.
-- - IncrementalPlan: crates/kide-core/src/incremental_plan.rs, the plan of one index generation out
--   of the two planners of Freshness and of the cached artifacts.
-- - Framing: the module `worker_framing` of crates/kide-core/src/lib.rs, and the reader thread of
--   crates/kide-core/src/supervisor.rs (`read_loop`).
-- - WorkerProto: crates/kide-core/src/worker_proto_adapter.rs, every message of the pipe to a worker
--   written as the generated messages of protocol/kide/worker.proto (Wire, and with each adapter)
--   and read back: the facts of a source unit (Facts, Relations), the snapshot that owns them
--   (Snapshots), execution plans, batch requests and artifact descriptors (Control), the texts of
--   enums (Codes), semantic queries (Queries), the handshake and errors (Handshakes), the manifest
--   (Manifests), batches (Batches), artifacts and digests (Artifacts), and the envelope around all of
--   them (Envelope). What the standard library's `Debug` makes of a string, in lower case, is the
--   parameter `quoted`. The texts of `Invalid`, `Missing`
--   and `Unsupported` are kept; a number of 32 or 64 bits is a natural number.
-- - Locations: `byte_offset` of crates/kide-core/src/query_resolver.rs and `position_at` of
--   crates/kide-core/src/text_index.rs, on the bytes of a text.
-- - Protocol: crates/kide-core/src/protocol.rs, the messages and the rule of their versions.
-- - Orchestrator: of crates/kide-core/src/orchestrator.rs, `validate_batch` with the entries that are
--   committed behind it (Batch), `discover_dependency_catalog` (Catalog), and the path of one
--   artifact into the cache: `sha256_bytes` (Digests), `materialize_artifact` (Materialization) and
--   `cache_catalog_artifact_with_metrics` (Warmup).
-- - ArtifactCache: crates/kide-core/src/artifact_cache.rs, blobs as files of a directory: publishing,
--   promoting, opening and reading them, and (Access) what the operating system refuses when a blob
--   is opened or removed.
-- - InputInventory: of crates/kide-core/src/input_inventory.rs, the reconciliation of configuration
--   inputs and the fingerprints.
-- - WorkerRegistry: of crates/kide-core/src/worker_registry.rs, the selection of workers
--   (`select_discovered_with_batch_limit`) and the negotiation of query capabilities.
-- - Supervisor: crates/kide-core/src/supervisor.rs, the life of one worker process: each method of
--   `WorkerSupervisor` with what the process does during the call as an argument.
-- - TreeMap: `BTreeMap` as a sorted association list, with the difference of two maps that the
--   planners share (TreeMap.Diff). Base: lists, orders, sorting and bits for all of them.
--
-- Fuel and bounds. `Framing.read_loop` has fuel for each byte of the stream and one round more, which
-- is enough. `Orchestrator.Catalog.discover_pages` ends only if the worker ends it, and then needs a
-- round for each page. `WorkerRegistry.chunks` has fuel for each unit, and
-- `Protocol.digits_before` for the ten digits of a `u32`. The length prefix of a frame is kept in 64
-- bits as in the source; counts of a `u32` or a `usize` that only compare are numbers without a
-- bound.
--
-- Parameters. prost's envelope (`Framing.Message`), the worker that answers a discovery request and the
-- outcome of its handshake,
-- SHA-256 in hexadecimal and as bytes, the test whether a blob is in the cache, and the index store of
-- a warmup (`Orchestrator.Warmup.Catalog`).
--
-- Not modelled: the SQLite store, threads and the operating system behind a process, the file
-- system, the binary form of protobuf messages and the adapter of artifacts, queries, the command
-- line, and the Kotlin worker.
pub mod Base
pub mod TreeMap
pub mod Canonical
pub mod Freshness
pub mod DependencyIdentity
pub mod IncrementalPlan
pub mod Framing
pub mod Protocol
pub mod Supervisor
pub mod Orchestrator
pub mod InputInventory
pub mod WorkerRegistry
pub mod ArtifactCache
pub mod WorkerProto
pub mod Locations
mod Tests
