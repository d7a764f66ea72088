-- ===== src/Protocol.antt =====
-- crates/kide-core/src/protocol.rs: the messages between Core and its workers, and the one rule of
-- their versions.
mod Snapshots
mod Messages
pub use Snapshots.*
unfoldable pub use Messages.*
