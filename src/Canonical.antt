-- ===== src/Canonical.antt =====
-- crates/kide-core/src/canonical.rs: the records that Core persists. The opaque identities, paths
-- and fingerprints wrap a `String` and are read as that string.
mod Units
mod Symbols
mod Facts
unfoldable pub use Units.*
unfoldable pub use Symbols.*
unfoldable pub use Facts.*
