-- ===== src/DependencyIdentity.antt =====
-- crates/kide-core/src/dependency_identity.rs, the descriptor of crates/kide-core/src/protocol.rs
-- and the key of crates/kide-core/src/artifact_cache.rs. The serialised form and its digest belong
-- to serde and SHA-256, and are not modelled.
use kide.Base.{ℕ, Text, utf8, text_eq, option_eq, Eq, List, Option, none, some}
use kide.Canonical.{SourceUnit, SymbolId, Fingerprint, Provenance, provenance_eq}
use native.Mathlib.Decide.{ℕ_discrete}

abbrev pub dependency_identity_version : ℕ
dependency_identity_version = 1

abbrev pub artifact_blob_format_version : ℕ
artifact_blob_format_version = 1

abbrev pub canonical_schema_version : ℕ
canonical_schema_version = 1

pub record ResolvedDependencyIdentity : Type 0 where
  pub identity_version : ℕ
  pub ecosystem : Text
  pub canonical_coordinate : Option Text
  pub resolved_version : Option Text
  pub content : Fingerprint
  pub context : Fingerprint
  pub provenance : Provenance
  pub canonical_schema_version : ℕ
  pub blob_format_version : ℕ

identity_dec : Discrete ResolvedDependencyIdentity
identity_dec = hlevel ℕ_discrete

instance unfoldable pub identity_eq : Eq ResolvedDependencyIdentity
unfolding identity_dec
identity_eq = record { dec = identity_dec }

unfoldable pub new_identity :
    Text
    → Option Text
    → Option Text
    → Fingerprint
    → Fingerprint
    → Provenance
    → ℕ
    → ResolvedDependencyIdentity
new_identity ecosystem coordinate version content context provenance blob_format_version = record {
  identity_version = dependency_identity_version;
  ecosystem = ecosystem;
  canonical_coordinate = coordinate;
  resolved_version = version;
  content = content;
  context = context;
  provenance = provenance;
  canonical_schema_version = canonical_schema_version;
  blob_format_version = blob_format_version;
}

-- The identity of a worker that reports no coordinate.
unfoldable pub unattributed :
    Fingerprint → Fingerprint → Provenance → ℕ → ResolvedDependencyIdentity
unfolding new_identity
unattributed = new_identity (utf8 "unknown") none none

pub record SymbolLocator : Type 0 where
  pub qualified_name : Text
  pub symbol : SymbolId

pub record ArtifactDescriptor : Type 0 where
  pub source_unit : SourceUnit
  pub provenance : Provenance
  pub resolved_identity : Option ResolvedDependencyIdentity
  pub symbol_locators : List SymbolLocator

unfoldable pub resolved_identity : ArtifactDescriptor → ResolvedDependencyIdentity
unfolding unattributed
resolved_identity d = elim d.resolved_identity [
  | some identity ↦ identity
  | none ↦
      unattributed d.source_unit.content d.source_unit.context d.provenance
        artifact_blob_format_version
]

pub record ArtifactBlobKey : Type 0 where
  pub identity : ResolvedDependencyIdentity

unfoldable pub from_identity : ResolvedDependencyIdentity → ArtifactBlobKey
from_identity identity = record { identity = identity }

unfoldable pub for_descriptor : ArtifactDescriptor → ArtifactBlobKey
unfolding from_identity resolved_identity
for_descriptor d = from_identity (resolved_identity d)
