-- ===== src/Protocol/Messages.antt =====
-- The vocabulary of the control plane, and the compatibility of versions.
use kide.Base.{
  ℕ, zero, suc, ◌+◌, ◌/◌, ◌%◌, ◌++◌, Text, utf8, List, [], ◌∷◌, Option, some, Bool, false,
}
use kide.Base.{ltb, eqb, if◌then◌else◌, none}
use kide.Canonical.{WorkspacePath, Fingerprint, SourceUnitId, ProjectManifest}
use kide.DependencyIdentity.{ArtifactDescriptor}
use kide.Protocol.Snapshots.{WorkerCapabilities, OpaqueExecutionPlan, FileAnalysisSnapshot}
use kide.Protocol.Snapshots.{AnalyzeBatchRequest, AnalysisBatchResponse, PhaseTiming, WorkerMetric}
use kide.Protocol.Snapshots.{SemanticQueryRequest, SemanticQueryResponse}

abbrev pub worker_protocol_version : ℕ
worker_protocol_version = 3

pub record HandshakeRequest : Type 0 where
  pub core_version : Text

pub record HandshakeResponse : Type 0 where
  pub capabilities : WorkerCapabilities

pub record ProjectManifestRequest : Type 0 where
  pub workspace_root : WorkspacePath

pub record ProjectManifestResponse : Type 0 where
  pub manifest : ProjectManifest
  pub execution_plan : OpaqueExecutionPlan

pub record ArtifactAnalysisRequest : Type 0 where
  pub workspace_root : WorkspacePath
  pub max_artifacts : ℕ
  pub cursor : Option Text

pub record ArtifactAnalysisResponse : Type 0 where
  pub snapshots : List FileAnalysisSnapshot
  pub next_cursor : Option Text

pub record ArtifactDiscoveryRequest : Type 0 where
  pub workspace_root : WorkspacePath
  pub max_artifacts : ℕ
  pub cursor : Option Text
  pub execution_plan : OpaqueExecutionPlan

pub record ArtifactLocator : Type 0 where
  pub source_unit : SourceUnitId
  pub locator : Text

pub record ArtifactDiscoveryResponse : Type 0 where
  pub artifacts : List ArtifactDescriptor
  pub next_cursor : Option Text
  pub artifact_locators : List ArtifactLocator

pub record ArtifactMaterializationRequest : Type 0 where
  pub workspace_root : WorkspacePath
  pub artifact : ArtifactDescriptor
  pub staging_directory : Text
  pub blob_format_version : ℕ
  pub artifact_locator : Option Text

pub record ArtifactMaterializationResponse : Type 0 where
  pub staged_filename : Text
  pub byte_length : ℕ
  pub sha256 : Fingerprint
  pub blob_format_version : ℕ
  pub timings : List PhaseTiming
  pub metrics : List WorkerMetric

pub record AnalysisDelta : Type 0 where
  pub source_unit : SourceUnitId
  pub previous_content : Option Fingerprint
  pub snapshot : Option FileAnalysisSnapshot

pub data WorkerErrorCode : Type 0 where
  incompatible_protocol_version invalid_request unsupported_capability : WorkerErrorCode
  analysis_failed internal : WorkerErrorCode

pub record WorkerError : Type 0 where
  pub code : WorkerErrorCode
  pub message : Text
  pub retryable : Bool
  pub supported_protocol_version : ℕ
  pub received_protocol_version : Option ℕ

-- The decimal digits of a `u32` before `text`: ten are enough.
unfoldable pub digits_before : ℕ → ℕ → Text → Text
digits_before zero n text = text
digits_before (suc fuel) n text =
    let longer = (48 + n % 10) ∷ text in
    let rest = digits_before fuel (n / 10) longer in if ltb n 10 then longer else rest

unfoldable pub decimal : ℕ → Text
unfolding digits_before
decimal n = digits_before 10 n []

unfoldable pub incompatible : ℕ → WorkerError
unfolding decimal
incompatible received = record {
  code = incompatible_protocol_version;
  message =
      utf8 "worker protocol version "
      ++ decimal received
      ++ utf8 " is incompatible; supported version is "
      ++ decimal worker_protocol_version;
  retryable = false;
  supported_protocol_version = worker_protocol_version;
  received_protocol_version = some received;
}

-- Boxed payloads are read as the payloads.
pub data WorkerMessage : Type 0 where
  handshake_request : HandshakeRequest → WorkerMessage
  handshake_response : HandshakeResponse → WorkerMessage
  project_manifest_request : ProjectManifestRequest → WorkerMessage
  project_manifest_response : ProjectManifestResponse → WorkerMessage
  analyze_batch_request : AnalyzeBatchRequest → WorkerMessage
  analysis_batch_response : AnalysisBatchResponse → WorkerMessage
  artifact_analysis_request : ArtifactAnalysisRequest → WorkerMessage
  artifact_analysis_response : ArtifactAnalysisResponse → WorkerMessage
  artifact_discovery_request : ArtifactDiscoveryRequest → WorkerMessage
  artifact_discovery_response : ArtifactDiscoveryResponse → WorkerMessage
  artifact_materialization_request : ArtifactMaterializationRequest → WorkerMessage
  artifact_materialization_response : ArtifactMaterializationResponse → WorkerMessage
  semantic_query_request : SemanticQueryRequest → WorkerMessage
  semantic_query_response : SemanticQueryResponse → WorkerMessage
  analysis_delta : AnalysisDelta → WorkerMessage
  error : WorkerError → WorkerMessage

pub record WorkerEnvelope : Type 0 where
  pub protocol_version : ℕ
  pub request_id : Text
  pub message : WorkerMessage

unfoldable pub new_envelope : Text → WorkerMessage → WorkerEnvelope
new_envelope request_id message = record {
  protocol_version = worker_protocol_version;
  request_id = request_id;
  message = message;
}

-- `none` is `Ok(())`.
unfoldable pub ensure_compatible_protocol_version : ℕ → Option WorkerError
unfolding incompatible
ensure_compatible_protocol_version version =
    if eqb version worker_protocol_version then none else some (incompatible version)

unfoldable pub validate_protocol_version : WorkerEnvelope → Option WorkerError
unfolding ensure_compatible_protocol_version
validate_protocol_version envelope = ensure_compatible_protocol_version envelope.protocol_version
