-- ===== src/WorkerProto/Artifacts.antt =====
-- The messages about artifacts of protocol/kide/worker.proto, and their adapters. A phase timing, a
-- metric and an artifact's locator have the same fields on the wire, and are read as themselves.
pub mod RoundTrip
use kide.Base.{
  ℕ, Text, utf8, text_eq, List, [], ◌∷◌, ◌++◌, map, Option, none, some, Bool, not, ◌||◌,
}
use kide.Base.{◌==◌, eqb, if◌then◌else◌, length, take, drop, all, is_some}
use kide.Base.Results.{Result, ok, err, ◌>>=◌, ok_or}
use kide.Protocol.{
  FileAnalysisSnapshot, AnalysisBatchResponse, ArtifactCandidate, PhaseTiming, WorkerMetric,
  AnalysisDelta, ArtifactAnalysisRequest, ArtifactAnalysisResponse, ArtifactDiscoveryRequest,
  ArtifactDiscoveryResponse, ArtifactLocator, ArtifactMaterializationRequest,
  ArtifactMaterializationResponse,
}
use kide.ArtifactCache.{hex}
use kide.Orchestrator.Digests.{from_str_radix, digit_value, strip_sha256}
use kide.WorkerProto.Wire.{AdapterError, missing, invalid, WireSnapshot}
use kide.WorkerProto.Facts.{collect_results}
use kide.WorkerProto.Snapshots.{file_analysis_snapshot, decode_file_analysis_snapshot}
use kide.WorkerProto.Control.{
  is_empty, WireExecutionPlan, execution_plan, decode_execution_plan, WireArtifactDescriptor,
  proto_descriptor, decode_descriptor,
}

pub record WireAnalysisRequest : Type 0 where
  pub workspace_root : Text
  pub max_artifacts : ℕ
  pub cursor : Option Text

unfoldable pub proto_analysis_request : ArtifactAnalysisRequest → WireAnalysisRequest
proto_analysis_request value = record {
  workspace_root = value.workspace_root;
  max_artifacts = value.max_artifacts;
  cursor = value.cursor;
}

unfoldable pub decode_analysis_request :
    WireAnalysisRequest → Result ArtifactAnalysisRequest AdapterError
decode_analysis_request value =
    if eqb value.max_artifacts 0
    then err (invalid (utf8 "artifact analysis max artifacts"))
    else ok (record {
      workspace_root = value.workspace_root;
      max_artifacts = value.max_artifacts;
      cursor = value.cursor;
    })

pub record WireAnalysisResponse : Type 0 where
  pub snapshots : List WireSnapshot
  pub next_cursor : Option Text

unfoldable pub proto_analysis_response :
    ArtifactAnalysisResponse → Result WireAnalysisResponse AdapterError
proto_analysis_response value = do
  snapshots ← collect_results file_analysis_snapshot value.snapshots
  ok (record { snapshots = snapshots; next_cursor = value.next_cursor })

unfoldable pub decode_analysis_response :
    WireAnalysisResponse → Result ArtifactAnalysisResponse AdapterError
decode_analysis_response value = do
  snapshots ← collect_results decode_file_analysis_snapshot value.snapshots
  ok (record { snapshots = snapshots; next_cursor = value.next_cursor })

pub record WireDiscoveryRequest : Type 0 where
  pub workspace_root : Text
  pub max_artifacts : ℕ
  pub cursor : Option Text
  pub execution_plan : Option WireExecutionPlan

unfoldable pub proto_discovery_request : ArtifactDiscoveryRequest → WireDiscoveryRequest
proto_discovery_request request = record {
  workspace_root = request.workspace_root;
  max_artifacts = request.max_artifacts;
  cursor = request.cursor;
  execution_plan = some (execution_plan request.execution_plan);
}

unfoldable pub decode_discovery_request :
    WireDiscoveryRequest → Result ArtifactDiscoveryRequest AdapterError
decode_discovery_request request = do
  wire_plan ←
      ok_or request.execution_plan (missing (utf8 "artifact_discovery_request.execution_plan"))
  plan ← decode_execution_plan wire_plan
  ok (record {
    workspace_root = request.workspace_root;
    max_artifacts = request.max_artifacts;
    cursor = request.cursor;
    execution_plan = plan;
  })

pub record WireDiscoveryResponse : Type 0 where
  pub artifacts : List WireArtifactDescriptor
  pub next_cursor : Option Text
  pub artifact_locators : List ArtifactLocator

unfoldable pub proto_discovery_response : ArtifactDiscoveryResponse → WireDiscoveryResponse
proto_discovery_response response = record {
  artifacts = map proto_descriptor response.artifacts;
  next_cursor = response.next_cursor;
  artifact_locators = response.artifact_locators;
}

unfoldable pub decode_discovery_response :
    WireDiscoveryResponse → Result ArtifactDiscoveryResponse AdapterError
decode_discovery_response value = do
  artifacts ← collect_results decode_descriptor value.artifacts
  ok (record {
    artifacts = artifacts;
    next_cursor = value.next_cursor;
    artifact_locators = value.artifact_locators;
  })

-- `from_str_radix` of each pair of hexadecimal digits.
unfoldable pub hex_pairs : Text → Result (List ℕ) AdapterError
hex_pairs [] = ok []
hex_pairs (a ∷ []) = err (invalid (utf8 "sha256 fingerprint encoding"))
hex_pairs (a ∷ b ∷ rest) = do
  byte ← ok_or (from_str_radix a b) (invalid (utf8 "sha256 fingerprint encoding"))
  bytes ← hex_pairs rest
  ok (byte ∷ bytes)

-- `is_ascii_hexdigit`
unfoldable pub is_hex_digit : ℕ → Bool
is_hex_digit c = is_some (digit_value c)

-- `sha256_bytes` of the adapter, behind the test of its prefix.
unfoldable pub fingerprint_digits : Text → Result (List ℕ) AdapterError
unfolding hex_pairs is_hex_digit
fingerprint_digits digits =
    if not (eqb (length digits) 64) || not (all is_hex_digit digits)
    then err (invalid (utf8 "sha256 fingerprint encoding"))
    else hex_pairs digits

unfoldable pub fingerprint_bytes : Text → Result (List ℕ) AdapterError
unfolding fingerprint_digits strip_sha256
fingerprint_bytes value = do
  digits ← ok_or (strip_sha256 value) (invalid (utf8 "sha256 fingerprint prefix"))
  fingerprint_digits digits

unfoldable pub sha256_fingerprint : List ℕ → Result Text AdapterError
unfolding hex
sha256_fingerprint value =
    if not (eqb (length value) 32)
    then err (invalid (utf8 "sha256 byte length"))
    else ok (utf8 "sha256:" ++ hex value)

pub record WireMaterializationRequest : Type 0 where
  pub workspace_root : Text
  pub artifact : Option WireArtifactDescriptor
  pub staging_directory : Text
  pub blob_format_version : ℕ
  pub artifact_locator : Option Text

unfoldable pub proto_materialization_request :
    ArtifactMaterializationRequest → WireMaterializationRequest
proto_materialization_request value = record {
  workspace_root = value.workspace_root;
  artifact = some (proto_descriptor value.artifact);
  staging_directory = value.staging_directory;
  blob_format_version = value.blob_format_version;
  artifact_locator = value.artifact_locator;
}

unfoldable pub decode_materialization_request :
    WireMaterializationRequest → Result ArtifactMaterializationRequest AdapterError
decode_materialization_request value =
    let decoded : Result ArtifactMaterializationRequest AdapterError = (do
      wire ← ok_or value.artifact (missing (utf8 "materialization.artifact"))
      artifact ← decode_descriptor wire
      ok (record {
        workspace_root = value.workspace_root;
        artifact = artifact;
        staging_directory = value.staging_directory;
        blob_format_version = value.blob_format_version;
        artifact_locator = value.artifact_locator;
      })) in
    if is_empty value.staging_directory
    then err (invalid (utf8 "staging directory"))
    else if eqb value.blob_format_version 0
    then err (invalid (utf8 "blob format version"))
    else decoded

pub record WireMaterializationResponse : Type 0 where
  pub staged_filename : Text
  pub byte_length : ℕ
  pub sha256 : List ℕ
  pub blob_format_version : ℕ
  pub timings : List PhaseTiming
  pub metrics : List WorkerMetric

-- The guard on both sides of the wire.
unfoldable pub is_unfinished : Text → ℕ → ℕ → Bool
is_unfinished staged_filename byte_length blob_format_version =
    is_empty staged_filename || (eqb byte_length 0 || eqb blob_format_version 0)

unfoldable pub proto_materialization_response :
    ArtifactMaterializationResponse → Result WireMaterializationResponse AdapterError
unfolding is_unfinished
proto_materialization_response value =
    let encoded : Result WireMaterializationResponse AdapterError = (do
      sha256 ← fingerprint_bytes value.sha256
      ok (record {
        staged_filename = value.staged_filename;
        byte_length = value.byte_length;
        sha256 = sha256;
        blob_format_version = value.blob_format_version;
        timings = value.timings;
        metrics = value.metrics;
      })) in
    if is_unfinished value.staged_filename value.byte_length value.blob_format_version
    then err (invalid (utf8 "materialization completion metadata"))
    else encoded

unfoldable pub decode_materialization_response :
    WireMaterializationResponse → Result ArtifactMaterializationResponse AdapterError
unfolding is_unfinished
decode_materialization_response value =
    let decoded : Result ArtifactMaterializationResponse AdapterError = (do
      sha256 ← sha256_fingerprint value.sha256
      ok (record {
        staged_filename = value.staged_filename;
        byte_length = value.byte_length;
        sha256 = sha256;
        blob_format_version = value.blob_format_version;
        timings = value.timings;
        metrics = value.metrics;
      })) in
    if is_unfinished value.staged_filename value.byte_length value.blob_format_version
    then err (invalid (utf8 "materialization completion metadata"))
    else decoded
