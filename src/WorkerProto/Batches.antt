-- ===== src/WorkerProto/Batches.antt =====
-- The responses about batches of protocol/kide/worker.proto and the delta, and their adapters. A
-- phase timing and a metric have the same fields on the wire, and are read as themselves.
pub mod RoundTrip
use kide.Base.{
  ℕ, Text, utf8, text_eq, List, [], ◌∷◌, ◌++◌, map, Option, none, some, Bool, not, ◌||◌,
}
use kide.Base.{◌==◌, eqb, if◌then◌else◌, length, take, drop, all, is_some}
use kide.Base.Results.{Result, ok, err, ◌>>=◌, ok_or}
use kide.Protocol.{
  FileAnalysisSnapshot, AnalysisBatchResponse, ArtifactCandidate, PhaseTiming, WorkerMetric,
  AnalysisDelta, ArtifactAnalysisRequest, ArtifactAnalysisResponse, ArtifactDiscoveryRequest,
  ArtifactDiscoveryResponse, ArtifactLocator, ArtifactMaterializationRequest,
  ArtifactMaterializationResponse,
}
use kide.ArtifactCache.{hex}
use kide.Orchestrator.Digests.{from_str_radix, digit_value, strip_sha256}
use kide.WorkerProto.Wire.{AdapterError, missing, invalid, WireSnapshot}
use kide.WorkerProto.Facts.{collect_results}
use kide.WorkerProto.Snapshots.{file_analysis_snapshot, decode_file_analysis_snapshot}
use kide.WorkerProto.Control.{
  is_empty, WireExecutionPlan, execution_plan, decode_execution_plan, WireArtifactDescriptor,
  proto_descriptor, decode_descriptor,
}

pub record WireCandidate : Type 0 where
  pub locator : Text
  pub component_id : Text
  pub context_fingerprint : Text

unfoldable pub artifact_candidate : ArtifactCandidate → WireCandidate
artifact_candidate value = record {
  locator = value.locator;
  component_id = value.component;
  context_fingerprint = value.context;
}

unfoldable pub decode_artifact_candidate : WireCandidate → Result ArtifactCandidate AdapterError
decode_artifact_candidate value =
    if is_empty value.locator || (is_empty value.component_id || is_empty value.context_fingerprint)
    then err (invalid (utf8 "artifact candidate"))
    else ok (record {
      locator = value.locator;
      component = value.component_id;
      context = value.context_fingerprint;
    })

pub record WireBatchResponse : Type 0 where
  pub snapshots : List WireSnapshot
  pub timings : List PhaseTiming
  pub artifact_candidates : List WireCandidate
  pub metrics : List WorkerMetric

unfoldable pub analysis_batch_response :
    AnalysisBatchResponse → Result WireBatchResponse AdapterError
unfolding artifact_candidate
analysis_batch_response value = do
  snapshots ← collect_results file_analysis_snapshot value.snapshots
  ok (record {
    snapshots = snapshots;
    timings = value.timings;
    artifact_candidates = map artifact_candidate value.artifact_candidates;
    metrics = value.metrics;
  })

unfoldable pub decode_analysis_batch_response :
    WireBatchResponse → Result AnalysisBatchResponse AdapterError
unfolding decode_artifact_candidate
decode_analysis_batch_response value = do
  snapshots ← collect_results decode_file_analysis_snapshot value.snapshots
  candidates ← collect_results decode_artifact_candidate value.artifact_candidates
  ok (record {
    snapshots = snapshots;
    timings = value.timings;
    artifact_candidates = candidates;
    metrics = value.metrics;
  })

-- `map` and `transpose`
unfoldable pub transpose {ℓ κ} :
    {A : Type ℓ} {B : Type κ}
    → (A → Result B AdapterError)
    → Option A
    → Result (Option B) AdapterError
transpose f none = ok none
transpose f (some a) = do b ← f a; ok (some b)

pub record WireDelta : Type 0 where
  pub source_unit_id : Text
  pub previous_content_fingerprint : Option Text
  pub snapshot : Option WireSnapshot

unfoldable pub proto_delta : AnalysisDelta → Result WireDelta AdapterError
unfolding transpose
proto_delta value = do
  snapshot ← transpose file_analysis_snapshot value.snapshot
  ok (record {
    source_unit_id = value.source_unit;
    previous_content_fingerprint = value.previous_content;
    snapshot = snapshot;
  })

unfoldable pub decode_analysis_delta : WireDelta → Result AnalysisDelta AdapterError
unfolding transpose
decode_analysis_delta value = do
  snapshot ← transpose decode_file_analysis_snapshot value.snapshot
  ok (record {
    source_unit = value.source_unit_id;
    previous_content = value.previous_content_fingerprint;
    snapshot = snapshot;
  })
