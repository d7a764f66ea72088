-- ===== src/WorkerProto/Envelope.antt =====
-- The envelope of protocol/kide/worker.proto and its adapter: `envelope` and `decode_envelope`, which
-- choose the adapter of each of the sixteen messages.
pub mod RoundTrip
use kide.Base.{ℕ, Text, utf8, Option, none, some}
use kide.Base.Results.{Result, ok, err, ◌>>=◌, ok_or}
use kide.Protocol.{WorkerMessage, WorkerEnvelope}
use kide.WorkerProto.Wire.{AdapterError, missing}
use kide.WorkerProto.Control.{
  WireExecutionPlan, execution_plan, decode_execution_plan, WireAnalyzeBatchRequest,
  decode_analyze_batch_request,
}
use kide.WorkerProto.Control
use kide.WorkerProto.Queries.{
  WireQueryRequest, proto_query_request, decode_query_request, WireQueryResponse,
  proto_query_response, decode_query_response,
}
use kide.WorkerProto.Handshakes.{
  WireHandshakeResponse, proto_handshake_response, decode_handshake_response, WireError,
  proto_worker_error, decode_worker_error,
}
use kide.WorkerProto.Manifests.{WireManifest, proto_manifest, decode_manifest}
use kide.WorkerProto.Batches.{
  WireBatchResponse, decode_analysis_batch_response, WireDelta, proto_delta, decode_analysis_delta,
}
use kide.WorkerProto.Artifacts.{
  WireAnalysisRequest, proto_analysis_request, decode_analysis_request, WireAnalysisResponse,
  proto_analysis_response, decode_analysis_response, WireDiscoveryRequest, proto_discovery_request,
  decode_discovery_request, WireDiscoveryResponse, proto_discovery_response,
  decode_discovery_response, WireMaterializationRequest, proto_materialization_request,
  decode_materialization_request, WireMaterializationResponse, proto_materialization_response,
  decode_materialization_response,
}
use kide.WorkerProto.Batches

pub record WireManifestResponse : Type 0 where
  pub manifest : Option WireManifest
  pub execution_plan : Option WireExecutionPlan

pub data WireMessage : Type 0 where
  handshake_request : Text → WireMessage
  handshake_response : WireHandshakeResponse → WireMessage
  project_manifest_request : Text → WireMessage
  project_manifest_response : WireManifestResponse → WireMessage
  analyze_batch_request : WireAnalyzeBatchRequest → WireMessage
  analysis_batch_response : WireBatchResponse → WireMessage
  artifact_analysis_request : WireAnalysisRequest → WireMessage
  artifact_analysis_response : WireAnalysisResponse → WireMessage
  artifact_discovery_request : WireDiscoveryRequest → WireMessage
  artifact_discovery_response : WireDiscoveryResponse → WireMessage
  artifact_materialization_request : WireMaterializationRequest → WireMessage
  artifact_materialization_response : WireMaterializationResponse → WireMessage
  semantic_query_request : WireQueryRequest → WireMessage
  semantic_query_response : WireQueryResponse → WireMessage
  analysis_delta : WireDelta → WireMessage
  error : WireError → WireMessage

pub record WireEnvelope : Type 0 where
  pub protocol_version : ℕ
  pub request_id : Text
  pub message : Option WireMessage

-- The arms of `decode_envelope`.
unfoldable pub decode_message : WireMessage → Result WorkerMessage AdapterError
decode_message (WireMessage.handshake_request core_version) =
    ok (WorkerMessage.handshake_request (record { core_version = core_version }))
decode_message (WireMessage.handshake_response response) = do
  decoded ← decode_handshake_response response
  ok (WorkerMessage.handshake_response decoded)
decode_message (WireMessage.project_manifest_request workspace_root) =
    ok (WorkerMessage.project_manifest_request (record { workspace_root = workspace_root }))
decode_message (WireMessage.project_manifest_response response) = do
  wire_manifest ← ok_or response.manifest (missing (utf8 "project_manifest_response.manifest"))
  manifest ← decode_manifest wire_manifest
  wire_plan ←
      ok_or response.execution_plan (missing (utf8 "project_manifest_response.execution_plan"))
  plan ← decode_execution_plan wire_plan
  ok (
      WorkerMessage.project_manifest_response
        (record { manifest = manifest; execution_plan = plan }))
decode_message (WireMessage.analyze_batch_request request) = do
  decoded ← decode_analyze_batch_request request
  ok (WorkerMessage.analyze_batch_request decoded)
decode_message (WireMessage.analysis_batch_response response) = do
  decoded ← decode_analysis_batch_response response
  ok (WorkerMessage.analysis_batch_response decoded)
decode_message (WireMessage.artifact_analysis_request request) = do
  decoded ← decode_analysis_request request
  ok (WorkerMessage.artifact_analysis_request decoded)
decode_message (WireMessage.artifact_analysis_response response) = do
  decoded ← decode_analysis_response response
  ok (WorkerMessage.artifact_analysis_response decoded)
decode_message (WireMessage.artifact_discovery_request request) = do
  decoded ← decode_discovery_request request
  ok (WorkerMessage.artifact_discovery_request decoded)
decode_message (WireMessage.artifact_discovery_response response) = do
  decoded ← decode_discovery_response response
  ok (WorkerMessage.artifact_discovery_response decoded)
decode_message (WireMessage.artifact_materialization_request request) = do
  decoded ← decode_materialization_request request
  ok (WorkerMessage.artifact_materialization_request decoded)
decode_message (WireMessage.artifact_materialization_response response) = do
  decoded ← decode_materialization_response response
  ok (WorkerMessage.artifact_materialization_response decoded)
decode_message (WireMessage.semantic_query_request request) = do
  decoded ← decode_query_request request
  ok (WorkerMessage.semantic_query_request decoded)
decode_message (WireMessage.semantic_query_response response) = do
  decoded ← decode_query_response response
  ok (WorkerMessage.semantic_query_response decoded)
decode_message (WireMessage.analysis_delta delta) = do
  decoded ← decode_analysis_delta delta
  ok (WorkerMessage.analysis_delta decoded)
decode_message (WireMessage.error failure) = do
  decoded ← decode_worker_error failure
  ok (WorkerMessage.error decoded)

unfoldable pub decode_envelope : WireEnvelope → Result WorkerEnvelope AdapterError
unfolding decode_message
decode_envelope value = do
  wire ← ok_or value.message (missing (utf8 "envelope.message"))
  message ← decode_message wire
  ok (record {
    protocol_version = value.protocol_version;
    request_id = value.request_id;
    message = message;
  })

module _ (quoted : Text → Text) where
  -- The arms of `envelope`.
  unfoldable pub encode_message : WorkerMessage → Result WireMessage AdapterError
  encode_message (WorkerMessage.handshake_request request) =
      ok (WireMessage.handshake_request request.core_version)
  encode_message (WorkerMessage.handshake_response response) =
      ok (WireMessage.handshake_response (proto_handshake_response response))
  encode_message (WorkerMessage.project_manifest_request request) =
      ok (WireMessage.project_manifest_request request.workspace_root)
  encode_message (WorkerMessage.project_manifest_response response) = ok (
      WireMessage.project_manifest_response (record {
        manifest = some (proto_manifest quoted response.manifest);
        execution_plan = some (execution_plan response.execution_plan);
      }))
  encode_message (WorkerMessage.analyze_batch_request request) =
      ok (WireMessage.analyze_batch_request (Control.analyze_batch_request request))
  encode_message (WorkerMessage.analysis_batch_response response) = do
    wire ← Batches.analysis_batch_response response
    ok (WireMessage.analysis_batch_response wire)
  encode_message (WorkerMessage.artifact_analysis_request request) =
      ok (WireMessage.artifact_analysis_request (proto_analysis_request request))
  encode_message (WorkerMessage.artifact_analysis_response response) = do
    wire ← proto_analysis_response response
    ok (WireMessage.artifact_analysis_response wire)
  encode_message (WorkerMessage.artifact_discovery_request request) =
      ok (WireMessage.artifact_discovery_request (proto_discovery_request request))
  encode_message (WorkerMessage.artifact_discovery_response response) =
      ok (WireMessage.artifact_discovery_response (proto_discovery_response response))
  encode_message (WorkerMessage.artifact_materialization_request request) =
      ok (WireMessage.artifact_materialization_request (proto_materialization_request request))
  encode_message (WorkerMessage.artifact_materialization_response response) = do
    wire ← proto_materialization_response response
    ok (WireMessage.artifact_materialization_response wire)
  encode_message (WorkerMessage.semantic_query_request request) =
      ok (WireMessage.semantic_query_request (proto_query_request request))
  encode_message (WorkerMessage.semantic_query_response response) = do
    wire ← proto_query_response response
    ok (WireMessage.semantic_query_response wire)
  encode_message (WorkerMessage.analysis_delta delta) = do
    wire ← proto_delta delta
    ok (WireMessage.analysis_delta wire)
  encode_message (WorkerMessage.error failure) = ok (WireMessage.error (proto_worker_error failure))

  unfoldable pub envelope : WorkerEnvelope → Result WireEnvelope AdapterError
  unfolding encode_message
  envelope value = do
    message ← encode_message value.message
    ok (record {
      protocol_version = value.protocol_version;
      request_id = value.request_id;
      message = some message;
    })
