-- ===== src/WorkerProto/Envelope/RoundTrip.antt =====
-- The round trip of an envelope: `envelope` and `decode_envelope`.
use kide.Base.{◌≡◌, ◌≢◌, refl, Text, All}
use kide.Base.Results.{ok, ◌>>=◌, chain_ok}
use kide.Protocol.{
  WorkerMessage, WorkerEnvelope, HandshakeRequest, HandshakeResponse, ProjectManifestRequest,
  ProjectManifestResponse, AnalyzeBatchRequest, AnalysisBatchResponse, ArtifactAnalysisRequest,
  ArtifactAnalysisResponse, ArtifactDiscoveryRequest, ArtifactDiscoveryResponse,
  ArtifactMaterializationRequest, ArtifactMaterializationResponse, SemanticQueryRequest,
  SemanticQueryResponse, AnalysisDelta, WorkerError,
}
use kide.WorkerProto.Control.RoundTrip.{
  IsStated, decode_execution_plan-execution_plan, IsSendable,
  decode_analyze_batch_request-analyze_batch_request, IsDescribed,
}
use kide.WorkerProto.Queries.{proto_query_response, decode_query_response}
use kide.WorkerProto.Queries.RoundTrip.{
  IsCarried, decode_query_request-proto_query_request, decode-proto_query_response,
}
use kide.WorkerProto.Handshakes.RoundTrip.{
  IsOffer, decode_handshake_response-proto_handshake_response,
  decode_worker_error-proto_worker_error,
}
use kide.WorkerProto.Manifests.RoundTrip.{IsPlain, decode_manifest-proto_manifest}
use kide.WorkerProto.Batches.{decode_analysis_batch_response, proto_delta, decode_analysis_delta}
use kide.WorkerProto.Artifacts.{
  proto_analysis_response, decode_analysis_response, proto_materialization_response,
  decode_materialization_response,
}
use kide.WorkerProto.Batches.RoundTrip.{
  IsWholeBatch, decode-analysis_batch_response, IsCarriedIfAny, decode-proto_delta,
}
use kide.WorkerProto.Artifacts.RoundTrip.{
  decode_analysis_request-proto_analysis_request, decode-proto_analysis_response,
  decode_discovery_request-proto_discovery_request,
  decode_discovery_response-proto_discovery_response, IsPlaced,
  decode_materialization_request-proto_materialization_request, IsFinished,
  decode-proto_materialization_response,
}
use kide.WorkerProto.Batches
use kide.WorkerProto.Envelope.{decode_message, decode_envelope, encode_message, envelope}

-- What each message needs to come back: the fields that its reader refuses when empty or zero are
-- not, its snapshots lose nothing on the wire (`IsLossless`), and its names are ones that the reader
-- knows.
pub data IsSent : WorkerMessage → Type 0 where
  handshake_request : {r : HandshakeRequest} → IsSent (WorkerMessage.handshake_request r)
  handshake_response :
      {r : HandshakeResponse} → IsOffer r → IsSent (WorkerMessage.handshake_response r)
  project_manifest_request :
      {r : ProjectManifestRequest} → IsSent (WorkerMessage.project_manifest_request r)
  project_manifest_response :
      {r : ProjectManifestResponse}
      → All IsPlain r.manifest.components
      → IsStated r.execution_plan
      → IsSent (WorkerMessage.project_manifest_response r)
  analyze_batch_request :
      {r : AnalyzeBatchRequest} → IsSendable r → IsSent (WorkerMessage.analyze_batch_request r)
  analysis_batch_response :
      {r : AnalysisBatchResponse}
      → IsWholeBatch r
      → IsSent (WorkerMessage.analysis_batch_response r)
  artifact_analysis_request :
      {r : ArtifactAnalysisRequest}
      → r.max_artifacts ≢ 0
      → IsSent (WorkerMessage.artifact_analysis_request r)
  artifact_analysis_response :
      {r : ArtifactAnalysisResponse}
      → All IsCarried r.snapshots
      → IsSent (WorkerMessage.artifact_analysis_response r)
  artifact_discovery_request :
      {r : ArtifactDiscoveryRequest}
      → IsStated r.execution_plan
      → IsSent (WorkerMessage.artifact_discovery_request r)
  artifact_discovery_response :
      {r : ArtifactDiscoveryResponse}
      → All IsDescribed r.artifacts
      → IsSent (WorkerMessage.artifact_discovery_response r)
  artifact_materialization_request :
      {r : ArtifactMaterializationRequest}
      → IsPlaced r
      → IsSent (WorkerMessage.artifact_materialization_request r)
  artifact_materialization_response :
      {r : ArtifactMaterializationResponse}
      → IsFinished r
      → IsSent (WorkerMessage.artifact_materialization_response r)
  semantic_query_request :
      {r : SemanticQueryRequest} → IsSent (WorkerMessage.semantic_query_request r)
  semantic_query_response :
      {r : SemanticQueryResponse}
      → All IsCarried r.snapshots
      → IsSent (WorkerMessage.semantic_query_response r)
  analysis_delta :
      {r : AnalysisDelta} → IsCarriedIfAny r.snapshot → IsSent (WorkerMessage.analysis_delta r)
  error : {r : WorkerError} → IsSent (WorkerMessage.error r)

module _ (quoted : Text → Text) where
  message_round :
      {message : WorkerMessage}
      → IsSent message
      → (encode_message quoted message >>= decode_message) ≡ ok message
  unfolding encode_message decode_message
  message_round handshake_request = refl
  message_round (handshake_response {r} offer) =
      rw (decode_handshake_response-proto_handshake_response r offer) refl
  message_round project_manifest_request = refl
  message_round (project_manifest_response {r} plain stated) =
      rw
        (
          decode_manifest-proto_manifest quoted r.manifest plain,
          decode_execution_plan-execution_plan r.execution_plan stated,
        )
        refl
  message_round (analyze_batch_request {r} sendable) =
      rw (decode_analyze_batch_request-analyze_batch_request r sendable) refl
  message_round (analysis_batch_response {r} whole) =
      let (wire, wrote, read) =
        chain_ok (Batches.analysis_batch_response r) decode_analysis_batch_response
          (decode-analysis_batch_response r whole) in
      rw (wrote, read) refl
  message_round (artifact_analysis_request {r} positive) =
      rw (decode_analysis_request-proto_analysis_request r positive) refl
  message_round (artifact_analysis_response {r} carried) =
      let (wire, wrote, read) =
        chain_ok (proto_analysis_response r) decode_analysis_response
          (decode-proto_analysis_response r carried) in
      rw (wrote, read) refl
  message_round (artifact_discovery_request {r} stated) =
      rw (decode_discovery_request-proto_discovery_request r stated) refl
  message_round (artifact_discovery_response {r} described) =
      rw (decode_discovery_response-proto_discovery_response r described) refl
  message_round (artifact_materialization_request {r} placed) =
      rw (decode_materialization_request-proto_materialization_request r placed) refl
  message_round (artifact_materialization_response {r} finished) =
      let (wire, wrote, read) =
        chain_ok (proto_materialization_response r) decode_materialization_response
          (decode-proto_materialization_response r finished) in
      rw (wrote, read) refl
  message_round (semantic_query_request {r}) = rw (decode_query_request-proto_query_request r) refl
  message_round (semantic_query_response {r} carried) =
      let (wire, wrote, read) =
        chain_ok (proto_query_response r) decode_query_response
          (decode-proto_query_response r carried) in
      rw (wrote, read) refl
  message_round (analysis_delta {r} carried) =
      let (wire, wrote, read) =
        chain_ok (proto_delta r) decode_analysis_delta (decode-proto_delta r carried) in
      rw (wrote, read) refl
  message_round (error {r}) = rw (decode_worker_error-proto_worker_error r) refl

  -- An envelope that `envelope` writes for a message that meets `IsSent` is read back by
  -- `decode_envelope` as it was, whatever `Debug` makes of a string: its protocol version, its
  -- request's id and its message, of every one of the sixteen kinds.
  pub decode-envelope :
      (value : WorkerEnvelope)
      → IsSent value.message
      → (envelope quoted value >>= decode_envelope) ≡ ok value
  unfolding envelope decode_envelope
  decode-envelope value sent =
      let (wire, wrote, read) =
        chain_ok (encode_message quoted value.message) decode_message (message_round sent) in
      rw (wrote, read) refl
