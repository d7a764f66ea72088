-- ===== src/WorkerProto/Handshakes.antt =====
-- The handshake and errors of protocol/kide/worker.proto, and their adapters.
pub mod RoundTrip
use kide.Base.{ℕ, Text, utf8, text_eq, List, [], ◌∷◌, ◌++◌, map, Option, none, some, Bool, ◌||◌}
use kide.Base.{◌==◌, eqb, if◌then◌else◌}
use kide.Base.Results.{Result, ok, err, ◌>>=◌, ok_or}
use kide.Canonical.{ℤ}
use kide.Protocol.{
  WorkerCapability, WorkerIdentity, WorkerCapabilities, SemanticQueryParameterType,
  SemanticQueryResultKind, SemanticQueryParameter, SemanticQueryCapability,
  SemanticQueryArgumentValue, SemanticQueryArgument, SemanticQueryBudget, SemanticQueryRequest,
  SemanticQueryResponseState, SemanticQueryResponse, HandshakeResponse, WorkerError,
  WorkerErrorCode,
}
use kide.WorkerProto.Wire.{
  AdapterError, missing, unsupported, invalid, WireSnapshot, WireProvenance,
}
use kide.WorkerProto.Names.{proto_language, decode_language}
use kide.WorkerProto.Facts.{collect_results, proto_provenance, decode_provenance}
use kide.WorkerProto.Snapshots.{file_analysis_snapshot, decode_file_analysis_snapshot}
use kide.WorkerProto.Control.{is_empty}
use kide.WorkerProto.Codes.{
  worker_capability, decode_worker_capability, semantic_parameter_type,
  decode_semantic_parameter_type, semantic_result_kind, decode_semantic_result_kind,
  semantic_query_response_state, decode_semantic_query_response_state, worker_error_code,
  decode_worker_error_code,
}
use kide.WorkerProto.Queries.{
  WireParameter, WireCapability, proto_parameter, decode_parameter, semantic_query_capability,
  decode_semantic_query_capability, WireQueryValue, WireQueryArgument, query_value,
  decode_query_value, semantic_query_argument, decode_semantic_query_argument, WireBudget,
  semantic_query_budget, decode_semantic_query_budget, WireQueryRequest, proto_query_request,
  decode_query_request, WireQueryResponse, proto_query_response, decode_query_response,
}

pub record WireHandshakeResponse : Type 0 where
  pub backend : Text
  pub backend_version : Text
  pub protocol_version : ℕ
  pub capabilities : List Text
  pub languages : List Text
  pub semantic_query_capabilities : List WireCapability

unfoldable pub proto_handshake_response : HandshakeResponse → WireHandshakeResponse
unfolding semantic_query_capability
proto_handshake_response value = record {
  backend = value.capabilities.identity.backend;
  backend_version = value.capabilities.identity.backend_version;
  protocol_version = value.capabilities.protocol_version;
  capabilities = map worker_capability value.capabilities.capabilities;
  languages = map proto_language value.capabilities.languages;
  semantic_query_capabilities =
      map semantic_query_capability value.capabilities.semantic_query_capabilities;
}

unfoldable pub decode_handshake_response :
    WireHandshakeResponse → Result HandshakeResponse AdapterError
unfolding decode_semantic_query_capability
decode_handshake_response value = do
  capabilities ← collect_results decode_worker_capability value.capabilities
  queries ← collect_results decode_semantic_query_capability value.semantic_query_capabilities
  ok (record {
    capabilities = record {
      identity = record { backend = value.backend; backend_version = value.backend_version };
      protocol_version = value.protocol_version;
      languages = map decode_language value.languages;
      capabilities = capabilities;
      semantic_query_capabilities = queries;
    };
  })

pub record WireError : Type 0 where
  pub code : Text
  pub message : Text
  pub retryable : Bool
  pub supported_protocol_version : ℕ
  pub received_protocol_version : Option ℕ

unfoldable pub proto_worker_error : WorkerError → WireError
proto_worker_error value = record {
  code = worker_error_code value.code;
  message = value.message;
  retryable = value.retryable;
  supported_protocol_version = value.supported_protocol_version;
  received_protocol_version = value.received_protocol_version;
}

unfoldable pub decode_worker_error : WireError → Result WorkerError AdapterError
decode_worker_error value = do
  code ← decode_worker_error_code value.code
  ok (record {
    code = code;
    message = value.message;
    retryable = value.retryable;
    supported_protocol_version = value.supported_protocol_version;
    received_protocol_version = value.received_protocol_version;
  })
