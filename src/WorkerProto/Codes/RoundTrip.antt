-- ===== src/WorkerProto/Codes/RoundTrip.antt =====
-- Round trips of the texts of enums: Codes and its adapters.
use kide.Base.{◌≡◌, refl, text_eq, ℕ_discrete}
use kide.Base.Results.{ok}
use kide.Protocol.{
  WorkerCapability, SemanticQueryParameterType, SemanticQueryResultKind, SemanticQueryResponseState,
  WorkerErrorCode,
}
use kide.WorkerProto.Codes.{
  worker_capability, decode_worker_capability, semantic_parameter_type,
  decode_semantic_parameter_type, semantic_result_kind, decode_semantic_result_kind,
  semantic_query_response_state, decode_semantic_query_response_state, worker_error_code,
  decode_worker_error_code,
}

pub decode_worker_capability-worker_capability :
    (x : WorkerCapability) → decode_worker_capability (worker_capability x) ≡ ok x
unfolding decode_worker_capability worker_capability text_eq ℕ_discrete
decode_worker_capability-worker_capability WorkerCapability.handshake = refl
decode_worker_capability-worker_capability WorkerCapability.project_manifest = refl
decode_worker_capability-worker_capability WorkerCapability.file_analysis_snapshot = refl
decode_worker_capability-worker_capability WorkerCapability.dependency_analysis = refl
decode_worker_capability-worker_capability WorkerCapability.analysis_delta = refl

pub decode_semantic_parameter_type-semantic_parameter_type :
    (x : SemanticQueryParameterType)
    → decode_semantic_parameter_type (semantic_parameter_type x) ≡ ok x
unfolding decode_semantic_parameter_type semantic_parameter_type text_eq ℕ_discrete
decode_semantic_parameter_type-semantic_parameter_type SemanticQueryParameterType.symbol_id = refl
decode_semantic_parameter_type-semantic_parameter_type SemanticQueryParameterType.component_id =
    refl
decode_semantic_parameter_type-semantic_parameter_type SemanticQueryParameterType.string = refl
decode_semantic_parameter_type-semantic_parameter_type SemanticQueryParameterType.integer = refl

pub decode_semantic_result_kind-semantic_result_kind :
    (x : SemanticQueryResultKind) → decode_semantic_result_kind (semantic_result_kind x) ≡ ok x
unfolding decode_semantic_result_kind semantic_result_kind text_eq ℕ_discrete
decode_semantic_result_kind-semantic_result_kind SemanticQueryResultKind.candidate_symbols = refl
decode_semantic_result_kind-semantic_result_kind SemanticQueryResultKind.normalized_facts = refl

pub decode_semantic_query_response_state-semantic_query_response_state :
    (x : SemanticQueryResponseState)
    → decode_semantic_query_response_state (semantic_query_response_state x) ≡ ok x
unfolding decode_semantic_query_response_state semantic_query_response_state text_eq ℕ_discrete
decode_semantic_query_response_state-semantic_query_response_state
      SemanticQueryResponseState.complete =
    refl
decode_semantic_query_response_state-semantic_query_response_state
      SemanticQueryResponseState.partial =
    refl
decode_semantic_query_response_state-semantic_query_response_state
      SemanticQueryResponseState.unsupported =
    refl

pub decode_worker_error_code-worker_error_code :
    (x : WorkerErrorCode) → decode_worker_error_code (worker_error_code x) ≡ ok x
unfolding decode_worker_error_code worker_error_code text_eq ℕ_discrete
decode_worker_error_code-worker_error_code WorkerErrorCode.incompatible_protocol_version = refl
decode_worker_error_code-worker_error_code WorkerErrorCode.invalid_request = refl
decode_worker_error_code-worker_error_code WorkerErrorCode.unsupported_capability = refl
decode_worker_error_code-worker_error_code WorkerErrorCode.analysis_failed = refl
decode_worker_error_code-worker_error_code WorkerErrorCode.internal = refl
