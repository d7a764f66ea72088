-- ===== src/WorkerProto/Codes.antt =====
-- The texts of the enums of the handshake, semantic queries and errors, and their adapters.
pub mod RoundTrip
use kide.Base.{ℕ, Text, utf8, text_eq, List, [], ◌∷◌, ◌++◌, map, Option, none, some, Bool, ◌||◌}
use kide.Base.{◌==◌, eqb, if◌then◌else◌}
use kide.Base.Results.{Result, ok, err, ◌>>=◌, ok_or}
use kide.Canonical.{ℤ}
use kide.Protocol.{
  WorkerCapability, WorkerIdentity, WorkerCapabilities, SemanticQueryParameterType,
  SemanticQueryResultKind, SemanticQueryParameter, SemanticQueryCapability,
  SemanticQueryArgumentValue, SemanticQueryArgument, SemanticQueryBudget, SemanticQueryRequest,
  SemanticQueryResponseState, SemanticQueryResponse, HandshakeResponse, WorkerError,
  WorkerErrorCode,
}
use kide.WorkerProto.Wire.{
  AdapterError, missing, unsupported, invalid, WireSnapshot, WireProvenance,
}
use kide.WorkerProto.Names.{proto_language, decode_language}
use kide.WorkerProto.Facts.{collect_results, proto_provenance, decode_provenance}
use kide.WorkerProto.Snapshots.{file_analysis_snapshot, decode_file_analysis_snapshot}
use kide.WorkerProto.Control.{is_empty}

unfoldable pub worker_capability : WorkerCapability → Text
worker_capability WorkerCapability.handshake = utf8 "handshake"
worker_capability WorkerCapability.project_manifest = utf8 "project_manifest"
worker_capability WorkerCapability.file_analysis_snapshot = utf8 "file_analysis_snapshot"
worker_capability WorkerCapability.dependency_analysis = utf8 "dependency_analysis"
worker_capability WorkerCapability.analysis_delta = utf8 "analysis_delta"

unfoldable pub decode_worker_capability : Text → Result WorkerCapability AdapterError
decode_worker_capability value =
    if value == utf8 "handshake"
    then ok WorkerCapability.handshake
    else if value == utf8 "project_manifest"
    then ok WorkerCapability.project_manifest
    else if value == utf8 "file_analysis_snapshot"
    then ok WorkerCapability.file_analysis_snapshot
    else if value == utf8 "dependency_analysis"
    then ok WorkerCapability.dependency_analysis
    else if value == utf8 "analysis_delta"
    then ok WorkerCapability.analysis_delta
    else err (unsupported (utf8 "worker capability " ++ value))

unfoldable pub semantic_parameter_type : SemanticQueryParameterType → Text
semantic_parameter_type SemanticQueryParameterType.symbol_id = utf8 "symbol_id"
semantic_parameter_type SemanticQueryParameterType.component_id = utf8 "component_id"
semantic_parameter_type SemanticQueryParameterType.string = utf8 "string"
semantic_parameter_type SemanticQueryParameterType.integer = utf8 "integer"

unfoldable pub decode_semantic_parameter_type :
    Text → Result SemanticQueryParameterType AdapterError
decode_semantic_parameter_type value =
    if value == utf8 "symbol_id"
    then ok SemanticQueryParameterType.symbol_id
    else if value == utf8 "component_id"
    then ok SemanticQueryParameterType.component_id
    else if value == utf8 "string"
    then ok SemanticQueryParameterType.string
    else if value == utf8 "integer"
    then ok SemanticQueryParameterType.integer
    else err (unsupported (utf8 "semantic query parameter type " ++ value))

unfoldable pub semantic_result_kind : SemanticQueryResultKind → Text
semantic_result_kind SemanticQueryResultKind.candidate_symbols = utf8 "candidate_symbols"
semantic_result_kind SemanticQueryResultKind.normalized_facts = utf8 "normalized_facts"

unfoldable pub decode_semantic_result_kind : Text → Result SemanticQueryResultKind AdapterError
decode_semantic_result_kind value =
    if value == utf8 "candidate_symbols"
    then ok SemanticQueryResultKind.candidate_symbols
    else if value == utf8 "normalized_facts"
    then ok SemanticQueryResultKind.normalized_facts
    else err (unsupported (utf8 "semantic query result kind " ++ value))

unfoldable pub semantic_query_response_state : SemanticQueryResponseState → Text
semantic_query_response_state SemanticQueryResponseState.complete = utf8 "complete"
semantic_query_response_state SemanticQueryResponseState.partial = utf8 "partial"
semantic_query_response_state SemanticQueryResponseState.unsupported = utf8 "unsupported"

unfoldable pub decode_semantic_query_response_state :
    Text → Result SemanticQueryResponseState AdapterError
decode_semantic_query_response_state value =
    if value == utf8 "complete"
    then ok SemanticQueryResponseState.complete
    else if value == utf8 "partial"
    then ok SemanticQueryResponseState.partial
    else if value == utf8 "unsupported"
    then ok SemanticQueryResponseState.unsupported
    else err (unsupported (utf8 "semantic query response state " ++ value))

unfoldable pub worker_error_code : WorkerErrorCode → Text
worker_error_code WorkerErrorCode.incompatible_protocol_version =
    utf8 "incompatible_protocol_version"
worker_error_code WorkerErrorCode.invalid_request = utf8 "invalid_request"
worker_error_code WorkerErrorCode.unsupported_capability = utf8 "unsupported_capability"
worker_error_code WorkerErrorCode.analysis_failed = utf8 "analysis_failed"
worker_error_code WorkerErrorCode.internal = utf8 "internal"

unfoldable pub decode_worker_error_code : Text → Result WorkerErrorCode AdapterError
decode_worker_error_code value =
    if value == utf8 "incompatible_protocol_version"
    then ok WorkerErrorCode.incompatible_protocol_version
    else if value == utf8 "invalid_request"
    then ok WorkerErrorCode.invalid_request
    else if value == utf8 "unsupported_capability"
    then ok WorkerErrorCode.unsupported_capability
    else if value == utf8 "analysis_failed"
    then ok WorkerErrorCode.analysis_failed
    else if value == utf8 "internal"
    then ok WorkerErrorCode.internal
    else err (unsupported (utf8 "worker error code " ++ value))
