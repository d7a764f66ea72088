-- ===== src/WorkerProto/Queries.antt =====
-- Semantic queries of protocol/kide/worker.proto, and their adapters.
pub mod RoundTrip
use kide.Base.{ℕ, Text, utf8, text_eq, List, [], ◌∷◌, ◌++◌, map, Option, none, some, Bool, ◌||◌}
use kide.Base.{◌==◌, eqb, if◌then◌else◌}
use kide.Base.Results.{Result, ok, err, ◌>>=◌, ok_or}
use kide.Canonical.{ℤ}
use kide.Protocol.{
  WorkerCapability, WorkerIdentity, WorkerCapabilities, SemanticQueryParameterType,
  SemanticQueryResultKind, SemanticQueryParameter, SemanticQueryCapability,
  SemanticQueryArgumentValue, SemanticQueryArgument, SemanticQueryBudget, SemanticQueryRequest,
  SemanticQueryResponseState, SemanticQueryResponse, HandshakeResponse, WorkerError,
  WorkerErrorCode,
}
use kide.WorkerProto.Wire.{
  AdapterError, missing, unsupported, invalid, WireSnapshot, WireProvenance,
}
use kide.WorkerProto.Names.{proto_language, decode_language}
use kide.WorkerProto.Facts.{collect_results, proto_provenance, decode_provenance}
use kide.WorkerProto.Snapshots.{file_analysis_snapshot, decode_file_analysis_snapshot}
use kide.WorkerProto.Control.{is_empty}
use kide.WorkerProto.Codes.{
  worker_capability, decode_worker_capability, semantic_parameter_type,
  decode_semantic_parameter_type, semantic_result_kind, decode_semantic_result_kind,
  semantic_query_response_state, decode_semantic_query_response_state, worker_error_code,
  decode_worker_error_code,
}

pub record WireParameter : Type 0 where
  pub name : Text
  pub type : Text
  pub required : Bool

pub record WireCapability : Type 0 where
  pub name : Text
  pub version : ℕ
  pub parameters : List WireParameter
  pub result_kind : Text

unfoldable pub proto_parameter : SemanticQueryParameter → WireParameter
proto_parameter parameter = record {
  name = parameter.name;
  type = semantic_parameter_type parameter.ty;
  required = parameter.required;
}

unfoldable pub decode_parameter : WireParameter → Result SemanticQueryParameter AdapterError
decode_parameter parameter = do
  ty ← decode_semantic_parameter_type parameter.type
  ok (record { name = parameter.name; ty = ty; required = parameter.required })

unfoldable pub semantic_query_capability : SemanticQueryCapability → WireCapability
unfolding proto_parameter
semantic_query_capability value = record {
  name = value.name;
  version = value.version;
  parameters = map proto_parameter value.parameters;
  result_kind = semantic_result_kind value.result;
}

unfoldable pub decode_semantic_query_capability :
    WireCapability → Result SemanticQueryCapability AdapterError
unfolding decode_parameter
decode_semantic_query_capability value =
    let decoded : Result SemanticQueryCapability AdapterError = (do
      parameters ← collect_results decode_parameter value.parameters
      result ← decode_semantic_result_kind value.result_kind
      ok (record {
        name = value.name;
        version = value.version;
        parameters = parameters;
        result = result;
      })) in
    if is_empty value.name || eqb value.version 0
    then err (invalid (utf8 "semantic_query_capability"))
    else decoded

pub data WireQueryValue : Type 0 where
  symbol_id : Text → WireQueryValue
  component_id : Text → WireQueryValue
  string_value : Text → WireQueryValue
  integer_value : ℤ → WireQueryValue

pub record WireQueryArgument : Type 0 where
  pub name : Text
  pub value : Option WireQueryValue

unfoldable pub query_value : SemanticQueryArgumentValue → WireQueryValue
query_value (SemanticQueryArgumentValue.symbol_id value) = WireQueryValue.symbol_id value
query_value (SemanticQueryArgumentValue.component_id value) = WireQueryValue.component_id value
query_value (SemanticQueryArgumentValue.string value) = WireQueryValue.string_value value
query_value (SemanticQueryArgumentValue.integer value) = WireQueryValue.integer_value value

unfoldable pub decode_query_value : WireQueryValue → SemanticQueryArgumentValue
decode_query_value (WireQueryValue.symbol_id value) = SemanticQueryArgumentValue.symbol_id value
decode_query_value (WireQueryValue.component_id value) =
    SemanticQueryArgumentValue.component_id value
decode_query_value (WireQueryValue.string_value value) = SemanticQueryArgumentValue.string value
decode_query_value (WireQueryValue.integer_value value) = SemanticQueryArgumentValue.integer value

unfoldable pub semantic_query_argument : SemanticQueryArgument → WireQueryArgument
unfolding query_value
semantic_query_argument argument = record {
  name = argument.name;
  value = some (query_value argument.value);
}

unfoldable pub decode_semantic_query_argument :
    WireQueryArgument → Result SemanticQueryArgument AdapterError
unfolding decode_query_value
decode_semantic_query_argument argument = do
  value ← ok_or argument.value (missing (utf8 "semantic_query_argument.value"))
  ok (record { name = argument.name; value = decode_query_value value })

pub record WireBudget : Type 0 where
  pub max_candidates : ℕ
  pub max_nodes : ℕ
  pub max_bytes : ℕ
  pub deadline_millis : ℕ

unfoldable pub semantic_query_budget : SemanticQueryBudget → WireBudget
semantic_query_budget value = record {
  max_candidates = value.max_candidates;
  max_nodes = value.max_nodes;
  max_bytes = value.max_bytes;
  deadline_millis = value.deadline_millis;
}

unfoldable pub decode_semantic_query_budget : WireBudget → SemanticQueryBudget
decode_semantic_query_budget value = record {
  max_candidates = value.max_candidates;
  max_nodes = value.max_nodes;
  max_bytes = value.max_bytes;
  deadline_millis = value.deadline_millis;
}

pub record WireQueryRequest : Type 0 where
  pub capability_name : Text
  pub capability_version : ℕ
  pub arguments : List WireQueryArgument
  pub candidate_symbol_ids : List Text
  pub candidate_source_unit_ids : List Text
  pub budget : Option WireBudget

unfoldable pub proto_query_request : SemanticQueryRequest → WireQueryRequest
unfolding semantic_query_argument semantic_query_budget
proto_query_request value = record {
  capability_name = value.capability_name;
  capability_version = value.capability_version;
  arguments = map semantic_query_argument value.arguments;
  candidate_symbol_ids = value.candidate_symbols;
  candidate_source_unit_ids = value.candidate_source_units;
  budget = some (semantic_query_budget value.budget);
}

unfoldable pub decode_query_request : WireQueryRequest → Result SemanticQueryRequest AdapterError
unfolding decode_semantic_query_argument decode_semantic_query_budget
decode_query_request value = do
  arguments ← collect_results decode_semantic_query_argument value.arguments
  budget ← ok_or value.budget (missing (utf8 "semantic_query_request.budget"))
  ok (record {
    capability_name = value.capability_name;
    capability_version = value.capability_version;
    arguments = arguments;
    candidate_symbols = value.candidate_symbol_ids;
    candidate_source_units = value.candidate_source_unit_ids;
    budget = decode_semantic_query_budget budget;
  })

pub record WireQueryResponse : Type 0 where
  pub capability_name : Text
  pub capability_version : ℕ
  pub state : Text
  pub candidate_symbol_ids : List Text
  pub snapshots : List WireSnapshot
  pub provenance : Option WireProvenance
  pub visited_nodes : ℕ
  pub produced_bytes : ℕ

unfoldable pub proto_query_response : SemanticQueryResponse → Result WireQueryResponse AdapterError
proto_query_response value = do
  snapshots ← collect_results file_analysis_snapshot value.snapshots
  ok (record {
    capability_name = value.capability_name;
    capability_version = value.capability_version;
    state = semantic_query_response_state value.state;
    candidate_symbol_ids = value.candidate_symbols;
    snapshots = snapshots;
    provenance = some (proto_provenance value.provenance);
    visited_nodes = value.visited_nodes;
    produced_bytes = value.produced_bytes;
  })

unfoldable pub decode_query_response : WireQueryResponse → Result SemanticQueryResponse AdapterError
decode_query_response value = do
  state ← decode_semantic_query_response_state value.state
  snapshots ← collect_results decode_file_analysis_snapshot value.snapshots
  provenance ← ok_or value.provenance (missing (utf8 "semantic_query_response.provenance"))
  ok (record {
    capability_name = value.capability_name;
    capability_version = value.capability_version;
    state = state;
    candidate_symbols = value.candidate_symbol_ids;
    snapshots = snapshots;
    provenance = decode_provenance provenance;
    visited_nodes = value.visited_nodes;
    produced_bytes = value.produced_bytes;
  })
