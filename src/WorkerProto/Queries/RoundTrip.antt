-- ===== src/WorkerProto/Queries/RoundTrip.antt =====
-- Round trips of semantic queries: Queries and its adapters.
use kide.Base.{◌<◌, ◌^◌, ◌≡◌, ◌≢◌, refl, text_eq, List, [], ◌∷◌, All, arith, false, eqb}
use kide.Base.Results.{ok, ◌>>=◌, chain_ok}
use kide.Protocol.{
  SemanticQueryParameter, SemanticQueryCapability, SemanticQueryArgumentValue,
  SemanticQueryArgument, SemanticQueryRequest, SemanticQueryResponse, FileAnalysisSnapshot,
}
use kide.WorkerProto.Wire.{WireSnapshot}
use kide.WorkerProto.Facts.{collect_results, proto_provenance, decode_provenance}
use kide.WorkerProto.Snapshots.{file_analysis_snapshot, decode_file_analysis_snapshot}
use kide.WorkerProto.Snapshots.RoundTrip.{IsLossless, decode-file_analysis_snapshot}
use kide.WorkerProto.Snapshots.Tables.{fact_count}
use kide.WorkerProto.Control.RoundTrip.{collect_results-map, trivially, is_empty-false}
use kide.WorkerProto.Codes.RoundTrip.{
  decode_semantic_parameter_type-semantic_parameter_type,
  decode_semantic_result_kind-semantic_result_kind,
  decode_semantic_query_response_state-semantic_query_response_state,
}
use kide.WorkerProto.Queries.{
  proto_parameter, decode_parameter, semantic_query_capability, decode_semantic_query_capability,
  query_value, decode_query_value, semantic_query_argument, decode_semantic_query_argument,
  proto_query_request, decode_query_request, proto_query_response, decode_query_response,
}

-- A snapshot that crosses the wire, within the indexes of 32 bits.
pub record IsCarried (s : FileAnalysisSnapshot) : Type 0 where
  pub own : IsLossless s
  pub small : fact_count s < 2 ^ 32

pub snapshots_round :
    (snapshots : List FileAnalysisSnapshot)
    → All IsCarried snapshots
    → (wires : List WireSnapshot) × (collect_results file_analysis_snapshot snapshots ≡ ok wires)
      × (collect_results decode_file_analysis_snapshot wires ≡ ok snapshots)
unfolding collect_results
snapshots_round [] own = ([], refl, refl)
snapshots_round (s ∷ snapshots) (mine, own) =
    let (wire, wrote, read) =
      chain_ok (file_analysis_snapshot s) decode_file_analysis_snapshot
        (decode-file_analysis_snapshot s mine.small mine.own) in
    let (wires, rest_wrote, rest_read) = snapshots_round snapshots own in
    (wire ∷ wires, rw (wrote, rest_wrote), rw (read, rest_read))

parameter_round : (p : SemanticQueryParameter) → decode_parameter (proto_parameter p) ≡ ok p
unfolding decode_parameter proto_parameter
parameter_round p = rw (decode_semantic_parameter_type-semantic_parameter_type p.ty) refl

pub record IsOffered (capability : SemanticQueryCapability) : Type 0 where
  pub name : capability.name ≢ []
  pub version : capability.version ≢ 0

pub capability_round :
    (c : SemanticQueryCapability)
    → IsOffered c
    → decode_semantic_query_capability (semantic_query_capability c) ≡ ok c
unfolding decode_semantic_query_capability semantic_query_capability
capability_round c offered =
    let parameters =
      collect_results-map proto_parameter decode_parameter
        (λ (p : SemanticQueryParameter). Unit {0}) (λ p own. parameter_round p) c.parameters
        (trivially c.parameters) in
    let kind = decode_semantic_result_kind-semantic_result_kind c.result in
    let version = offered.version in
    let nonzero : eqb c.version 0 ≡ false = ground arith in
    rw (is_empty-false c.name offered.name, nonzero, parameters, kind) refl

value_round : (v : SemanticQueryArgumentValue) → decode_query_value (query_value v) ≡ v
unfolding decode_query_value query_value
value_round (SemanticQueryArgumentValue.symbol_id v) = refl
value_round (SemanticQueryArgumentValue.component_id v) = refl
value_round (SemanticQueryArgumentValue.string v) = refl
value_round (SemanticQueryArgumentValue.integer v) = refl

argument_round :
    (a : SemanticQueryArgument) → decode_semantic_query_argument (semantic_query_argument a) ≡ ok a
unfolding decode_semantic_query_argument semantic_query_argument
argument_round a = rw (value_round a.value) refl

pub decode_query_request-proto_query_request :
    (request : SemanticQueryRequest)
    → decode_query_request (proto_query_request request) ≡ ok request
unfolding decode_query_request proto_query_request
decode_query_request-proto_query_request request =
    rw
      (collect_results-map semantic_query_argument decode_semantic_query_argument
        (λ (a : SemanticQueryArgument). Unit {0}) (λ a own. argument_round a) request.arguments
        (trivially request.arguments))
      refl

pub decode-proto_query_response :
    (response : SemanticQueryResponse)
    → All IsCarried response.snapshots
    → (proto_query_response response >>= decode_query_response) ≡ ok response
unfolding decode_query_response proto_query_response decode_provenance proto_provenance
decode-proto_query_response response carried =
    let (wires, wrote, read) = snapshots_round response.snapshots carried in
    rw
      (
        wrote,
        decode_semantic_query_response_state-semantic_query_response_state response.state,
        read,
      )
      refl
