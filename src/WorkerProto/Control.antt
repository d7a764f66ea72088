-- ===== src/WorkerProto/Control.antt =====
-- The messages of protocol/kide/worker.proto that carry no facts, and their adapters: plans,
-- manifests, descriptors, queries and errors.
pub mod RoundTrip
use kide.Base.{
  ℕ, Text, utf8, text_eq, List, [], ◌∷◌, ◌++◌, map, Option, none, some, Bool, not, ◌||◌,
}
use kide.Base.{◌==◌, eqb, if◌then◌else◌, length}
use kide.Base.Results.{Result, ok, err, ◌>>=◌, ok_or}
use kide.Canonical.{
  SourceUnit, Provenance, Language, BuildSystem, Component, SourceSet, Toolchain, DependencyTarget,
  DependencyEdge, ProjectManifest,
}
use kide.DependencyIdentity.{
  ArtifactDescriptor, SymbolLocator, ResolvedDependencyIdentity, new_identity,
}
use kide.DependencyIdentity.{artifact_blob_format_version}
use kide.Protocol.{
  OpaqueExecutionPlan, ArtifactCandidate, PhaseTiming, WorkerMetric, ArtifactLocator, WorkerError,
  WorkerErrorCode, ArtifactMaterializationResponse, ArtifactDiscoveryResponse, AnalyzeBatchRequest,
  AnalysisFact,
}
use kide.ArtifactCache.{hex}
use kide.Orchestrator.Digests.{digest_bytes}
use kide.WorkerProto.Wire.{
  AdapterError, missing, unsupported, invalid, WireSourceUnit, WireProvenance,
}
use kide.WorkerProto.Names.{
  proto_language, decode_language, proto_source_origin, decode_source_origin,
}
use kide.WorkerProto.Facts.{
  collect_results, encode_source_unit, decode_source_unit, proto_provenance, decode_provenance,
  map_option,
}

pub record WireExecutionPlan : Type 0 where
  pub backend : Text
  pub resolved_fingerprint : Text
  pub payload : List ℕ

unfoldable pub execution_plan : OpaqueExecutionPlan → WireExecutionPlan
execution_plan value = record {
  backend = value.backend;
  resolved_fingerprint = value.resolved_fingerprint;
  payload = value.payload;
}

-- `is_empty()`
unfoldable pub is_empty {ℓ} : {A : Type ℓ} → List A → Bool
is_empty [] = Bool.true
is_empty (x ∷ xs) = Bool.false

unfoldable pub decode_execution_plan : WireExecutionPlan → Result OpaqueExecutionPlan AdapterError
unfolding is_empty
decode_execution_plan value =
    if is_empty value.backend || is_empty value.resolved_fingerprint
    then err (invalid (utf8 "opaque execution plan"))
    else ok (record {
      backend = value.backend;
      resolved_fingerprint = value.resolved_fingerprint;
      payload = value.payload;
    })

pub record WireAnalyzeBatchRequest : Type 0 where
  pub workspace : Text
  pub project_fingerprint : Text
  pub requested_facts : List Text
  pub source_units : List WireSourceUnit
  pub execution_plan : Option WireExecutionPlan

unfoldable pub analysis_fact_name : AnalysisFact → Text
analysis_fact_name AnalysisFact.symbols = utf8 "symbols"
analysis_fact_name AnalysisFact.occurrences = utf8 "occurrences"
analysis_fact_name AnalysisFact.references = utf8 "references"
analysis_fact_name AnalysisFact.calls = utf8 "calls"
analysis_fact_name AnalysisFact.hierarchy = utf8 "hierarchy"
analysis_fact_name AnalysisFact.types = utf8 "types"

unfoldable pub decode_analysis_fact : Text → Result AnalysisFact AdapterError
decode_analysis_fact value =
    if value == utf8 "symbols"
    then ok AnalysisFact.symbols
    else if value == utf8 "occurrences"
    then ok AnalysisFact.occurrences
    else if value == utf8 "references"
    then ok AnalysisFact.references
    else if value == utf8 "calls"
    then ok AnalysisFact.calls
    else if value == utf8 "hierarchy"
    then ok AnalysisFact.hierarchy
    else if value == utf8 "types"
    then ok AnalysisFact.types
    else err (unsupported (utf8 "analysis fact " ++ value))

unfoldable pub analyze_batch_request : AnalyzeBatchRequest → WireAnalyzeBatchRequest
unfolding execution_plan
analyze_batch_request value = record {
  workspace = value.workspace;
  project_fingerprint = value.project_fingerprint;
  requested_facts = map analysis_fact_name value.requested_facts;
  source_units = map encode_source_unit value.source_units;
  execution_plan = some (execution_plan value.execution_plan);
}

unfoldable pub decode_analyze_batch_request :
    WireAnalyzeBatchRequest → Result AnalyzeBatchRequest AdapterError
unfolding decode_execution_plan
decode_analyze_batch_request value = do
  requested_facts ← collect_results decode_analysis_fact value.requested_facts
  source_units ← collect_results decode_source_unit value.source_units
  wire_plan ← ok_or value.execution_plan (missing (utf8 "analyze_batch_request.execution_plan"))
  plan ← decode_execution_plan wire_plan
  ok (record {
    workspace = value.workspace;
    project_fingerprint = value.project_fingerprint;
    requested_facts = requested_facts;
    source_units = source_units;
    execution_plan = plan;
  })

pub record WireArtifactDescriptor : Type 0 where
  pub source_unit_id : Text
  pub component_id : Text
  pub workspace_path : Text
  pub content_fingerprint : Text
  pub context_fingerprint : Text
  pub backend : Text
  pub backend_version : Text
  pub worker_protocol_version : ℕ
  pub analysis_options_fingerprint : Text
  pub language : Text
  pub origin : Text
  pub symbol_locators : List (Text × Text)
  pub ecosystem : Text
  pub canonical_coordinate : Option Text
  pub resolved_version : Option Text

unfoldable pub ecosystem_of : Option ResolvedDependencyIdentity → Text
ecosystem_of none = []
ecosystem_of (some identity) = identity.ecosystem

unfoldable pub coordinate_of : Option ResolvedDependencyIdentity → Option Text
coordinate_of none = none
coordinate_of (some identity) = identity.canonical_coordinate

unfoldable pub version_of : Option ResolvedDependencyIdentity → Option Text
version_of none = none
version_of (some identity) = identity.resolved_version

unfoldable pub proto_locator : SymbolLocator → Text × Text
proto_locator locator = (locator.qualified_name, locator.symbol)

unfoldable pub decode_locator : Text × Text → SymbolLocator
decode_locator locator = record { qualified_name = locator.0; symbol = locator.1 }

unfoldable pub proto_descriptor : ArtifactDescriptor → WireArtifactDescriptor
unfolding ecosystem_of coordinate_of version_of proto_locator
proto_descriptor value = record {
  source_unit_id = value.source_unit.id;
  component_id = value.source_unit.component;
  workspace_path = value.source_unit.path;
  content_fingerprint = value.source_unit.content;
  context_fingerprint = value.source_unit.context;
  backend = value.provenance.backend;
  backend_version = value.provenance.backend_version;
  worker_protocol_version = value.provenance.protocol_version;
  analysis_options_fingerprint = value.provenance.analysis_options;
  language = proto_language value.source_unit.language;
  origin = proto_source_origin value.source_unit.origin;
  symbol_locators = map proto_locator value.symbol_locators;
  ecosystem = ecosystem_of value.resolved_identity;
  canonical_coordinate = coordinate_of value.resolved_identity;
  resolved_version = version_of value.resolved_identity;
}

-- The identity is there only if the ecosystem has a name.
unfoldable pub decode_identity :
    WireArtifactDescriptor → Provenance → Option ResolvedDependencyIdentity
unfolding is_empty new_identity
decode_identity value provenance =
    if not (is_empty value.ecosystem)
    then some (
        new_identity value.ecosystem value.canonical_coordinate value.resolved_version
          value.content_fingerprint value.context_fingerprint provenance
          artifact_blob_format_version)
    else none

unfoldable pub decode_descriptor : WireArtifactDescriptor → Result ArtifactDescriptor AdapterError
unfolding decode_identity decode_locator
decode_descriptor value = do
  origin ← decode_source_origin value.origin
  let provenance : Provenance = record {
    backend = value.backend;
    backend_version = value.backend_version;
    protocol_version = value.worker_protocol_version;
    analysis_options = value.analysis_options_fingerprint;
  }
  ok (record {
    source_unit = record {
      id = value.source_unit_id;
      component = value.component_id;
      path = value.workspace_path;
      language = decode_language value.language;
      origin = origin;
      content = value.content_fingerprint;
      context = value.context_fingerprint;
    };
    provenance = provenance;
    resolved_identity = decode_identity value provenance;
    symbol_locators = map decode_locator value.symbol_locators;
  })
