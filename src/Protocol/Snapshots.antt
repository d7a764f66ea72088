-- ===== src/Protocol/Snapshots.antt =====
-- What a worker advertises, what it is asked for, and the facts that it returns.
use kide.Base.{ℕ, Text, List, Option, Bool}
use kide.Canonical.{Language, SymbolId, ComponentId, SourceUnitId, SourceUnit, WorkspaceId}
use kide.Canonical.{Fingerprint, Provenance, Completeness, SymbolRecord, ℤ}
use kide.Canonical.{ApplicationFact, SourceOccurrence, ReferenceEdge, CallEdge, HierarchyEdge}
use kide.Canonical.{TypeRecord, DiagnosticRecord}

pub data WorkerCapability : Type 0 where
  handshake project_manifest file_analysis_snapshot : WorkerCapability
  dependency_analysis analysis_delta : WorkerCapability

pub record WorkerIdentity : Type 0 where
  pub backend : Text
  pub backend_version : Text

pub data SemanticQueryParameterType : Type 0 where
  symbol_id component_id string integer : SemanticQueryParameterType

pub data SemanticQueryResultKind : Type 0 where
  candidate_symbols normalized_facts : SemanticQueryResultKind

pub record SemanticQueryParameter : Type 0 where
  pub name : Text
  pub ty : SemanticQueryParameterType
  pub required : Bool

pub record SemanticQueryCapability : Type 0 where
  pub name : Text
  pub version : ℕ
  pub parameters : List SemanticQueryParameter
  pub result : SemanticQueryResultKind

pub record WorkerCapabilities : Type 0 where
  pub identity : WorkerIdentity
  pub protocol_version : ℕ
  pub languages : List Language
  pub capabilities : List WorkerCapability
  pub semantic_query_capabilities : List SemanticQueryCapability

pub data SemanticQueryArgumentValue : Type 0 where
  symbol_id : SymbolId → SemanticQueryArgumentValue
  component_id : ComponentId → SemanticQueryArgumentValue
  string : Text → SemanticQueryArgumentValue
  integer : ℤ → SemanticQueryArgumentValue

pub record SemanticQueryArgument : Type 0 where
  pub name : Text
  pub value : SemanticQueryArgumentValue

pub record SemanticQueryBudget : Type 0 where
  pub max_candidates : ℕ
  pub max_nodes : ℕ
  pub max_bytes : ℕ
  pub deadline_millis : ℕ

pub record SemanticQueryRequest : Type 0 where
  pub capability_name : Text
  pub capability_version : ℕ
  pub arguments : List SemanticQueryArgument
  pub candidate_symbols : List SymbolId
  pub candidate_source_units : List SourceUnitId
  pub budget : SemanticQueryBudget

pub data SemanticQueryResponseState : Type 0 where
  complete partial unsupported : SemanticQueryResponseState

pub data AnalysisFact : Type 0 where
  symbols occurrences references calls hierarchy types : AnalysisFact

pub record OpaqueExecutionPlan : Type 0 where
  pub backend : Text
  pub resolved_fingerprint : Fingerprint
  pub payload : List ℕ

pub record AnalyzeBatchRequest : Type 0 where
  pub workspace : WorkspaceId
  pub project_fingerprint : Fingerprint
  pub requested_facts : List AnalysisFact
  pub source_units : List SourceUnit
  pub execution_plan : OpaqueExecutionPlan

pub record FileAnalysisSnapshot : Type 0 where
  pub source_unit : SourceUnit
  pub structural_fingerprint : Option Fingerprint
  pub public_api_fingerprint : Option Fingerprint
  pub symbols : List SymbolRecord
  pub applications : List ApplicationFact
  pub occurrences : List SourceOccurrence
  pub references : List ReferenceEdge
  pub calls : List CallEdge
  pub hierarchy : List HierarchyEdge
  pub types : List TypeRecord
  pub diagnostics : List DiagnosticRecord
  pub completeness : Completeness
  pub provenance : Provenance

pub record SemanticQueryResponse : Type 0 where
  pub capability_name : Text
  pub capability_version : ℕ
  pub state : SemanticQueryResponseState
  pub candidate_symbols : List SymbolId
  pub snapshots : List FileAnalysisSnapshot
  pub provenance : Provenance
  pub visited_nodes : ℕ
  pub produced_bytes : ℕ

pub record PhaseTiming : Type 0 where
  pub phase : Text
  pub elapsed_millis : ℕ

pub record WorkerMetric : Type 0 where
  pub name : Text
  pub value : ℕ

pub record ArtifactCandidate : Type 0 where
  pub locator : Text
  pub component : ComponentId
  pub context : Fingerprint

pub record AnalysisBatchResponse : Type 0 where
  pub snapshots : List FileAnalysisSnapshot
  pub timings : List PhaseTiming
  pub artifact_candidates : List ArtifactCandidate
  pub metrics : List WorkerMetric
