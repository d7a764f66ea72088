-- ===== src/WorkerProto/Wire.antt =====
-- The messages of protocol/kide/worker.proto that carry the facts of a source unit, as the adapter
-- reads their generated types: a field of a message type is optional, and a `oneof` is an `Option`.
use kide.Base.{ℕ, Text, List, Option, Bool}
use kide.Canonical.{ℤ}

pub data AdapterError : Type 0 where
  missing unsupported invalid : Text → AdapterError

pub record WireSourceUnit : Type 0 where
  pub id : Text
  pub component : Text
  pub path : Text
  pub language : Text
  pub origin : Text
  pub content : Text
  pub context : Text

pub record WireProvenance : Type 0 where
  pub backend : Text
  pub backend_version : Text
  pub protocol_version : ℕ
  pub analysis_options_fingerprint : Text

pub record WireByteRange : Type 0 where
  pub start : ℕ
  pub end : ℕ

pub record WireSymbolDeclaration : Type 0 where
  pub id : Text
  pub source_unit_index : ℕ
  pub provenance_index : ℕ
  pub backend_key : Text
  pub backend_schema_version : ℕ
  pub language : Text
  pub kind : Text
  pub name : Text
  pub qualified_name : Option Text
  pub signature : Option Text
  pub declaration : Option WireByteRange
  pub name_range : Option WireByteRange
  pub owner_id : Option Text
  pub modifiers : List Text
  pub applied_symbol_ids : List Text
  pub freshness : Text
  pub completeness : Text
  pub component_id : Text

pub data WireArgumentValue : Type 0 where
  string_value : Text → WireArgumentValue
  boolean_value : Bool → WireArgumentValue
  integer_value : ℤ → WireArgumentValue

pub record WireApplicationArgument : Type 0 where
  pub name : Option Text
  pub position : ℕ
  pub value : Option WireArgumentValue
  pub string_list_value : List Text

pub record WireApplicationFact : Type 0 where
  pub id : Text
  pub subject_symbol_id : Text
  pub target_symbol_id : Text
  pub range : Option WireByteRange
  pub arguments : List WireApplicationArgument
  pub precision : Text
  pub freshness : Text
  pub completeness : Text
  pub provenance_index : ℕ

pub record WireSourceLocation : Type 0 where
  pub source_unit_index : ℕ
  pub range : Option WireByteRange

pub record WireOccurrence : Type 0 where
  pub location : Option WireSourceLocation
  pub kind : Text
  pub enclosing_symbol_id : Option Text
  pub target_symbol_id : Option Text
  pub type_id : Option Text
  pub precision : Text
  pub freshness : Text
  pub completeness : Text
  pub provenance_index : ℕ

pub record WireReferenceEdge : Type 0 where
  pub source_occurrence_index : ℕ
  pub target_symbol_id : Text
  pub precision : Text

pub record WireCallEdge : Type 0 where
  pub source_occurrence_index : ℕ
  pub target_symbol_id : Text
  pub caller_symbol_id : Option Text
  pub precision : Text

pub record WireHierarchyEdge : Type 0 where
  pub subtype_symbol_id : Text
  pub supertype_symbol_id : Text
  pub precision : Text
  pub provenance_index : ℕ

pub record WireTypeRecord : Type 0 where
  pub id : Text
  pub language : Text
  pub display : Text
  pub backend_key : Option Text
  pub backend_schema_version : ℕ
  pub freshness : Text
  pub completeness : Text
  pub provenance_index : ℕ

pub record WireDiagnostic : Type 0 where
  pub source_unit_index : ℕ
  pub range : Option WireByteRange
  pub severity : Text
  pub code : Option Text
  pub message : Text
  pub freshness : Text
  pub completeness : Text
  pub provenance_index : ℕ

pub record WireSnapshot : Type 0 where
  pub source_unit : Option WireSourceUnit
  pub structural_fingerprint : Option Text
  pub public_api_fingerprint : Option Text
  pub provenances : List WireProvenance
  pub symbols : List WireSymbolDeclaration
  pub occurrences : List WireOccurrence
  pub references : List WireReferenceEdge
  pub calls : List WireCallEdge
  pub hierarchy : List WireHierarchyEdge
  pub types : List WireTypeRecord
  pub diagnostics : List WireDiagnostic
  pub completeness : Text
  pub provenance_index : ℕ
  pub applications : List WireApplicationFact
