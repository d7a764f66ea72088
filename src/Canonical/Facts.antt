-- ===== src/Canonical/Facts.antt =====
-- The relations between declarations, and what a diagnostic holds.
use kide.Base.{ℕ, Text, List, Option, Bool}
use kide.Canonical.Units.{SourceUnitId, Language, Provenance}
use kide.Canonical.Symbols.{SymbolId, Freshness, Completeness, Precision, ByteRange, SourceRange}
use kide.Canonical.Symbols.{BackendKey}

abbrev pub ApplicationId : Type 0
ApplicationId = Text

abbrev pub TypeId : Type 0
TypeId = Text

pub data OccurrenceKind : Type 0 where
  declaration reference call type_reference import : OccurrenceKind

pub record SourceOccurrence : Type 0 where
  pub range : SourceRange
  pub kind : OccurrenceKind
  pub enclosing_symbol : Option SymbolId
  pub target : Option SymbolId
  pub type_id : Option TypeId
  pub precision : Precision
  pub freshness : Freshness
  pub completeness : Completeness
  pub provenance : Provenance

pub record ReferenceEdge : Type 0 where
  pub origin : SourceOccurrence
  pub target : SymbolId
  pub precision : Precision

pub record CallEdge : Type 0 where
  pub origin : SourceOccurrence
  pub target : SymbolId
  pub caller : Option SymbolId
  pub precision : Precision

-- `negsuc n` is -(n + 1).
pub data ℤ : Type 0 where
  pos : ℕ → ℤ
  negsuc : ℕ → ℤ

pub data ApplicationValue : Type 0 where
  string : Text → ApplicationValue
  string_list : List Text → ApplicationValue
  boolean : Bool → ApplicationValue
  integer : ℤ → ApplicationValue

pub record ApplicationArgument : Type 0 where
  pub name : Option Text
  pub position : ℕ
  pub value : ApplicationValue

pub record ApplicationFact : Type 0 where
  pub id : ApplicationId
  pub subject : SymbolId
  pub target : SymbolId
  pub range : SourceRange
  pub arguments : List ApplicationArgument
  pub precision : Precision
  pub freshness : Freshness
  pub completeness : Completeness
  pub provenance : Provenance

pub record HierarchyEdge : Type 0 where
  pub subtype : SymbolId
  pub supertype : SymbolId
  pub precision : Precision
  pub provenance : Provenance

pub record TypeRecord : Type 0 where
  pub id : TypeId
  pub language : Language
  pub display : Text
  pub backend_key : Option BackendKey
  pub freshness : Freshness
  pub completeness : Completeness
  pub provenance : Provenance

pub data DiagnosticSeverity : Type 0 where
  error warning information hint : DiagnosticSeverity

pub record DiagnosticRecord : Type 0 where
  pub source_unit : SourceUnitId
  pub range : Option ByteRange
  pub severity : DiagnosticSeverity
  pub code : Option Text
  pub message : Text
  pub freshness : Freshness
  pub completeness : Completeness
  pub provenance : Provenance
