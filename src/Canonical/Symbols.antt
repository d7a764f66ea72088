-- ===== src/Canonical/Symbols.antt =====
-- Declarations, and the states that facts carry.
use kide.Base.{ℕ, Text, text_eq, Eq, List, Option}
use kide.Canonical.Units.{ComponentId, SourceUnitId, Language, Provenance, WorkspacePath}

abbrev pub SymbolId : Type 0
SymbolId = Text

pub data Freshness : Type 0 where
  fresh stale unknown unsupported : Freshness

freshness_dec : Discrete Freshness
freshness_dec = hlevel

instance unfoldable pub freshness_eq : Eq Freshness
unfolding freshness_dec
freshness_eq = record { dec = freshness_dec }

pub data Completeness : Type 0 where
  complete partial failed : Completeness

completeness_dec : Discrete Completeness
completeness_dec = hlevel

instance unfoldable pub completeness_eq : Eq Completeness
unfolding completeness_dec
completeness_eq = record { dec = completeness_dec }

pub data Precision : Type 0 where
  exact approximate : Precision

-- A cursor, counted from one.
pub record TextPosition : Type 0 where
  pub line : ℕ
  pub column : ℕ

-- Half-open, in bytes.
pub record ByteRange : Type 0 where
  pub start : ℕ
  pub end : ℕ

pub record Location : Type 0 where
  pub path : WorkspacePath
  pub position : TextPosition

pub record SourceRange : Type 0 where
  pub source_unit : SourceUnitId
  pub bytes : ByteRange

pub record BackendKey : Type 0 where
  pub backend : Text
  pub schema_version : ℕ
  pub value : Text

pub data SymbolKind : Type 0 where
  package_ module_ class interface object enum function method : SymbolKind
  constructor property field parameter type_alias other : SymbolKind

symbol_kind_dec : Discrete SymbolKind
symbol_kind_dec = hlevel

instance unfoldable pub symbol_kind_eq : Eq SymbolKind
unfolding symbol_kind_dec
symbol_kind_eq = record { dec = symbol_kind_dec }

pub record SymbolRecord : Type 0 where
  pub id : SymbolId
  pub backend_key : BackendKey
  pub language : Language
  pub kind : SymbolKind
  pub name : Text
  pub qualified_name : Option Text
  pub signature : Option Text
  pub component : ComponentId
  pub declaration : SourceRange
  pub name_range : SourceRange
  pub owner : Option SymbolId
  pub modifiers : List Text
  pub applied_symbols : List SymbolId
  pub freshness : Freshness
  pub completeness : Completeness
  pub provenance : Provenance
