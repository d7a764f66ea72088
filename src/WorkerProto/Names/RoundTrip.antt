-- ===== src/WorkerProto/Names/RoundTrip.antt =====
-- The enums cross the wire unchanged.
use kide.Base.{◌≡◌, ◌≢◌, refl, Text, utf8, text_eq, ℕ_discrete, arith}
use kide.Base.Results.{ok}
use kide.Canonical.{
  Language, SourceOrigin, SymbolKind, Freshness, Completeness, Precision, DiagnosticSeverity,
}
use kide.WorkerProto.Names.{
  proto_language, decode_language, proto_source_origin, decode_source_origin, symbol_kind_name,
  decode_symbol_kind, freshness_name, decode_freshness, completeness_name, decode_completeness,
  precision_name, decode_precision, severity_name, decode_severity,
}

-- The name of another language is none of the four that have a variant.
pub data IsNamed : Language → Type 0 where
  kotlin : IsNamed Language.kotlin
  java : IsNamed Language.java
  rust : IsNamed Language.rust
  type_script : IsNamed Language.type_script
  other :
      (name : Text)
      → name ≢ utf8 "kotlin"
      → name ≢ utf8 "java"
      → name ≢ utf8 "rust"
      → name ≢ utf8 "typescript"
      → IsNamed (Language.other name)

unnamed :
    (name : Text)
    → name ≢ utf8 "kotlin"
    → name ≢ utf8 "java"
    → name ≢ utf8 "rust"
    → name ≢ utf8 "typescript"
    → decode_language name ≡ Language.other name
unfolding decode_language
unnamed name k j r t = ground arith

pub decode_language-proto_language :
    {l : Language} → IsNamed l → decode_language (proto_language l) ≡ l
unfolding decode_language proto_language text_eq ℕ_discrete
decode_language-proto_language kotlin = refl
decode_language-proto_language java = refl
decode_language-proto_language rust = refl
decode_language-proto_language type_script = refl
decode_language-proto_language (other name k j r t) = unnamed name k j r t

pub decode_source_origin-proto_source_origin :
    (x : SourceOrigin) → decode_source_origin (proto_source_origin x) ≡ ok x
unfolding decode_source_origin proto_source_origin text_eq ℕ_discrete
decode_source_origin-proto_source_origin SourceOrigin.source = refl
decode_source_origin-proto_source_origin SourceOrigin.generated = refl
decode_source_origin-proto_source_origin SourceOrigin.dependency = refl

pub decode_symbol_kind-symbol_kind_name :
    (x : SymbolKind) → decode_symbol_kind (symbol_kind_name x) ≡ ok x
unfolding decode_symbol_kind symbol_kind_name text_eq ℕ_discrete
decode_symbol_kind-symbol_kind_name SymbolKind.package_ = refl
decode_symbol_kind-symbol_kind_name SymbolKind.module_ = refl
decode_symbol_kind-symbol_kind_name SymbolKind.class = refl
decode_symbol_kind-symbol_kind_name SymbolKind.interface = refl
decode_symbol_kind-symbol_kind_name SymbolKind.object = refl
decode_symbol_kind-symbol_kind_name SymbolKind.enum = refl
decode_symbol_kind-symbol_kind_name SymbolKind.function = refl
decode_symbol_kind-symbol_kind_name SymbolKind.method = refl
decode_symbol_kind-symbol_kind_name SymbolKind.constructor = refl
decode_symbol_kind-symbol_kind_name SymbolKind.property = refl
decode_symbol_kind-symbol_kind_name SymbolKind.field = refl
decode_symbol_kind-symbol_kind_name SymbolKind.parameter = refl
decode_symbol_kind-symbol_kind_name SymbolKind.type_alias = refl
decode_symbol_kind-symbol_kind_name SymbolKind.other = refl

pub decode_freshness-freshness_name : (x : Freshness) → decode_freshness (freshness_name x) ≡ ok x
unfolding decode_freshness freshness_name text_eq ℕ_discrete
decode_freshness-freshness_name Freshness.fresh = refl
decode_freshness-freshness_name Freshness.stale = refl
decode_freshness-freshness_name Freshness.unknown = refl
decode_freshness-freshness_name Freshness.unsupported = refl

pub decode_completeness-completeness_name :
    (x : Completeness) → decode_completeness (completeness_name x) ≡ ok x
unfolding decode_completeness completeness_name text_eq ℕ_discrete
decode_completeness-completeness_name Completeness.complete = refl
decode_completeness-completeness_name Completeness.partial = refl
decode_completeness-completeness_name Completeness.failed = refl

pub decode_precision-precision_name : (x : Precision) → decode_precision (precision_name x) ≡ ok x
unfolding decode_precision precision_name text_eq ℕ_discrete
decode_precision-precision_name Precision.exact = refl
decode_precision-precision_name Precision.approximate = refl

pub decode_severity-severity_name :
    (x : DiagnosticSeverity) → decode_severity (severity_name x) ≡ ok x
unfolding decode_severity severity_name text_eq ℕ_discrete
decode_severity-severity_name DiagnosticSeverity.error = refl
decode_severity-severity_name DiagnosticSeverity.warning = refl
decode_severity-severity_name DiagnosticSeverity.information = refl
decode_severity-severity_name DiagnosticSeverity.hint = refl
