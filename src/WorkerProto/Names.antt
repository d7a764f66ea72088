-- ===== src/WorkerProto/Names.antt =====
-- The texts of the enums on the wire. Where the source writes the `Debug` name in lower case, the
-- text is that of the variant's name.
pub mod RoundTrip
use kide.Base.{
  ℕ, ◌≡◌, ◌≢◌, refl, Text, utf8, text_eq, ℕ_discrete, ◌==◌, ◌++◌, Bool, true, false, if◌then◌else◌,
  arith,
}
use kide.Base.Results.{Result, ok, err}
use kide.Canonical.{
  Language, SourceOrigin, source, generated, dependency, SymbolKind, Freshness, fresh, stale,
  unknown, unsupported, Completeness, complete, partial, failed, Precision, exact, approximate,
  OccurrenceKind, DiagnosticSeverity,
}
use kide.WorkerProto.Wire.{AdapterError}

unfoldable pub proto_language : Language → Text
proto_language Language.kotlin = utf8 "kotlin"
proto_language Language.java = utf8 "java"
proto_language Language.rust = utf8 "rust"
proto_language Language.type_script = utf8 "typescript"
proto_language (Language.other value) = value

unfoldable pub decode_language : Text → Language
decode_language value =
    if value == utf8 "kotlin"
    then Language.kotlin
    else if value == utf8 "java"
    then Language.java
    else if value == utf8 "rust"
    then Language.rust
    else if value == utf8 "typescript"
    then Language.type_script
    else Language.other value

unfoldable pub proto_source_origin : SourceOrigin → Text
proto_source_origin SourceOrigin.source = utf8 "source"
proto_source_origin SourceOrigin.generated = utf8 "generated"
proto_source_origin SourceOrigin.dependency = utf8 "dependency"

unfoldable pub decode_source_origin : Text → Result SourceOrigin AdapterError
decode_source_origin value =
    if value == utf8 "source"
    then ok SourceOrigin.source
    else if value == utf8 "generated"
    then ok SourceOrigin.generated
    else if value == utf8 "dependency"
    then ok SourceOrigin.dependency
    else err (AdapterError.unsupported (utf8 "source origin " ++ value))

unfoldable pub symbol_kind_name : SymbolKind → Text
symbol_kind_name SymbolKind.package_ = utf8 "package"
symbol_kind_name SymbolKind.module_ = utf8 "module"
symbol_kind_name SymbolKind.class = utf8 "class"
symbol_kind_name SymbolKind.interface = utf8 "interface"
symbol_kind_name SymbolKind.object = utf8 "object"
symbol_kind_name SymbolKind.enum = utf8 "enum"
symbol_kind_name SymbolKind.function = utf8 "function"
symbol_kind_name SymbolKind.method = utf8 "method"
symbol_kind_name SymbolKind.constructor = utf8 "constructor"
symbol_kind_name SymbolKind.property = utf8 "property"
symbol_kind_name SymbolKind.field = utf8 "field"
symbol_kind_name SymbolKind.parameter = utf8 "parameter"
symbol_kind_name SymbolKind.type_alias = utf8 "typealias"
symbol_kind_name SymbolKind.other = utf8 "other"

unfoldable pub decode_symbol_kind : Text → Result SymbolKind AdapterError
decode_symbol_kind value =
    if value == utf8 "package"
    then ok SymbolKind.package_
    else if value == utf8 "module"
    then ok SymbolKind.module_
    else if value == utf8 "class"
    then ok SymbolKind.class
    else if value == utf8 "interface"
    then ok SymbolKind.interface
    else if value == utf8 "object"
    then ok SymbolKind.object
    else if value == utf8 "enum"
    then ok SymbolKind.enum
    else if value == utf8 "function"
    then ok SymbolKind.function
    else if value == utf8 "method"
    then ok SymbolKind.method
    else if value == utf8 "constructor"
    then ok SymbolKind.constructor
    else if value == utf8 "property"
    then ok SymbolKind.property
    else if value == utf8 "field"
    then ok SymbolKind.field
    else if value == utf8 "parameter"
    then ok SymbolKind.parameter
    else if value == utf8 "typealias"
    then ok SymbolKind.type_alias
    else if value == utf8 "other"
    then ok SymbolKind.other
    else err (AdapterError.unsupported (utf8 "symbol kind " ++ value))

unfoldable pub freshness_name : Freshness → Text
freshness_name Freshness.fresh = utf8 "fresh"
freshness_name Freshness.stale = utf8 "stale"
freshness_name Freshness.unknown = utf8 "unknown"
freshness_name Freshness.unsupported = utf8 "unsupported"

unfoldable pub decode_freshness : Text → Result Freshness AdapterError
decode_freshness value =
    if value == utf8 "fresh"
    then ok Freshness.fresh
    else if value == utf8 "stale"
    then ok Freshness.stale
    else if value == utf8 "unknown"
    then ok Freshness.unknown
    else if value == utf8 "unsupported"
    then ok Freshness.unsupported
    else err (AdapterError.unsupported (utf8 "freshness " ++ value))

unfoldable pub completeness_name : Completeness → Text
completeness_name Completeness.complete = utf8 "complete"
completeness_name Completeness.partial = utf8 "partial"
completeness_name Completeness.failed = utf8 "failed"

unfoldable pub decode_completeness : Text → Result Completeness AdapterError
decode_completeness value =
    if value == utf8 "complete"
    then ok Completeness.complete
    else if value == utf8 "partial"
    then ok Completeness.partial
    else if value == utf8 "failed"
    then ok Completeness.failed
    else err (AdapterError.unsupported (utf8 "completeness " ++ value))

unfoldable pub precision_name : Precision → Text
precision_name Precision.exact = utf8 "exact"
precision_name Precision.approximate = utf8 "approximate"

unfoldable pub decode_precision : Text → Result Precision AdapterError
decode_precision value =
    if value == utf8 "exact"
    then ok Precision.exact
    else if value == utf8 "approximate"
    then ok Precision.approximate
    else err (AdapterError.unsupported (utf8 "precision " ++ value))

unfoldable pub occurrence_kind_name : OccurrenceKind → Text
occurrence_kind_name OccurrenceKind.declaration = utf8 "declaration"
occurrence_kind_name OccurrenceKind.reference = utf8 "reference"
occurrence_kind_name OccurrenceKind.call = utf8 "call"
occurrence_kind_name OccurrenceKind.type_reference = utf8 "typereference"
occurrence_kind_name OccurrenceKind.import = utf8 "import"

unfoldable pub decode_occurrence_kind : Text → Result OccurrenceKind AdapterError
decode_occurrence_kind value =
    if value == utf8 "declaration"
    then ok OccurrenceKind.declaration
    else if value == utf8 "reference"
    then ok OccurrenceKind.reference
    else if value == utf8 "call"
    then ok OccurrenceKind.call
    else if value == utf8 "type_reference"
    then ok OccurrenceKind.type_reference
    else if value == utf8 "import"
    then ok OccurrenceKind.import
    else err (AdapterError.unsupported (utf8 "occurrence kind " ++ value))

unfoldable pub severity_name : DiagnosticSeverity → Text
severity_name DiagnosticSeverity.error = utf8 "error"
severity_name DiagnosticSeverity.warning = utf8 "warning"
severity_name DiagnosticSeverity.information = utf8 "information"
severity_name DiagnosticSeverity.hint = utf8 "hint"

unfoldable pub decode_severity : Text → Result DiagnosticSeverity AdapterError
decode_severity value =
    if value == utf8 "error"
    then ok DiagnosticSeverity.error
    else if value == utf8 "warning"
    then ok DiagnosticSeverity.warning
    else if value == utf8 "information"
    then ok DiagnosticSeverity.information
    else if value == utf8 "hint"
    then ok DiagnosticSeverity.hint
    else err (AdapterError.unsupported (utf8 "diagnostic severity " ++ value))
