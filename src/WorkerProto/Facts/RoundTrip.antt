-- ===== src/WorkerProto/Facts/RoundTrip.antt =====
-- Round trips of the facts of a source unit: Facts and its adapters.
use kide.Base.{ℕ, ◌≡◌, refl, Text, List, [], ◌∷◌, map, some, All, arith}
use kide.Base.Results.{ok}
use kide.Base.{Bool}
use kide.Canonical.{ℤ}
use kide.Canonical.{
  SourceUnit, Provenance, SymbolRecord, ApplicationValue, ApplicationArgument, ApplicationFact,
}
use kide.WorkerProto.Names.RoundTrip.{
  IsNamed, decode_language-proto_language, decode_source_origin-proto_source_origin,
  decode_symbol_kind-symbol_kind_name, decode_freshness-freshness_name,
  decode_completeness-completeness_name, decode_precision-precision_name,
}
use kide.WorkerProto.Facts.{
  collect_results, encode_source_unit, decode_source_unit, proto_provenance, decode_provenance,
  symbol_declaration, decode_symbol_declaration, application_argument, decode_application_argument,
  application_fact, decode_application_fact, range_in, decode_value, argument_value, string_list_of,
}

pub decode_provenance-proto_provenance :
    (p : Provenance) → decode_provenance (proto_provenance p) ≡ p
unfolding decode_provenance proto_provenance
decode_provenance-proto_provenance p = refl

pub decode_source_unit-encode_source_unit :
    (unit : SourceUnit)
    → IsNamed unit.language
    → decode_source_unit (encode_source_unit unit) ≡ ok unit
unfolding decode_source_unit encode_source_unit
decode_source_unit-encode_source_unit unit named =
    rw (decode_source_origin-proto_source_origin unit.origin, decode_language-proto_language named)
      refl

-- What the wire does not carry of a symbol is that of its snapshot.
pub record IsLosslessSymbol (unit : SourceUnit) (symbol : SymbolRecord) : Type 0 where
  pub language : IsNamed symbol.language
  pub backend : symbol.backend_key.backend ≡ symbol.provenance.backend
  pub declaration : symbol.declaration.source_unit ≡ unit.id
  pub name_range : symbol.name_range.source_unit ≡ unit.id

pub decode_symbol_declaration-symbol_declaration :
    (unit : SourceUnit) (symbol : SymbolRecord) (index : ℕ)
    → IsLosslessSymbol unit symbol
    → decode_symbol_declaration unit
        (record (symbol_declaration symbol) { provenance_index = index })
        symbol.provenance
      ≡ ok symbol
unfolding decode_symbol_declaration symbol_declaration range_in
decode_symbol_declaration-symbol_declaration unit symbol index own =
    rw
      (
        decode_symbol_kind-symbol_kind_name symbol.kind,
        decode_freshness-freshness_name symbol.freshness,
        decode_completeness-completeness_name symbol.completeness,
        decode_language-proto_language own.language,
      )
      (ground arith)

-- An empty list of texts is written as an empty text.
pub data IsWritable : ApplicationValue → Type 0 where
  string : (v : Text) → IsWritable (ApplicationValue.string v)
  string_list :
      (text : Text) (texts : List Text) → IsWritable (ApplicationValue.string_list (text ∷ texts))
  boolean : (v : Bool) → IsWritable (ApplicationValue.boolean v)
  integer : (v : ℤ) → IsWritable (ApplicationValue.integer v)

decode_value-argument_value :
    {v : ApplicationValue}
    → IsWritable v
    → decode_value (string_list_of v) (some (argument_value v)) ≡ ok v
unfolding decode_value argument_value string_list_of
decode_value-argument_value (string v) = refl
decode_value-argument_value (string_list text texts) = refl
decode_value-argument_value (boolean v) = refl
decode_value-argument_value (integer v) = refl

decode_application_arguments :
    (arguments : List ApplicationArgument)
    → All (λ argument. IsWritable argument.value) arguments
    → collect_results decode_application_argument (map application_argument arguments)
      ≡ ok arguments
unfolding collect_results decode_application_argument application_argument
decode_application_arguments [] h = refl
decode_application_arguments (a ∷ arguments) (w, h) =
    rw (decode_value-argument_value w, decode_application_arguments arguments h) refl

pub record IsLosslessApplication (unit : SourceUnit) (fact : ApplicationFact) : Type 0 where
  pub range : fact.range.source_unit ≡ unit.id
  pub arguments : All (λ argument. IsWritable argument.value) fact.arguments

pub decode_application_fact-application_fact :
    (unit : SourceUnit) (fact : ApplicationFact) (index : ℕ)
    → IsLosslessApplication unit fact
    → decode_application_fact unit
        (record (application_fact fact) { provenance_index = index })
        fact.provenance
      ≡ ok fact
unfolding decode_application_fact application_fact range_in
decode_application_fact-application_fact unit fact index own =
    rw
      (
        decode_application_arguments fact.arguments own.arguments,
        decode_precision-precision_name fact.precision,
        decode_freshness-freshness_name fact.freshness,
        decode_completeness-completeness_name fact.completeness,
      )
      (ground arith)
