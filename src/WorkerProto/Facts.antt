-- ===== src/WorkerProto/Facts.antt =====
-- The facts of one source unit, each encoded and decoded by itself. A decoder takes the unit and the
-- provenance that the fact's index stands for.
pub mod RoundTrip
use kide.Base.{
  ℕ, ◌%◌, ◌^◌, Text, utf8, text_eq, List, [], ◌∷◌, ◌++◌, map, Option, none, some, Bool, not,
}
use kide.Base.{◌==◌, eqb, if◌then◌else◌}
use kide.Base.Results.{Result, ok, err, ◌>>=◌, ok_or}
use kide.Canonical.{
  SourceUnit, SourceUnitId, Provenance, ByteRange, SourceRange, SymbolRecord, ApplicationValue,
  ApplicationArgument, ApplicationFact, SourceOccurrence, ReferenceEdge, CallEdge, HierarchyEdge,
  TypeRecord, DiagnosticRecord, BackendKey,
}
use kide.WorkerProto.Wire.{
  AdapterError, missing, unsupported, WireSourceUnit, WireProvenance, WireByteRange,
  WireSymbolDeclaration, WireArgumentValue, string_value, boolean_value, integer_value,
  WireApplicationArgument, WireApplicationFact, WireOccurrence, WireReferenceEdge, WireCallEdge,
  WireHierarchyEdge, WireTypeRecord, WireDiagnostic,
}
use kide.WorkerProto.Names.{
  proto_language, decode_language, proto_source_origin, decode_source_origin, symbol_kind_name,
  decode_symbol_kind, freshness_name, decode_freshness, completeness_name, decode_completeness,
  precision_name, decode_precision, occurrence_kind_name, decode_occurrence_kind, severity_name,
  decode_severity,
}

-- `iter().map(f).collect::<Result<Vec<_>, _>>()`: the first error ends it.
unfoldable pub collect_results {ℓ κ} :
    {A : Type ℓ} {B : Type κ} → (B → Result A AdapterError) → List B → Result (List A) AdapterError
collect_results f [] = ok []
collect_results f (b ∷ bs) = do a ← f b; rest ← collect_results f bs; ok (a ∷ rest)

unfoldable pub map_option {ℓ κ} : {A : Type ℓ} {B : Type κ} → (A → B) → Option A → Option B
map_option f none = none
map_option f (some a) = some (f a)

unfoldable pub proto_range : ByteRange → WireByteRange
proto_range range = record { start = range.start; end = range.end }

unfoldable pub decode_range : WireByteRange → ByteRange
decode_range range = record { start = range.start; end = range.end }

unfoldable pub range_in : SourceUnit → WireByteRange → SourceRange
unfolding decode_range
range_in unit range = record { source_unit = unit.id; bytes = decode_range range }

unfoldable pub encode_source_unit : SourceUnit → WireSourceUnit
encode_source_unit value = record {
  id = value.id;
  component = value.component;
  path = value.path;
  language = proto_language value.language;
  origin = proto_source_origin value.origin;
  content = value.content;
  context = value.context;
}

unfoldable pub decode_source_unit : WireSourceUnit → Result SourceUnit AdapterError
decode_source_unit value = do
  origin ← decode_source_origin value.origin
  ok (record {
    id = value.id;
    component = value.component;
    path = value.path;
    language = decode_language value.language;
    origin = origin;
    content = value.content;
    context = value.context;
  })

unfoldable pub proto_provenance : Provenance → WireProvenance
proto_provenance value = record {
  backend = value.backend;
  backend_version = value.backend_version;
  protocol_version = value.protocol_version;
  analysis_options_fingerprint = value.analysis_options;
}

unfoldable pub decode_provenance : WireProvenance → Provenance
decode_provenance value = record {
  backend = value.backend;
  backend_version = value.backend_version;
  protocol_version = value.protocol_version;
  analysis_options = value.analysis_options_fingerprint;
}

unfoldable pub symbol_declaration : SymbolRecord → WireSymbolDeclaration
unfolding proto_range
symbol_declaration value = record {
  id = value.id;
  source_unit_index = 0;
  provenance_index = 0;
  backend_key = value.backend_key.value;
  backend_schema_version = value.backend_key.schema_version;
  language = proto_language value.language;
  kind = symbol_kind_name value.kind;
  name = value.name;
  qualified_name = value.qualified_name;
  signature = value.signature;
  declaration = some (proto_range value.declaration.bytes);
  name_range = some (proto_range value.name_range.bytes);
  owner_id = value.owner;
  modifiers = value.modifiers;
  applied_symbol_ids = value.applied_symbols;
  freshness = freshness_name value.freshness;
  completeness = completeness_name value.completeness;
  component_id = value.component;
}

unfoldable pub decode_symbol_declaration :
    SourceUnit → WireSymbolDeclaration → Provenance → Result SymbolRecord AdapterError
unfolding range_in
decode_symbol_declaration unit value provenance = do
  declaration ← ok_or value.declaration (missing (utf8 "symbol.declaration"))
  name_range ← ok_or value.name_range (missing (utf8 "symbol.name_range"))
  kind ← decode_symbol_kind value.kind
  freshness ← decode_freshness value.freshness
  completeness ← decode_completeness value.completeness
  ok (record {
    id = value.id;
    backend_key = record {
      backend = provenance.backend;
      schema_version = value.backend_schema_version;
      value = value.backend_key;
    };
    language = decode_language value.language;
    kind = kind;
    name = value.name;
    qualified_name = value.qualified_name;
    signature = value.signature;
    component = value.component_id;
    declaration = range_in unit declaration;
    name_range = range_in unit name_range;
    owner = value.owner_id;
    modifiers = value.modifiers;
    applied_symbols = value.applied_symbol_ids;
    freshness = freshness;
    completeness = completeness;
    provenance = provenance;
  })

unfoldable pub argument_value : ApplicationValue → WireArgumentValue
argument_value (ApplicationValue.string v) = string_value v
argument_value (ApplicationValue.string_list values) = string_value []
argument_value (ApplicationValue.boolean v) = boolean_value v
argument_value (ApplicationValue.integer v) = integer_value v

unfoldable pub string_list_of : ApplicationValue → List Text
string_list_of (ApplicationValue.string_list values) = values
string_list_of _ = []

unfoldable pub application_argument : ApplicationArgument → WireApplicationArgument
unfolding argument_value string_list_of
application_argument value = record {
  name = value.name;
  position = value.position;
  value = some (argument_value value.value);
  string_list_value = string_list_of value.value;
}

unfoldable pub decode_single : WireArgumentValue → ApplicationValue
decode_single (string_value v) = ApplicationValue.string v
decode_single (boolean_value v) = ApplicationValue.boolean v
decode_single (integer_value v) = ApplicationValue.integer v

-- A list of texts, if there is one, takes the place of the value.
unfoldable pub decode_value :
    List Text → Option WireArgumentValue → Result ApplicationValue AdapterError
unfolding decode_single
decode_value (text ∷ texts) value = ok (ApplicationValue.string_list (text ∷ texts))
decode_value [] value = do
  single ← ok_or value (missing (utf8 "application.argument.value"))
  ok (decode_single single)

unfoldable pub decode_application_argument :
    WireApplicationArgument → Result ApplicationArgument AdapterError
unfolding decode_value
decode_application_argument wire = do
  value ← decode_value wire.string_list_value wire.value
  ok (record { name = wire.name; position = wire.position; value = value })

unfoldable pub application_fact : ApplicationFact → WireApplicationFact
unfolding application_argument proto_range
application_fact value = record {
  id = value.id;
  subject_symbol_id = value.subject;
  target_symbol_id = value.target;
  range = some (proto_range value.range.bytes);
  arguments = map application_argument value.arguments;
  precision = precision_name value.precision;
  freshness = freshness_name value.freshness;
  completeness = completeness_name value.completeness;
  provenance_index = 0;
}

unfoldable pub decode_application_fact :
    SourceUnit → WireApplicationFact → Provenance → Result ApplicationFact AdapterError
unfolding range_in decode_application_argument collect_results
decode_application_fact unit value provenance = do
  range ← ok_or value.range (missing (utf8 "application.range"))
  arguments ← collect_results decode_application_argument value.arguments
  precision ← decode_precision value.precision
  freshness ← decode_freshness value.freshness
  completeness ← decode_completeness value.completeness
  ok (record {
    id = value.id;
    subject = value.subject_symbol_id;
    target = value.target_symbol_id;
    range = range_in unit range;
    arguments = arguments;
    precision = precision;
    freshness = freshness;
    completeness = completeness;
    provenance = provenance;
  })
