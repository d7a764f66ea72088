-- ===== src/WorkerProto/Relations.antt =====
-- Occurrences, the relations between them, types and diagnostics, each encoded and decoded by
-- itself. A relation names its occurrence by the place in the snapshot's list.
pub mod RoundTrip
use kide.Base.{
  ℕ, zero, suc, ◌%◌, ◌^◌, Text, utf8, text_eq, List, [], ◌∷◌, ◌++◌, Option, none, some, Bool, not,
}
use kide.Base.{◌==◌, eqb, if◌then◌else◌}
use kide.Base.Results.{Result, ok, err, ◌>>=◌, ok_or}
use kide.Canonical.{
  SourceUnit, Provenance, ByteRange, SourceOccurrence, ReferenceEdge, CallEdge, HierarchyEdge,
  TypeRecord, DiagnosticRecord, BackendKey,
}
use kide.WorkerProto.Wire.{
  AdapterError, missing, unsupported, WireByteRange, WireSourceLocation, WireOccurrence,
  WireReferenceEdge, WireCallEdge, WireHierarchyEdge, WireTypeRecord, WireDiagnostic,
}
use kide.WorkerProto.Names.{
  proto_language, decode_language, freshness_name, decode_freshness, completeness_name,
  decode_completeness, precision_name, decode_precision, occurrence_kind_name,
  decode_occurrence_kind, severity_name, decode_severity,
}
use kide.WorkerProto.Facts.{proto_range, decode_range, range_in, map_option}

unfoldable pub occurrence : SourceOccurrence → WireOccurrence
unfolding proto_range
occurrence value = record {
  location = some (record { source_unit_index = 0; range = some (proto_range value.range.bytes) });
  kind = occurrence_kind_name value.kind;
  enclosing_symbol_id = value.enclosing_symbol;
  target_symbol_id = value.target;
  type_id = value.type_id;
  precision = precision_name value.precision;
  freshness = freshness_name value.freshness;
  completeness = completeness_name value.completeness;
  provenance_index = 0;
}

-- A fact of another unit than the snapshot's is refused.
unfoldable pub own_source : ℕ → Text → Result (Unit {0}) AdapterError
own_source source_unit_index what =
    if not (eqb source_unit_index 0) then err (unsupported what) else ok tt

unfoldable pub decode_occurrence :
    SourceUnit → WireOccurrence → Provenance → Result SourceOccurrence AdapterError
unfolding range_in own_source
decode_occurrence unit value provenance = do
  location ← ok_or value.location (missing (utf8 "occurrence.location"))
  range ← ok_or location.range (missing (utf8 "occurrence.location.range"))
  own ← own_source location.source_unit_index (utf8 "cross-snapshot occurrence source")
  kind ← decode_occurrence_kind value.kind
  precision ← decode_precision value.precision
  freshness ← decode_freshness value.freshness
  completeness ← decode_completeness value.completeness
  ok (record {
    range = range_in unit range;
    kind = kind;
    enclosing_symbol = value.enclosing_symbol_id;
    target = value.target_symbol_id;
    type_id = value.type_id;
    precision = precision;
    freshness = freshness;
    completeness = completeness;
    provenance = provenance;
  })

unfoldable pub reference_edge : ReferenceEdge → ℕ → WireReferenceEdge
reference_edge value source_occurrence_index = record {
  source_occurrence_index = source_occurrence_index;
  target_symbol_id = value.target;
  precision = precision_name value.precision;
}

unfoldable pub call_edge : CallEdge → ℕ → WireCallEdge
call_edge value source_occurrence_index = record {
  source_occurrence_index = source_occurrence_index;
  target_symbol_id = value.target;
  caller_symbol_id = value.caller;
  precision = precision_name value.precision;
}

-- `slice.get(index)`
unfoldable pub get_at {ℓ} : {A : Type ℓ} → List A → ℕ → Option A
get_at [] index = none
get_at (x ∷ xs) zero = some x
get_at (x ∷ xs) (suc index) = get_at xs index

unfoldable pub decode_reference_edge :
    List SourceOccurrence → WireReferenceEdge → Result ReferenceEdge AdapterError
unfolding get_at
decode_reference_edge occurrences value = do
  origin ←
      ok_or (get_at occurrences value.source_occurrence_index)
        (missing (utf8 "reference.source_occurrence"))
  precision ← decode_precision value.precision
  ok (record { origin = origin; target = value.target_symbol_id; precision = precision })

unfoldable pub decode_call_edge :
    List SourceOccurrence → WireCallEdge → Result CallEdge AdapterError
unfolding get_at
decode_call_edge occurrences value = do
  origin ←
      ok_or (get_at occurrences value.source_occurrence_index)
        (missing (utf8 "call.source_occurrence"))
  precision ← decode_precision value.precision
  ok (record {
    origin = origin;
    target = value.target_symbol_id;
    caller = value.caller_symbol_id;
    precision = precision;
  })

unfoldable pub hierarchy_edge : HierarchyEdge → WireHierarchyEdge
hierarchy_edge value = record {
  subtype_symbol_id = value.subtype;
  supertype_symbol_id = value.supertype;
  precision = precision_name value.precision;
  provenance_index = 0;
}

unfoldable pub decode_hierarchy_edge :
    WireHierarchyEdge → Provenance → Result HierarchyEdge AdapterError
decode_hierarchy_edge value provenance = do
  precision ← decode_precision value.precision
  ok (record {
    subtype = value.subtype_symbol_id;
    supertype = value.supertype_symbol_id;
    precision = precision;
    provenance = provenance;
  })

unfoldable pub diagnostic : DiagnosticRecord → WireDiagnostic
unfolding map_option proto_range
diagnostic value = record {
  source_unit_index = 0;
  range = map_option proto_range value.range;
  severity = severity_name value.severity;
  code = value.code;
  message = value.message;
  freshness = freshness_name value.freshness;
  completeness = completeness_name value.completeness;
  provenance_index = 0;
}

unfoldable pub decode_diagnostic :
    SourceUnit → WireDiagnostic → Provenance → Result DiagnosticRecord AdapterError
unfolding own_source map_option decode_range
decode_diagnostic unit value provenance = do
  own ← own_source value.source_unit_index (utf8 "cross-snapshot diagnostic source")
  severity ← decode_severity value.severity
  freshness ← decode_freshness value.freshness
  completeness ← decode_completeness value.completeness
  ok (record {
    source_unit = unit.id;
    range = map_option decode_range value.range;
    severity = severity;
    code = value.code;
    message = value.message;
    freshness = freshness;
    completeness = completeness;
    provenance = provenance;
  })

unfoldable pub key_value : Option BackendKey → Option Text
key_value none = none
key_value (some key) = some key.value

-- `map_or(0, …)`
unfoldable pub key_schema_version : Option BackendKey → ℕ
key_schema_version none = 0
key_schema_version (some key) = key.schema_version

unfoldable pub decode_key : Option Text → ℕ → Provenance → Option BackendKey
decode_key none schema_version provenance = none
decode_key (some key) schema_version provenance =
    some (record { backend = provenance.backend; schema_version = schema_version; value = key })

unfoldable pub type_record : TypeRecord → WireTypeRecord
unfolding key_value key_schema_version
type_record value = record {
  id = value.id;
  language = proto_language value.language;
  display = value.display;
  backend_key = key_value value.backend_key;
  backend_schema_version = key_schema_version value.backend_key;
  freshness = freshness_name value.freshness;
  completeness = completeness_name value.completeness;
  provenance_index = 0;
}

unfoldable pub decode_type_record : WireTypeRecord → Provenance → Result TypeRecord AdapterError
unfolding decode_key
decode_type_record value provenance = do
  freshness ← decode_freshness value.freshness
  completeness ← decode_completeness value.completeness
  ok (record {
    id = value.id;
    language = decode_language value.language;
    display = value.display;
    backend_key = decode_key value.backend_key value.backend_schema_version provenance;
    freshness = freshness;
    completeness = completeness;
    provenance = provenance;
  })
