-- ===== src/WorkerProto/Relations/RoundTrip.antt =====
-- Round trips of relations, types and diagnostics: Relations and its adapters.
use kide.Base.{ℕ, ◌≡◌, refl, ◌++◌, utf8, text_eq, ℕ_discrete, List, Option, none, some, arith}
use kide.Base.Results.{ok, err}
use kide.Canonical.{
  SourceUnit, Provenance, ByteRange, SourceOccurrence, ReferenceEdge, CallEdge, HierarchyEdge,
  TypeRecord, DiagnosticRecord, BackendKey, OccurrenceKind,
}
use kide.WorkerProto.Wire.{unsupported}
use kide.WorkerProto.Names.{occurrence_kind_name, decode_occurrence_kind}
use kide.WorkerProto.Names.RoundTrip.{
  IsNamed, decode_language-proto_language, decode_freshness-freshness_name,
  decode_completeness-completeness_name, decode_precision-precision_name,
  decode_severity-severity_name,
}
use kide.WorkerProto.Facts.{map_option, proto_range, decode_range, range_in}
use kide.WorkerProto.Relations.{
  occurrence, own_source, decode_occurrence, reference_edge, call_edge, get_at,
  decode_reference_edge, decode_call_edge, hierarchy_edge, decode_hierarchy_edge, diagnostic,
  decode_diagnostic, key_value, key_schema_version, decode_key, type_record, decode_type_record,
}

-- A kind whose text the decoder knows.
pub data IsReadable : OccurrenceKind → Type 0 where
  declaration : IsReadable OccurrenceKind.declaration
  reference : IsReadable OccurrenceKind.reference
  call : IsReadable OccurrenceKind.call
  import : IsReadable OccurrenceKind.import

decode_occurrence_kind-occurrence_kind_name :
    {k : OccurrenceKind} → IsReadable k → decode_occurrence_kind (occurrence_kind_name k) ≡ ok k
unfolding decode_occurrence_kind occurrence_kind_name text_eq ℕ_discrete
decode_occurrence_kind-occurrence_kind_name declaration = refl
decode_occurrence_kind-occurrence_kind_name reference = refl
decode_occurrence_kind-occurrence_kind_name call = refl
decode_occurrence_kind-occurrence_kind_name import = refl

pub record IsLosslessOccurrence (unit : SourceUnit) (o : SourceOccurrence) : Type 0 where
  pub range : o.range.source_unit ≡ unit.id
  pub kind : IsReadable o.kind

pub decode_occurrence-occurrence :
    (unit : SourceUnit) (o : SourceOccurrence) (index : ℕ)
    → IsLosslessOccurrence unit o
    → decode_occurrence unit (record (occurrence o) { provenance_index = index }) o.provenance
      ≡ ok o
unfolding decode_occurrence occurrence range_in own_source
decode_occurrence-occurrence unit o index own =
    rw
      (
        decode_occurrence_kind-occurrence_kind_name own.kind,
        decode_precision-precision_name o.precision,
        decode_freshness-freshness_name o.freshness,
        decode_completeness-completeness_name o.completeness,
      )
      (ground arith)

-- A reference to a type is written with a text that the decoder refuses.
pub type_reference_refused :
    (unit : SourceUnit) (o : SourceOccurrence) (index : ℕ) (provenance : Provenance)
    → o.kind ≡ OccurrenceKind.type_reference
    → decode_occurrence unit (record (occurrence o) { provenance_index = index }) provenance
      ≡ err (unsupported (utf8 "occurrence kind " ++ utf8 "typereference"))
unfolding decode_occurrence occurrence own_source
type_reference_refused unit o index provenance kind =
    let refused : decode_occurrence_kind (occurrence_kind_name OccurrenceKind.type_reference)
        ≡ err (unsupported (utf8 "occurrence kind " ++ utf8 "typereference")) =
      unfold decode_occurrence_kind occurrence_kind_name text_eq ℕ_discrete in refl in
    rw (kind, refused) refl

pub decode_reference_edge-reference_edge :
    (occurrences : List SourceOccurrence) (edge : ReferenceEdge) (index : ℕ)
    → get_at occurrences index ≡ some edge.origin
    → decode_reference_edge occurrences (reference_edge edge index) ≡ ok edge
unfolding decode_reference_edge reference_edge
decode_reference_edge-reference_edge occurrences edge index found =
    rw (found, decode_precision-precision_name edge.precision) refl

pub decode_call_edge-call_edge :
    (occurrences : List SourceOccurrence) (edge : CallEdge) (index : ℕ)
    → get_at occurrences index ≡ some edge.origin
    → decode_call_edge occurrences (call_edge edge index) ≡ ok edge
unfolding decode_call_edge call_edge
decode_call_edge-call_edge occurrences edge index found =
    rw (found, decode_precision-precision_name edge.precision) refl

pub decode_hierarchy_edge-hierarchy_edge :
    (edge : HierarchyEdge) (index : ℕ)
    → decode_hierarchy_edge
        (record (hierarchy_edge edge) { provenance_index = index })
        edge.provenance
      ≡ ok edge
unfolding decode_hierarchy_edge hierarchy_edge
decode_hierarchy_edge-hierarchy_edge edge index =
    rw (decode_precision-precision_name edge.precision) refl

range_round :
    (range : Option ByteRange) → map_option decode_range (map_option proto_range range) ≡ range
unfolding map_option decode_range proto_range
range_round none = refl
range_round (some range) = refl

pub decode_diagnostic-diagnostic :
    (unit : SourceUnit) (d : DiagnosticRecord) (index : ℕ)
    → d.source_unit ≡ unit.id
    → decode_diagnostic unit (record (diagnostic d) { provenance_index = index }) d.provenance
      ≡ ok d
unfolding decode_diagnostic diagnostic own_source
decode_diagnostic-diagnostic unit d index own =
    rw
      (
        decode_severity-severity_name d.severity,
        decode_freshness-freshness_name d.freshness,
        decode_completeness-completeness_name d.completeness,
        range_round d.range,
      )
      (ground arith)

-- The backend of a type's key is that of its provenance.
pub data IsOwnKey (provenance : Provenance) : Option BackendKey → Type 0 where
  keyless : IsOwnKey provenance none
  keyed : {key : BackendKey} → key.backend ≡ provenance.backend → IsOwnKey provenance (some key)

key_round :
    (provenance : Provenance) {key : Option BackendKey}
    → IsOwnKey provenance key
    → decode_key (key_value key) (key_schema_version key) provenance ≡ key
unfolding decode_key key_value key_schema_version
key_round provenance keyless = refl
key_round provenance (keyed same) = ground arith

pub record IsLosslessType (type : TypeRecord) : Type 0 where
  pub language : IsNamed type.language
  pub key : IsOwnKey type.provenance type.backend_key

pub decode_type_record-type_record :
    (type : TypeRecord) (index : ℕ)
    → IsLosslessType type
    → decode_type_record (record (type_record type) { provenance_index = index }) type.provenance
      ≡ ok type
unfolding decode_type_record type_record
decode_type_record-type_record type index own =
    rw
      (
        decode_freshness-freshness_name type.freshness,
        decode_completeness-completeness_name type.completeness,
        decode_language-proto_language own.language,
        key_round type.provenance own.key,
      )
      refl
