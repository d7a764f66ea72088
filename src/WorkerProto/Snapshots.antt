-- ===== src/WorkerProto/Snapshots.antt =====
-- `file_analysis_snapshot` and `decode_file_analysis_snapshot`. The table of provenances starts with
-- the snapshot's own and grows by the facts in the order of the source.
pub mod Edges
pub mod Tables
pub mod RoundTrip
use kide.Base.{ℕ, ◌%◌, ◌^◌, Text, utf8, text_eq, List, [], ◌∷◌, map, Option, none, some, Eq}
use kide.Base.Results.{Result, ok, err, ◌>>=◌, ok_or}
use kide.Canonical.{
  SourceUnit, Provenance, SymbolRecord, ApplicationFact, SourceOccurrence, ReferenceEdge, CallEdge,
  HierarchyEdge, TypeRecord, DiagnosticRecord,
}
use kide.Protocol.{FileAnalysisSnapshot}
use kide.WorkerProto.Wire.{
  AdapterError, missing, WireSymbolDeclaration, WireApplicationFact, WireOccurrence,
  WireReferenceEdge, WireCallEdge, WireHierarchyEdge, WireTypeRecord, WireDiagnostic, WireSnapshot,
}
use kide.WorkerProto.Names.{completeness_name, decode_completeness}
use kide.WorkerProto.Facts.{
  collect_results, encode_source_unit, decode_source_unit, proto_provenance, decode_provenance,
  symbol_declaration, decode_symbol_declaration, application_fact, decode_application_fact,
}
use kide.WorkerProto.Relations.{
  occurrence, decode_occurrence, reference_edge, decode_reference_edge, call_edge, decode_call_edge,
  hierarchy_edge, decode_hierarchy_edge, diagnostic, decode_diagnostic, type_record,
  decode_type_record,
}
use kide.WorkerProto.Provenances.{position_from, indexed_provenance, index_all, decode_indexed}
use native.Mathlib.Decide.{ℕ_discrete}

source_occurrence_dec : Discrete SourceOccurrence
source_occurrence_dec = hlevel ℕ_discrete

instance unfoldable pub source_occurrence_eq : Eq SourceOccurrence
unfolding source_occurrence_dec
source_occurrence_eq = record { dec = source_occurrence_dec }

-- `as u32`
unfoldable pub to_u32 : ℕ → ℕ
to_u32 index = index % 2 ^ 32

unfoldable pub occurrence_index : List SourceOccurrence → SourceOccurrence → Result ℕ AdapterError
unfolding position_from to_u32
occurrence_index occurrences value = elim (position_from 0 value occurrences) [
  | some index ↦ ok (to_u32 index)
  | none ↦ err (missing (utf8 "relation.source_occurrence"))
]

unfoldable pub index_reference :
    List SourceOccurrence → ReferenceEdge → Result WireReferenceEdge AdapterError
unfolding occurrence_index
index_reference occurrences edge = do
  index ← occurrence_index occurrences edge.origin
  ok (reference_edge edge index)

unfoldable pub index_call : List SourceOccurrence → CallEdge → Result WireCallEdge AdapterError
unfolding occurrence_index
index_call occurrences edge = do
  index ← occurrence_index occurrences edge.origin
  ok (call_edge edge index)

abbrev pub set_symbol : ℕ → WireSymbolDeclaration → WireSymbolDeclaration
set_symbol index wire = record wire { provenance_index = index }

abbrev pub set_application : ℕ → WireApplicationFact → WireApplicationFact
set_application index wire = record wire { provenance_index = index }

abbrev pub set_occurrence : ℕ → WireOccurrence → WireOccurrence
set_occurrence index wire = record wire { provenance_index = index }

abbrev pub set_hierarchy : ℕ → WireHierarchyEdge → WireHierarchyEdge
set_hierarchy index wire = record wire { provenance_index = index }

abbrev pub set_type : ℕ → WireTypeRecord → WireTypeRecord
set_type index wire = record wire { provenance_index = index }

abbrev pub set_diagnostic : ℕ → WireDiagnostic → WireDiagnostic
set_diagnostic index wire = record wire { provenance_index = index }

abbrev pub index_symbols :
    List Provenance → List SymbolRecord → List WireSymbolDeclaration × List Provenance
index_symbols = index_all (λ (s : SymbolRecord). s.provenance) symbol_declaration set_symbol

abbrev pub index_applications :
    List Provenance → List ApplicationFact → List WireApplicationFact × List Provenance
index_applications =
    index_all (λ (a : ApplicationFact). a.provenance) application_fact set_application

abbrev pub index_occurrences :
    List Provenance → List SourceOccurrence → List WireOccurrence × List Provenance
index_occurrences = index_all (λ (o : SourceOccurrence). o.provenance) occurrence set_occurrence

abbrev pub index_hierarchy :
    List Provenance → List HierarchyEdge → List WireHierarchyEdge × List Provenance
index_hierarchy = index_all (λ (e : HierarchyEdge). e.provenance) hierarchy_edge set_hierarchy

abbrev pub index_types : List Provenance → List TypeRecord → List WireTypeRecord × List Provenance
index_types = index_all (λ (t : TypeRecord). t.provenance) type_record set_type

abbrev pub index_diagnostics :
    List Provenance → List DiagnosticRecord → List WireDiagnostic × List Provenance
index_diagnostics = index_all (λ (d : DiagnosticRecord). d.provenance) diagnostic set_diagnostic

-- The facts that carry an index, encoded, with the table behind each kind of them.
pub record Indexed : Type 0 where
  pub symbols : List WireSymbolDeclaration × List Provenance
  pub applications : List WireApplicationFact × List Provenance
  pub occurrences : List WireOccurrence × List Provenance
  pub hierarchy : List WireHierarchyEdge × List Provenance
  pub types : List WireTypeRecord × List Provenance
  pub diagnostics : List WireDiagnostic × List Provenance

unfoldable pub index_facts : FileAnalysisSnapshot → Indexed
unfolding index_all
index_facts value =
    let symbols = index_symbols (value.provenance ∷ []) value.symbols in
    let applications = index_applications symbols.1 value.applications in
    let occurrences = index_occurrences applications.1 value.occurrences in
    let hierarchy = index_hierarchy occurrences.1 value.hierarchy in
    let types = index_types hierarchy.1 value.types in
    let diagnostics = index_diagnostics types.1 value.diagnostics in
    record {
      symbols = symbols;
      applications = applications;
      occurrences = occurrences;
      hierarchy = hierarchy;
      types = types;
      diagnostics = diagnostics;
    }

unfoldable pub file_analysis_snapshot : FileAnalysisSnapshot → Result WireSnapshot AdapterError
unfolding index_facts index_reference index_call
file_analysis_snapshot value = do
  references ← collect_results (index_reference value.occurrences) value.references
  calls ← collect_results (index_call value.occurrences) value.calls
  ok (record {
    source_unit = some (encode_source_unit value.source_unit);
    structural_fingerprint = value.structural_fingerprint;
    public_api_fingerprint = value.public_api_fingerprint;
    provenances = map proto_provenance (index_facts value).diagnostics.1;
    symbols = (index_facts value).symbols.0;
    occurrences = (index_facts value).occurrences.0;
    references = references;
    calls = calls;
    hierarchy = (index_facts value).hierarchy.0;
    types = (index_facts value).types.0;
    diagnostics = (index_facts value).diagnostics.0;
    completeness = completeness_name value.completeness;
    provenance_index = 0;
    applications = (index_facts value).applications.0;
  })

unfoldable pub decode_symbols :
    SourceUnit
    → List Provenance
    → List WireSymbolDeclaration
    → Result (List SymbolRecord) AdapterError
unfolding decode_indexed
decode_symbols unit provenances = collect_results (
    decode_indexed (λ (w : WireSymbolDeclaration). w.provenance_index)
      (decode_symbol_declaration unit) provenances (utf8 "symbol.provenance_index"))

unfoldable pub decode_applications :
    SourceUnit
    → List Provenance
    → List WireApplicationFact
    → Result (List ApplicationFact) AdapterError
unfolding decode_indexed
decode_applications unit provenances = collect_results (
    decode_indexed (λ (w : WireApplicationFact). w.provenance_index) (decode_application_fact unit)
      provenances (utf8 "application.provenance_index"))

unfoldable pub decode_occurrences :
    SourceUnit → List Provenance → List WireOccurrence → Result (List SourceOccurrence) AdapterError
unfolding decode_indexed
decode_occurrences unit provenances = collect_results (
    decode_indexed (λ (w : WireOccurrence). w.provenance_index) (decode_occurrence unit) provenances
      (utf8 "occurrence.provenance_index"))

unfoldable pub decode_hierarchy :
    List Provenance → List WireHierarchyEdge → Result (List HierarchyEdge) AdapterError
unfolding decode_indexed
decode_hierarchy provenances = collect_results (
    decode_indexed (λ (w : WireHierarchyEdge). w.provenance_index) decode_hierarchy_edge provenances
      (utf8 "hierarchy.provenance_index"))

unfoldable pub decode_types :
    List Provenance → List WireTypeRecord → Result (List TypeRecord) AdapterError
unfolding decode_indexed
decode_types provenances = collect_results (
    decode_indexed (λ (w : WireTypeRecord). w.provenance_index) decode_type_record provenances
      (utf8 "type.provenance_index"))

unfoldable pub decode_diagnostics :
    SourceUnit → List Provenance → List WireDiagnostic → Result (List DiagnosticRecord) AdapterError
unfolding decode_indexed
decode_diagnostics unit provenances = collect_results (
    decode_indexed (λ (w : WireDiagnostic). w.provenance_index) (decode_diagnostic unit) provenances
      (utf8 "diagnostic.provenance_index"))

unfoldable pub decode_file_analysis_snapshot :
    WireSnapshot → Result FileAnalysisSnapshot AdapterError
unfolding decode_symbols decode_applications decode_occurrences decode_hierarchy decode_types
    decode_diagnostics
decode_file_analysis_snapshot value = do
  wire_unit ← ok_or value.source_unit (missing (utf8 "snapshot.source_unit"))
  unit ← decode_source_unit wire_unit
  let provenances = map decode_provenance value.provenances
  provenance ←
      indexed_provenance provenances value.provenance_index (utf8 "snapshot.provenance_index")
  symbols ← decode_symbols unit provenances value.symbols
  applications ← decode_applications unit provenances value.applications
  occurrences ← decode_occurrences unit provenances value.occurrences
  references ← collect_results (decode_reference_edge occurrences) value.references
  calls ← collect_results (decode_call_edge occurrences) value.calls
  hierarchy ← decode_hierarchy provenances value.hierarchy
  types ← decode_types provenances value.types
  diagnostics ← decode_diagnostics unit provenances value.diagnostics
  completeness ← decode_completeness value.completeness
  ok (record {
    source_unit = unit;
    structural_fingerprint = value.structural_fingerprint;
    public_api_fingerprint = value.public_api_fingerprint;
    symbols = symbols;
    applications = applications;
    occurrences = occurrences;
    references = references;
    calls = calls;
    hierarchy = hierarchy;
    types = types;
    diagnostics = diagnostics;
    completeness = completeness;
    provenance = provenance;
  })
