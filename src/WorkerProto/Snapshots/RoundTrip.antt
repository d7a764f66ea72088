-- ===== src/WorkerProto/Snapshots/RoundTrip.antt =====
-- The round trip of a snapshot: `file_analysis_snapshot` and `decode_file_analysis_snapshot`.
use kide.Base.{◌^◌, ◌<◌, ◌≡◌, refl, Text, utf8, List, [], ◌∷◌, map, some}
use kide.Base.{length, All, arith}
use kide.Base.Results.{ok, ◌>>=◌}
use kide.Canonical.{
  Provenance, SymbolRecord, ApplicationFact, SourceOccurrence, HierarchyEdge, TypeRecord,
  DiagnosticRecord,
}
use kide.Protocol.{FileAnalysisSnapshot}
use kide.WorkerProto.Wire.{
  WireSymbolDeclaration, WireApplicationFact, WireOccurrence, WireHierarchyEdge, WireTypeRecord,
  WireDiagnostic,
}
use kide.WorkerProto.Names.RoundTrip.{IsNamed, decode_completeness-completeness_name}
use kide.WorkerProto.Facts.{proto_provenance, decode_provenance}
use kide.WorkerProto.Facts.{
  decode_symbol_declaration, decode_application_fact, symbol_declaration, application_fact,
}
use kide.WorkerProto.Facts.RoundTrip.{
  decode_source_unit-encode_source_unit, IsLosslessSymbol,
  decode_symbol_declaration-symbol_declaration, IsLosslessApplication,
  decode_application_fact-application_fact,
}
use kide.WorkerProto.Relations.{
  get_at, occurrence, decode_occurrence, hierarchy_edge, decode_hierarchy_edge, diagnostic,
  decode_diagnostic, type_record, decode_type_record,
}
use kide.WorkerProto.Relations.RoundTrip.{
  IsLosslessOccurrence, decode_occurrence-occurrence, decode_hierarchy_edge-hierarchy_edge,
  decode_diagnostic-diagnostic, IsLosslessType, decode_type_record-type_record,
}
use kide.WorkerProto.Provenances.{indexed_provenance}
use kide.WorkerProto.Provenances.Interned.{decode_indexed-index_all, Extends-get_at}
use kide.WorkerProto.Snapshots.{
  source_occurrence_eq, index_facts, set_symbol, set_application, set_occurrence, set_hierarchy,
  set_type, set_diagnostic, file_analysis_snapshot, decode_symbols, decode_applications,
  decode_occurrences, decode_hierarchy, decode_types, decode_diagnostics,
  decode_file_analysis_snapshot,
}
use kide.WorkerProto.Snapshots.Edges.{IsAmong, references_round, calls_round}
use kide.WorkerProto.Snapshots.Tables.{
  fact_count, index_facts-length, final_Extends_own, final_Extends_symbols,
  final_Extends_applications, final_Extends_occurrences, final_Extends_hierarchy,
  final_Extends_types, final_Extends_diagnostics,
}

-- A snapshot that the wire carries in full: what is left out of its facts is that of the snapshot,
-- and each of its names and values has a text that is read back.
pub record IsLossless (s : FileAnalysisSnapshot) : Type 0 where
  pub language : IsNamed s.source_unit.language
  pub symbols : All (IsLosslessSymbol s.source_unit) s.symbols
  pub applications : All (IsLosslessApplication s.source_unit) s.applications
  pub occurrences : All (IsLosslessOccurrence s.source_unit) s.occurrences
  pub references : All (λ edge. IsAmong s.occurrences edge.origin) s.references
  pub calls : All (λ edge. IsAmong s.occurrences edge.origin) s.calls
  pub types : All IsLosslessType s.types
  pub diagnostics : All (λ d. d.source_unit ≡ s.source_unit.id) s.diagnostics

hierarchy_own : (edges : List HierarchyEdge) → All (λ edge. Unit {0}) edges
hierarchy_own [] = tt
hierarchy_own (edge ∷ edges) = (tt, hierarchy_own edges)

module _ (s : FileAnalysisSnapshot) where
  module _ (small : fact_count s < 2 ^ 32) where
    table_small : length (index_facts s).diagnostics.1 < 2 ^ 32
    table_small = omega (arith, index_facts-length s)

    symbols_round :
        All (IsLosslessSymbol s.source_unit) s.symbols
        → decode_symbols s.source_unit (index_facts s).diagnostics.1 (index_facts s).symbols.0
          ≡ ok s.symbols
    unfolding index_facts decode_symbols
    symbols_round own =
        decode_indexed-index_all (λ (x : SymbolRecord). x.provenance) symbol_declaration set_symbol
          (λ (w : WireSymbolDeclaration). w.provenance_index)
          (decode_symbol_declaration s.source_unit) (utf8 "symbol.provenance_index")
          (IsLosslessSymbol s.source_unit) (λ i wire. refl)
          (decode_symbol_declaration-symbol_declaration s.source_unit) (s.provenance ∷ []) s.symbols
          (index_facts s).diagnostics.1 (final_Extends_symbols s) table_small own

    applications_round :
        All (IsLosslessApplication s.source_unit) s.applications
        → decode_applications s.source_unit
            (index_facts s).diagnostics.1
            (index_facts s).applications.0
          ≡ ok s.applications
    unfolding index_facts decode_applications
    applications_round own =
        decode_indexed-index_all (λ (x : ApplicationFact). x.provenance) application_fact
          set_application (λ (w : WireApplicationFact). w.provenance_index)
          (decode_application_fact s.source_unit) (utf8 "application.provenance_index")
          (IsLosslessApplication s.source_unit) (λ i wire. refl)
          (decode_application_fact-application_fact s.source_unit) (index_facts s).symbols.1
          s.applications (index_facts s).diagnostics.1 (final_Extends_applications s) table_small
          own

    occurrences_round :
        All (IsLosslessOccurrence s.source_unit) s.occurrences
        → decode_occurrences s.source_unit
            (index_facts s).diagnostics.1
            (index_facts s).occurrences.0
          ≡ ok s.occurrences
    unfolding index_facts decode_occurrences
    occurrences_round own =
        decode_indexed-index_all (λ (x : SourceOccurrence). x.provenance) occurrence set_occurrence
          (λ (w : WireOccurrence). w.provenance_index) (decode_occurrence s.source_unit)
          (utf8 "occurrence.provenance_index") (IsLosslessOccurrence s.source_unit) (λ i wire. refl)
          (decode_occurrence-occurrence s.source_unit) (index_facts s).applications.1 s.occurrences
          (index_facts s).diagnostics.1 (final_Extends_occurrences s) table_small own

    hierarchy_round :
        decode_hierarchy (index_facts s).diagnostics.1 (index_facts s).hierarchy.0 ≡ ok s.hierarchy
    unfolding index_facts decode_hierarchy
    hierarchy_round =
        decode_indexed-index_all (λ (x : HierarchyEdge). x.provenance) hierarchy_edge set_hierarchy
          (λ (w : WireHierarchyEdge). w.provenance_index) decode_hierarchy_edge
          (utf8 "hierarchy.provenance_index") (λ (x : HierarchyEdge). Unit {0}) (λ i wire. refl)
          (λ edge i own. decode_hierarchy_edge-hierarchy_edge edge i) (index_facts s).occurrences.1
          s.hierarchy (index_facts s).diagnostics.1 (final_Extends_hierarchy s) table_small
          (hierarchy_own s.hierarchy)

    types_round :
        All IsLosslessType s.types
        → decode_types (index_facts s).diagnostics.1 (index_facts s).types.0 ≡ ok s.types
    unfolding index_facts decode_types
    types_round own =
        decode_indexed-index_all (λ (x : TypeRecord). x.provenance) type_record set_type
          (λ (w : WireTypeRecord). w.provenance_index) decode_type_record
          (utf8 "type.provenance_index") IsLosslessType (λ i wire. refl)
          (decode_type_record-type_record) (index_facts s).hierarchy.1 s.types
          (index_facts s).diagnostics.1 (final_Extends_types s) table_small own

    diagnostics_round :
        All (λ d. d.source_unit ≡ s.source_unit.id) s.diagnostics
        → decode_diagnostics s.source_unit
            (index_facts s).diagnostics.1
            (index_facts s).diagnostics.0
          ≡ ok s.diagnostics
    unfolding index_facts decode_diagnostics
    diagnostics_round own =
        decode_indexed-index_all (λ (x : DiagnosticRecord). x.provenance) diagnostic set_diagnostic
          (λ (w : WireDiagnostic). w.provenance_index) (decode_diagnostic s.source_unit)
          (utf8 "diagnostic.provenance_index")
          (λ (d : DiagnosticRecord). d.source_unit ≡ s.source_unit.id) (λ i wire. refl)
          (decode_diagnostic-diagnostic s.source_unit) (index_facts s).types.1 s.diagnostics
          (index_facts s).diagnostics.1 (final_Extends_diagnostics s) table_small own

    own_provenance :
        (field : Text) → indexed_provenance (index_facts s).diagnostics.1 0 field ≡ ok s.provenance
    unfolding indexed_provenance
    own_provenance field =
        let first : get_at (s.provenance ∷ []) 0 ≡ some s.provenance = unfold get_at in refl in
        let held =
          Extends-get_at (s.provenance ∷ []) (index_facts s).diagnostics.1 0 (final_Extends_own s)
            first in
        rw held

    provenances_round :
        (values : List Provenance) → map decode_provenance (map proto_provenance values) ≡ values
    unfolding decode_provenance proto_provenance
    provenances_round [] = refl
    provenances_round (p ∷ values) = rw (provenances_round values)

    -- A snapshot that loses nothing on the wire is encoded without an error, and what is encoded
    -- decodes to it; the snapshot and its facts with a provenance of their own are fewer than 2 ^
    -- 32. It loses nothing if its facts stand in its source unit, keys are of the backend of their
    -- provenance, the occurrences of its references and calls are among its own, no language is
    -- another one under the name of a known one, no occurrence is a reference to a type, and no
    -- argument is an empty list of texts.
    pub decode-file_analysis_snapshot :
        IsLossless s → (file_analysis_snapshot s >>= decode_file_analysis_snapshot) ≡ ok s
    unfolding file_analysis_snapshot decode_file_analysis_snapshot
    decode-file_analysis_snapshot own =
        let few : length s.occurrences < 2 ^ 32 = omega arith in
        let (references, wrote, read) =
          references_round s.occurrences few s.references own.references in
        let (calls, sent, got) = calls_round s.occurrences few s.calls own.calls in
        let unit = decode_source_unit-encode_source_unit s.source_unit own.language in
        rw
          (
            wrote,
            sent,
            unit,
            provenances_round (index_facts s).diagnostics.1,
            own_provenance (utf8 "snapshot.provenance_index"),
            symbols_round own.symbols,
            applications_round own.applications,
            occurrences_round own.occurrences,
            read,
            got,
            hierarchy_round,
            types_round own.types,
            diagnostics_round own.diagnostics,
            decode_completeness-completeness_name s.completeness,
          )
          refl
