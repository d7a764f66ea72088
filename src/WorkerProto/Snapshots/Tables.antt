-- ===== src/WorkerProto/Snapshots/Tables.antt =====
-- The table of provenances behind each kind of facts, and how it grows.
use kide.Base.{ℕ, ◌+◌, ◌≤◌, sym, [], ◌∷◌}
use kide.Base.{length, arith, append-nil}
use kide.Canonical.{
  SymbolRecord, ApplicationFact, SourceOccurrence, HierarchyEdge, TypeRecord, DiagnosticRecord,
}
use kide.Protocol.{FileAnalysisSnapshot}
use kide.WorkerProto.Facts.{symbol_declaration, application_fact}
use kide.WorkerProto.Facts.RoundTrip.{}
use kide.WorkerProto.Relations.{occurrence, hierarchy_edge, diagnostic, type_record}
use kide.WorkerProto.Relations.RoundTrip.{}
use kide.WorkerProto.Provenances.Interned.{
  Extends, index_all-Extends, index_all-length, Extends-trans,
}
use kide.WorkerProto.Snapshots.{
  source_occurrence_eq, index_facts, set_symbol, set_application, set_occurrence, set_hierarchy,
  set_type, set_diagnostic,
}

-- The facts that carry a provenance, and the snapshot itself.
abbrev pub fact_count : FileAnalysisSnapshot → ℕ
fact_count s =
    1
    + length s.symbols
    + length s.applications
    + length s.occurrences
    + length s.hierarchy
    + length s.types
    + length s.diagnostics

module _ (s : FileAnalysisSnapshot) where
  pub index_facts-length : length (index_facts s).diagnostics.1 ≤ fact_count s
  unfolding index_facts
  index_facts-length =
      let f = index_facts s in
      omega (
        arith,
        index_all-length (λ (x : SymbolRecord). x.provenance) symbol_declaration set_symbol
            (s.provenance ∷ []) s.symbols,
        index_all-length (λ (x : ApplicationFact). x.provenance) application_fact set_application
            f.symbols.1 s.applications,
        index_all-length (λ (x : SourceOccurrence). x.provenance) occurrence set_occurrence
            f.applications.1 s.occurrences,
        index_all-length (λ (x : HierarchyEdge). x.provenance) hierarchy_edge set_hierarchy
            f.occurrences.1 s.hierarchy,
        index_all-length (λ (x : TypeRecord). x.provenance) type_record set_type f.hierarchy.1
            s.types,
        index_all-length (λ (x : DiagnosticRecord). x.provenance) diagnostic set_diagnostic
            f.types.1 s.diagnostics,
      )

  -- The tables behind the kinds of facts, each an extension of the one before.
  pub final_Extends_diagnostics :
      Extends (index_facts s).diagnostics.1 (index_facts s).diagnostics.1
  final_Extends_diagnostics = ([], sym (append-nil (index_facts s).diagnostics.1))

  pub final_Extends_types : Extends (index_facts s).types.1 (index_facts s).diagnostics.1
  unfolding index_facts
  final_Extends_types =
      let f = index_facts s in
      Extends-trans f.types.1 f.diagnostics.1 f.diagnostics.1
        (index_all-Extends (λ (x : DiagnosticRecord). x.provenance) diagnostic set_diagnostic
          f.types.1 s.diagnostics)
        final_Extends_diagnostics

  pub final_Extends_hierarchy : Extends (index_facts s).hierarchy.1 (index_facts s).diagnostics.1
  unfolding index_facts
  final_Extends_hierarchy =
      let f = index_facts s in
      Extends-trans f.hierarchy.1 f.types.1 f.diagnostics.1
        (index_all-Extends (λ (x : TypeRecord). x.provenance) type_record set_type f.hierarchy.1
          s.types)
        final_Extends_types

  pub final_Extends_occurrences :
      Extends (index_facts s).occurrences.1 (index_facts s).diagnostics.1
  unfolding index_facts
  final_Extends_occurrences =
      let f = index_facts s in
      Extends-trans f.occurrences.1 f.hierarchy.1 f.diagnostics.1
        (index_all-Extends (λ (x : HierarchyEdge). x.provenance) hierarchy_edge set_hierarchy
          f.occurrences.1 s.hierarchy)
        final_Extends_hierarchy

  pub final_Extends_applications :
      Extends (index_facts s).applications.1 (index_facts s).diagnostics.1
  unfolding index_facts
  final_Extends_applications =
      let f = index_facts s in
      Extends-trans f.applications.1 f.occurrences.1 f.diagnostics.1
        (index_all-Extends (λ (x : SourceOccurrence). x.provenance) occurrence set_occurrence
          f.applications.1 s.occurrences)
        final_Extends_occurrences

  pub final_Extends_symbols : Extends (index_facts s).symbols.1 (index_facts s).diagnostics.1
  unfolding index_facts
  final_Extends_symbols =
      let f = index_facts s in
      Extends-trans f.symbols.1 f.applications.1 f.diagnostics.1
        (index_all-Extends (λ (x : ApplicationFact). x.provenance) application_fact set_application
          f.symbols.1 s.applications)
        final_Extends_applications

  pub final_Extends_own : Extends (s.provenance ∷ []) (index_facts s).diagnostics.1
  unfolding index_facts
  final_Extends_own =
      let f = index_facts s in
      Extends-trans (s.provenance ∷ []) f.symbols.1 f.diagnostics.1
        (index_all-Extends (λ (x : SymbolRecord). x.provenance) symbol_declaration set_symbol
          (s.provenance ∷ []) s.symbols)
        final_Extends_symbols
