-- ===== src/Tests/Orchestration.antt =====
-- A batch and a dependency catalog.
use kide.Base.{
  ℕ, ◌≡◌, refl, Text, utf8, text_eq, text_ord, nat_eq, ℕ_discrete, List, [], ◌∷◌, map, none, some,
  All, member,
}
use kide.Canonical.{SourceUnit, complete}
use kide.Freshness.{unit_id}
use kide.Protocol.{FileAnalysisSnapshot, OpaqueExecutionPlan, WorkerMessage}
use kide.Protocol.{ArtifactDiscoveryRequest, ArtifactDiscoveryResponse, artifact_discovery_response}
use kide.TreeMap.{get}
use kide.IncrementalPlan.{IncrementalIndexPlan, ManifestAction, plan_incremental_index}
use kide.Tests.Samples.{always}
use kide.Orchestrator.Errors.{Result, ok}
use kide.Orchestrator.Batch.{snapshot_id, validate_batch, commit_entries}
use kide.Orchestrator.Batch.Exact.{Verdict, validate_batch-Verdict, validate_batch_accepts}
use kide.Orchestrator.Batch.Exact.{IsPaired, commit_entries_total}
use kide.Orchestrator.Catalog.{DependencyCatalog, discover_dependency_catalog}
use kide.Supervisor
use kide.Protocol.{HandshakeResponse}
use kide.Orchestrator.Catalog.Contexts.{IsConfigured, catalog-IsConfigured}
use kide.Orchestrator.Catalog.Ends.{IsLast, catalog_ends}
use kide.Tests.Samples.{unit_a, unit_b, provenance, descriptor, manifest}

abbrev snapshot_of : SourceUnit → FileAnalysisSnapshot
snapshot_of unit = record {
  source_unit = unit;
  structural_fingerprint = none;
  public_api_fingerprint = none;
  symbols = [];
  applications = [];
  occurrences = [];
  references = [];
  calls = [];
  hierarchy = [];
  types = [];
  diagnostics = [];
  completeness = complete;
  provenance = provenance;
}

abbrev requested : List SourceUnit
requested = unit_a ∷ unit_b ∷ []

abbrev returned : List FileAnalysisSnapshot
returned = snapshot_of unit_a ∷ snapshot_of unit_b ∷ []

validate_batch-Verdict_example : Verdict requested returned (validate_batch requested returned)
validate_batch-Verdict_example = validate_batch-Verdict requested returned

same_ids : (q : Text) → member q (map unit_id requested) ≡ member q (map snapshot_id returned)
same_ids q = refl

passed : validate_batch requested returned ≡ ok returned
passed = validate_batch_accepts requested returned same_ids

commit_entries_total_example :
    (entries : List (SourceUnit × FileAnalysisSnapshot)) × (commit_entries requested returned
      ≡ some entries)
    × (map (λ entry. entry.0) entries ≡ requested)
    × IsPaired entries
commit_entries_total_example = commit_entries_total requested returned returned passed

abbrev execution_plan : OpaqueExecutionPlan
execution_plan = record { backend = utf8 "gradle"; resolved_fingerprint = utf8 "m"; payload = [] }

abbrev last_page : ArtifactDiscoveryResponse
last_page = record { artifacts = descriptor ∷ []; next_cursor = none; artifact_locators = [] }

abbrev answer : ℕ → ArtifactDiscoveryRequest → Result WorkerMessage
answer page request = ok (artifact_discovery_response last_page)

abbrev catalog : DependencyCatalog
catalog = record { descriptors = descriptor ∷ []; artifact_locators = [] }

abbrev shaken : Supervisor.Result HandshakeResponse
shaken = Supervisor.ok (record {
  capabilities = record {
    identity = record { backend = utf8 "k2"; backend_version = utf8 "1" };
    protocol_version = 3;
    languages = [];
    capabilities = [];
    semantic_query_capabilities = [];
  };
})

discovered : discover_dependency_catalog answer 1 shaken manifest execution_plan ≡ some (ok catalog)
unfolding discover_dependency_catalog text_eq text_ord nat_eq ℕ_discrete get
discovered = refl

catalog-IsConfigured_example : All (IsConfigured manifest) catalog.descriptors
catalog-IsConfigured_example =
    catalog-IsConfigured answer 1 shaken manifest execution_plan catalog discovered

ends_here : (request : ArtifactDiscoveryRequest) → IsLast (answer 0 request)
ends_here request = refl

catalog_ends_example :
    (result : Result DependencyCatalog) × (discover_dependency_catalog answer 1 shaken manifest
        execution_plan
      ≡ some result)
catalog_ends_example = catalog_ends answer 0 shaken manifest execution_plan ends_here

abbrev plan : IncrementalIndexPlan
plan = plan_incremental_index always ManifestAction.reuse requested [] [] []
