-- ===== src/Orchestrator/Catalog.antt =====
-- `discover_dependency_catalog`: the pages of the dependency catalog, and the check that each
-- descriptor stands in the resolved context of its component. The worker behind the supervisor is
-- the parameter `answer`: the response to the request with a cursor, or its failure; the outcome of
-- the handshake before it is an argument.
pub mod Contexts
pub mod Ends
use kide.Base.{
  ℕ, zero, suc, ◌+◌, Text, utf8, text_eq, text_ord, List, [], ◌∷◌, map, Option, none, some, Bool,
  not,
}
use kide.Base.{◌==◌, if◌then◌else◌}
use kide.Canonical.{Component, Fingerprint, ProjectManifest}
use kide.DependencyIdentity.{ArtifactDescriptor}
use kide.Protocol.{OpaqueExecutionPlan, ArtifactLocator, ArtifactDiscoveryRequest, WorkerMessage}
use kide.Protocol.{ArtifactDiscoveryResponse, artifact_discovery_response, HandshakeResponse}
use kide.TreeMap.{TreeMap, get, insert, collect, values}
use kide.Orchestrator.Errors.{IndexOrchestratorError, Result, ok, err, invalid_response}
use kide.Supervisor
use kide.Orchestrator.Errors.{worker, dependency_context_mismatch, unknown_dependency_component}

-- `worker_starts` and the elapsed time are not modelled.
pub record DependencyCatalog : Type 0 where
  pub descriptors : List ArtifactDescriptor
  pub artifact_locators : TreeMap Text Text

abbrev pub context_entry : Component → Text × Fingerprint
context_entry component = (component.id, component.configuration)

unfoldable pub expected_contexts : ProjectManifest → TreeMap Text Fingerprint
unfolding collect
expected_contexts manifest = collect (map context_entry manifest.components)

-- The checks in the loop over `response.artifacts`.
unfoldable pub check_descriptor :
    TreeMap Text Fingerprint → ArtifactDescriptor → Option IndexOrchestratorError
unfolding get
check_descriptor contexts d = elim (get d.source_unit.component contexts) [
  | none ↦ some (unknown_dependency_component d.source_unit.component)
  | some expected ↦
      if not (d.source_unit.context == expected)
      then some (dependency_context_mismatch d.source_unit.component expected d.source_unit.context)
      else none
]

unfoldable pub add_descriptors :
    TreeMap Text Fingerprint
    → TreeMap Text ArtifactDescriptor
    → List ArtifactDescriptor
    → Result (TreeMap Text ArtifactDescriptor)
unfolding check_descriptor insert
add_descriptors contexts descriptors [] = ok descriptors
add_descriptors contexts descriptors (d ∷ artifacts) = elim (check_descriptor contexts d) [
  | some error ↦ err error
  | none ↦ add_descriptors contexts (insert d.source_unit.id d descriptors) artifacts
]

unfoldable pub add_locators : TreeMap Text Text → List ArtifactLocator → TreeMap Text Text
unfolding insert
add_locators locators [] = locators
add_locators locators (l ∷ rest) = add_locators (insert l.source_unit l.locator locators) rest

unfoldable pub discovery_request : OpaqueExecutionPlan → Option Text → ArtifactDiscoveryRequest
discovery_request execution_plan cursor = record {
  workspace_root = utf8 ".";
  max_artifacts = 64;
  cursor = cursor;
  execution_plan = execution_plan;
}

-- The descriptors and locators that the rounds have collected.
pub record Collected : Type 0 where
  pub descriptors : TreeMap Text ArtifactDescriptor
  pub locators : TreeMap Text Text

-- A round ends the function with a result, or it asks for the next page.
pub data Round : Type 0 where
  return : Result DependencyCatalog → Round
  next_page : Text → Collected → Round

unfoldable pub after_page : Option Text → Collected → Round
after_page (some next) collected = next_page next collected
after_page none collected = return (
    ok
      record { descriptors = values collected.descriptors; artifact_locators = collected.locators })

-- The round behind the loop over `response.artifacts`.
unfoldable pub page_round :
    Result (TreeMap Text ArtifactDescriptor) → Collected → ArtifactDiscoveryResponse → Round
unfolding add_locators after_page
page_round (err error) collected response = return (err error)
page_round (ok descriptors) collected response = after_page response.next_cursor record {
  descriptors = descriptors;
  locators = add_locators collected.locators response.artifact_locators;
}

unfoldable pub take_page : TreeMap Text Fingerprint → Collected → ArtifactDiscoveryResponse → Round
unfolding add_descriptors page_round
take_page contexts collected response =
    page_round (add_descriptors contexts collected.descriptors response.artifacts) collected
      response

unfoldable pub discovery_round : TreeMap Text Fingerprint → Collected → Result WorkerMessage → Round
unfolding take_page
discovery_round contexts collected (err error) = return (err error)
discovery_round contexts collected (ok (artifact_discovery_response response)) =
    take_page contexts collected response
discovery_round contexts collected (ok other) = return (err (invalid_response other))

abbrev pub follow :
    Round
    → (Text → Collected → Option (Result DependencyCatalog))
    → Option (Result DependencyCatalog)
follow (return result) rest = some result
follow (next_page next collected) rest = rest next collected

module _ (answer : ℕ → ArtifactDiscoveryRequest → Result WorkerMessage) where
  -- The `loop` from page `page` on; `none` if the fuel runs out.
  unfoldable pub discover_pages :
      ℕ
      → TreeMap Text Fingerprint
      → OpaqueExecutionPlan
      → ℕ
      → Option Text
      → Collected
      → Option (Result DependencyCatalog)
  unfolding discovery_request discovery_round
  discover_pages zero contexts plan page cursor collected = none
  discover_pages (suc fuel) contexts plan page cursor collected =
      follow (discovery_round contexts collected (answer page (discovery_request plan cursor)))
        (λ next collected. discover_pages fuel contexts plan (page + 1) (some next) collected)

  -- `shaken` is the outcome of the handshake before the loop.
  unfoldable pub discover_dependency_catalog :
      ℕ
      → Supervisor.Result HandshakeResponse
      → ProjectManifest
      → OpaqueExecutionPlan
      → Option (Result DependencyCatalog)
  unfolding expected_contexts discover_pages
  discover_dependency_catalog fuel (Supervisor.err e) manifest execution_plan =
      some (err (worker e))
  discover_dependency_catalog fuel (Supervisor.ok shaken) manifest execution_plan =
      discover_pages fuel (expected_contexts manifest) execution_plan 0 none
        record { descriptors = []; locators = [] }
