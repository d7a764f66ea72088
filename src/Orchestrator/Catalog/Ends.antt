-- ===== src/Orchestrator/Catalog/Ends.antt =====
-- When the loop over the pages of a dependency catalog ends.
use kide.Base.{ℕ, zero, suc, ◌+◌, ◌≡◌, refl, ap, subst, Text, text_eq, text_ord}
use kide.Base.{Option, none, some, arith}
use kide.Canonical.{Fingerprint, ProjectManifest}
use kide.DependencyIdentity.{ArtifactDescriptor}
use kide.Protocol.{OpaqueExecutionPlan, ArtifactDiscoveryRequest, WorkerMessage}
use kide.Protocol.{ArtifactDiscoveryResponse, artifact_discovery_response, HandshakeResponse}
use kide.TreeMap.{TreeMap}
use kide.Supervisor
use kide.Orchestrator.Errors.{Result, ok, err, worker}
use kide.Orchestrator.Catalog.{DependencyCatalog, expected_contexts}
use kide.Orchestrator.Catalog.{Collected, Round, return, next_page, after_page}
use kide.Orchestrator.Catalog.{
  page_round, follow, take_page, discovery_round, discovery_request, discover_pages,
}
use kide.Orchestrator.Catalog.{discover_dependency_catalog}

-- An answer after which no page is asked for.
abbrev pub IsLast : Result WorkerMessage → Type 0
IsLast (ok (artifact_discovery_response response)) = response.next_cursor ≡ none
IsLast _ = Unit

after_page-returns :
    (next : Option Text) (collected : Collected)
    → next ≡ none
    → (result : Result DependencyCatalog) × (after_page next collected ≡ return result)
unfolding after_page
after_page-returns none collected h = (_, refl)
after_page-returns (some next) collected h = ground (arith, h)

page_round-returns :
    (added : Result (TreeMap Text ArtifactDescriptor)) (collected : Collected)
    (response : ArtifactDiscoveryResponse)
    → response.next_cursor ≡ none
    → (result : Result DependencyCatalog) × (page_round added collected response ≡ return result)
unfolding page_round
page_round-returns (err error) collected response h = (err error, refl)
page_round-returns (ok m) collected response h = after_page-returns response.next_cursor _ h

last_round-returns :
    (contexts : TreeMap Text Fingerprint) (collected : Collected) (message : Result WorkerMessage)
    → IsLast message
    → (result : Result DependencyCatalog) × (discovery_round contexts collected message
        ≡ return result)
unfolding discovery_round take_page
last_round-returns contexts collected (err error) h = (err error, refl)
last_round-returns contexts collected (ok (artifact_discovery_response response)) h =
    page_round-returns _ collected response h
last_round-returns contexts collected (ok _) h = (_, refl)

page_zero : (page : ℕ) → page + 0 ≡ page
page_zero page = omega arith

page_suc : (page n : ℕ) → page + suc n ≡ page + 1 + n
page_suc page n = omega arith

from_zero : (n : ℕ) → n ≡ 0 + n
from_zero n = omega arith

follow-ends :
    (r : Round) (rest : Text → Collected → Option (Result DependencyCatalog))
    → ((next : Text) (collected : Collected)
        → (result : Result DependencyCatalog) × (rest next collected ≡ some result))
    → (result : Result DependencyCatalog) × (follow r rest ≡ some result)
follow-ends (return result) rest h = (result, refl)
follow-ends (next_page next collected) rest h = h next collected

module _ (answer : ℕ → ArtifactDiscoveryRequest → Result WorkerMessage) where
  discover_pages-ends :
      (n : ℕ) (contexts : TreeMap Text Fingerprint) (plan : OpaqueExecutionPlan) (page : ℕ)
      (cursor : Option Text) (collected : Collected)
      → ((request : ArtifactDiscoveryRequest) → IsLast (answer (page + n) request))
      → (result : Result DependencyCatalog) × (discover_pages answer
            (suc n)
            contexts
            plan
            page
            cursor
            collected
          ≡ some result)
  unfolding discover_pages
  discover_pages-ends zero contexts plan page cursor collected last =
      let here : (request : ArtifactDiscoveryRequest) → IsLast (answer page request) =
        subst (λ p. (request : ArtifactDiscoveryRequest) → IsLast (answer p request))
          (page_zero page) last in
      let (result, e) =
        last_round-returns contexts collected (answer page (discovery_request plan cursor))
          (here (discovery_request plan cursor)) in
      (
        result,
        ap
            (λ r. follow r (λ next collected'.
              discover_pages answer 0 contexts plan (page + 1) (some next) collected'))
            e,
      )
  discover_pages-ends (suc n) contexts plan page cursor collected last =
      let later : (request : ArtifactDiscoveryRequest) → IsLast (answer (page + 1 + n) request) =
        subst (λ p. (request : ArtifactDiscoveryRequest) → IsLast (answer p request))
          (page_suc page n) last in
      follow-ends _ _ (λ next collected'.
        discover_pages-ends n contexts plan (page + 1) (some next) collected' later)

  -- The function ends, whatever the handshake gives: if the worker asks for no page behind page `n`,
  -- then `n + 1` rounds are enough for a catalog or an error.
  pub catalog_ends :
      (n : ℕ) (shaken : Supervisor.Result HandshakeResponse) (manifest : ProjectManifest)
      (plan : OpaqueExecutionPlan)
      → ((request : ArtifactDiscoveryRequest) → IsLast (answer n request))
      → (result : Result DependencyCatalog) × (discover_dependency_catalog answer
            (suc n)
            shaken
            manifest
            plan
          ≡ some result)
  unfolding discover_dependency_catalog
  catalog_ends n (Supervisor.err e) manifest plan last = (err (worker e), refl)
  catalog_ends n (Supervisor.ok shaken) manifest plan last =
      let first : (request : ArtifactDiscoveryRequest) → IsLast (answer (0 + n) request) =
        subst (λ p. (request : ArtifactDiscoveryRequest) → IsLast (answer p request)) (from_zero n)
          last in
      discover_pages-ends n (expected_contexts manifest) plan 0 none _ first
