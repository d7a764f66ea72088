-- ===== src/Orchestrator/Catalog/Contexts.antt =====
-- What a dependency catalog that is returned holds.
use Prim.Native.Nat.Ordering.{lt, eq, gt}
use kide.Base.{
  ℕ, zero, suc, ◌+◌, ◌≡◌, refl, sym, ap, ◌∙◌, inl, inr, subst, Text, text_eq, text_ord, List, [],
  ◌∷◌,
}
use kide.Base.{Option, none, some, arith, All, Ord, Option-cases}
use mathlib.Core.Option
use kide.Supervisor
use kide.TreeMap.Diff.{last_by, get-collect-map}
use kide.Canonical.{Component, Fingerprint, ProjectManifest}
use kide.DependencyIdentity.{ArtifactDescriptor}
use kide.Protocol.{OpaqueExecutionPlan, ArtifactDiscoveryRequest, WorkerMessage}
use kide.Protocol.{ArtifactDiscoveryResponse, artifact_discovery_response, HandshakeResponse}
use kide.TreeMap.{TreeMap, get, insert, values}
use kide.Orchestrator.Errors.{Result, ok, err}
use kide.Orchestrator.Catalog.{DependencyCatalog, expected_contexts, check_descriptor}
use kide.Orchestrator.Catalog.{add_descriptors, Collected, Round, return, next_page, after_page}
use kide.Orchestrator.Catalog.{
  page_round, follow, take_page, discovery_round, discovery_request, discover_pages,
}
use kide.Orchestrator.Catalog.{discover_dependency_catalog}

module _ {ℓ κ μ} {K : Type ℓ} {V : Type κ} ⦃o : Ord K⦄ (P : V → Type μ) where
  All-values-insert :
      (q : K) (w : V) (m : TreeMap K V) → P w → All P (values m) → All P (values (insert q w m))
  unfolding insert
  All-values-insert q w [] p ps = (p, tt)
  All-values-insert q w ((k, v) ∷ m) p (pv, ps) =
      elim (o.cmp q k)
        as (λ c. All P (
          values
            (elim c [ lt ↦ (q, w) ∷ (k, v) ∷ m | eq ↦ (k, w) ∷ m | gt ↦ (k, v) ∷ insert q w m ]))) [
              | lt ↦ (p, (pv, ps))
              | eq ↦ (p, ps)
              | gt ↦ (pv, All-values-insert q w m p ps)
            ]

-- The descriptor stands in the resolved context of its component.
abbrev pub IsResolved : TreeMap Text Fingerprint → ArtifactDescriptor → Type 0
IsResolved contexts d = get d.source_unit.component contexts ≡ some d.source_unit.context

abbrev pub component_id : Component → Text
component_id component = component.id

-- The descriptor belongs to a component of the manifest, the last one with its id, and stands in
-- that component's resolved configuration.
pub record IsConfigured (manifest : ProjectManifest) (d : ArtifactDescriptor) : Type 0 where
  pub owner : Component
  pub listed : last_by component_id d.source_unit.component manifest.components ≡ some owner
  pub context : owner.configuration ≡ d.source_unit.context

configured :
    (manifest : ProjectManifest) (d : ArtifactDescriptor)
    → IsResolved (expected_contexts manifest) d
    → IsConfigured manifest d
unfolding expected_contexts
configured manifest d resolved =
    let last = last_by component_id d.source_unit.component manifest.components in
    let same : some d.source_unit.context ≡ Option.map (λ c. c.configuration) last =
      sym resolved
      ∙ get-collect-map component_id (λ c. c.configuration) d.source_unit.component
          manifest.components in
    elim (Option-cases last) [
      | inl absent ↦
          let clash : some d.source_unit.context ≡ none =
            same ∙ ap (Option.map (λ c. c.configuration)) absent in
          absurd cc
      | inr (owner, listed) ↦
          let found : some d.source_unit.context ≡ some owner.configuration =
            same ∙ ap (Option.map (λ c. c.configuration)) listed in
          record { owner = owner; listed = listed; context = cc }
    ]

every_owner :
    (manifest : ProjectManifest) (ds : List ArtifactDescriptor)
    → All (IsResolved (expected_contexts manifest)) ds
    → All (IsConfigured manifest) ds
every_owner manifest [] resolved = tt
every_owner manifest (d ∷ ds) (first, rest) =
    (configured manifest d first, every_owner manifest ds rest)

check_descriptor-IsResolved :
    (contexts : TreeMap Text Fingerprint) (d : ArtifactDescriptor)
    → check_descriptor contexts d ≡ none
    → IsResolved contexts d
unfolding check_descriptor
check_descriptor-IsResolved contexts d h = ground arith

abbrev pub AllResolved : TreeMap Text Fingerprint → TreeMap Text ArtifactDescriptor → Type 0
AllResolved contexts m = All (IsResolved contexts) (values m)

add_descriptors-AllResolved :
    (contexts : TreeMap Text Fingerprint) (m : TreeMap Text ArtifactDescriptor)
    (artifacts : List ArtifactDescriptor) (m' : TreeMap Text ArtifactDescriptor)
    → AllResolved contexts m
    → add_descriptors contexts m artifacts ≡ ok m'
    → AllResolved contexts m'
unfolding add_descriptors
add_descriptors-AllResolved contexts m [] m' s h =
    let same : m ≡ m' = ground (arith, h) in subst (AllResolved contexts) same s
add_descriptors-AllResolved contexts m (d ∷ artifacts) m' s h =
    elim (Option-cases (check_descriptor contexts d)) [
      | inl e ↦
          add_descriptors-AllResolved contexts (insert d.source_unit.id d m) artifacts m'
            (All-values-insert (IsResolved contexts) d.source_unit.id d m
              (check_descriptor-IsResolved contexts d e) s)
            (ground (arith, e, h))
      | inr (error, e) ↦ ground (arith, e, h)
    ]

-- A round keeps what is collected resolved, and returns no catalog that is not.
abbrev pub KeepsResolved : TreeMap Text Fingerprint → Round → Type 0
KeepsResolved contexts (return (ok catalog)) = All (IsResolved contexts) catalog.descriptors
KeepsResolved contexts (return (err error)) = Unit
KeepsResolved contexts (next_page next collected) = AllResolved contexts collected.descriptors

after_page-KeepsResolved :
    (contexts : TreeMap Text Fingerprint) (next : Option Text) (collected : Collected)
    → AllResolved contexts collected.descriptors
    → KeepsResolved contexts (after_page next collected)
unfolding after_page
after_page-KeepsResolved contexts none collected s = s
after_page-KeepsResolved contexts (some next) collected s = s

page_round-KeepsResolved :
    (contexts : TreeMap Text Fingerprint) (collected : Collected)
    (response : ArtifactDiscoveryResponse) (added : Result (TreeMap Text ArtifactDescriptor))
    → add_descriptors contexts collected.descriptors response.artifacts ≡ added
    → AllResolved contexts collected.descriptors
    → KeepsResolved contexts (page_round added collected response)
unfolding page_round
page_round-KeepsResolved contexts collected response (err error) e s = tt
page_round-KeepsResolved contexts collected response (ok m) e s =
    after_page-KeepsResolved contexts response.next_cursor _
      (add_descriptors-AllResolved contexts collected.descriptors response.artifacts m s e)

take_page-KeepsResolved :
    (contexts : TreeMap Text Fingerprint) (collected : Collected)
    (response : ArtifactDiscoveryResponse)
    → AllResolved contexts collected.descriptors
    → KeepsResolved contexts (take_page contexts collected response)
unfolding take_page
take_page-KeepsResolved contexts collected response s =
    page_round-KeepsResolved contexts collected response _ refl s

discovery_round-KeepsResolved :
    (contexts : TreeMap Text Fingerprint) (collected : Collected) (message : Result WorkerMessage)
    → AllResolved contexts collected.descriptors
    → KeepsResolved contexts (discovery_round contexts collected message)
unfolding discovery_round
discovery_round-KeepsResolved contexts collected (err error) s = tt
discovery_round-KeepsResolved contexts collected (ok (artifact_discovery_response response)) s =
    take_page-KeepsResolved contexts collected response s
discovery_round-KeepsResolved contexts collected (ok _) s = tt

module _ (contexts : TreeMap Text Fingerprint) (catalog : DependencyCatalog) where
  follow-IsResolved :
      (r : Round) (rest : Text → Collected → Option (Result DependencyCatalog))
      → KeepsResolved contexts r
      → ((next : Text) (collected : Collected)
          → AllResolved contexts collected.descriptors
          → rest next collected ≡ some (ok catalog)
          → All (IsResolved contexts) catalog.descriptors)
      → follow r rest ≡ some (ok catalog)
      → All (IsResolved contexts) catalog.descriptors
  follow-IsResolved (return (ok c)) rest s later h =
      let same : c ≡ catalog = ground (arith, h) in
      subst (λ c. All (IsResolved contexts) c.descriptors) same s
  follow-IsResolved (return (err error)) rest s later h = ground (arith, h)
  follow-IsResolved (next_page next collected) rest s later h = later next collected s h

module _ (answer : ℕ → ArtifactDiscoveryRequest → Result WorkerMessage) where
  discover_pages-IsResolved :
      (fuel : ℕ) (contexts : TreeMap Text Fingerprint) (plan : OpaqueExecutionPlan) (page : ℕ)
      (cursor : Option Text) (collected : Collected) (catalog : DependencyCatalog)
      → AllResolved contexts collected.descriptors
      → discover_pages answer fuel contexts plan page cursor collected ≡ some (ok catalog)
      → All (IsResolved contexts) catalog.descriptors
  unfolding discover_pages
  discover_pages-IsResolved zero contexts plan page cursor collected catalog s h = ground (arith, h)
  discover_pages-IsResolved (suc fuel) contexts plan page cursor collected catalog s h =
      follow-IsResolved contexts catalog _ _
        (discovery_round-KeepsResolved contexts collected
          (answer page (discovery_request plan cursor)) s)
        (λ next collected' s' h'.
          discover_pages-IsResolved fuel contexts plan (page + 1) (some next) collected' catalog s'
            h')
        h

  -- Every descriptor of a catalog that is returned belongs to a component of the manifest, the last
  -- one with that id, and its context is that component's resolved configuration.
  pub catalog-IsConfigured :
      (fuel : ℕ) (shaken : Supervisor.Result HandshakeResponse) (manifest : ProjectManifest)
      (plan : OpaqueExecutionPlan) (catalog : DependencyCatalog)
      → discover_dependency_catalog answer fuel shaken manifest plan ≡ some (ok catalog)
      → All (IsConfigured manifest) catalog.descriptors
  unfolding discover_dependency_catalog
  catalog-IsConfigured fuel (Supervisor.err e) manifest plan catalog h = absurd cc
  catalog-IsConfigured fuel (Supervisor.ok shaken) manifest plan catalog h =
      every_owner manifest catalog.descriptors
        (discover_pages-IsResolved fuel (expected_contexts manifest) plan 0 none _ catalog tt h)
