-- ===== src/WorkerRegistry/Served.antt =====
-- Each batch goes to a worker that serves it, in chunks within the limit.
use kide.Base.{
  ◌∙◌, ap, inl, inr, Option-cases, contains, all, ℕ, ◌≤◌, ◌≡◌, refl, Text, text_ord, pair_ord, List,
  [], ◌∷◌, ◌++◌, map, Option, none, some, Bool, true, arith, length, All,
}
use kide.Canonical.{
  Component, filesystem, build_system_eq, language_eq, SourceUnit, ProjectManifest, BuildSystem,
  Language, ComponentId,
}
use kide.Protocol.{WorkerCapability}
use mathlib.Core.Option
use kide.TreeMap.{TreeMap, collect}
use kide.TreeMap.Diff.{last_by, get-collect-map}
use kide.WorkerRegistry.{
  worker_capability_eq, WorkerBatch, WorkerSelection, DiscoveredWorker, Groups, chunks, batch_of,
}
use kide.WorkerRegistry.{select_group, select_groups, build_system_of, serves, find_worker}
use kide.WorkerRegistry.{build_system_entry, source_key, worker_name, sort_by_key, group_sources}
use kide.WorkerRegistry.{select_discovered_with_batch_limit}
use kide.WorkerRegistry.Chunks.{Fits, chunks-Fits}

find_worker-serves :
    (test : DiscoveredWorker → Bool) (workers : List DiscoveredWorker) (w : DiscoveredWorker)
    → find_worker test workers ≡ some w
    → test w ≡ true
unfolding find_worker
find_worker-serves test [] w h = ground (arith, h)
find_worker-serves test (v ∷ workers) w h = ground (arith, h, find_worker-serves test workers w)

module _ {ℓ κ} {A : Type ℓ} (P : A → Type κ) where
  All-append : (xs ys : List A) → All P xs → All P ys → All P (xs ++ ys)
  All-append [] ys a b = b
  All-append (x ∷ xs) ys (p, a) b = (p, All-append xs ys a b)

abbrev pub component_id : Component → Text
component_id component = component.id

-- The build system of a component: that of the last one in the manifest with its id, and the file
-- system for an id that is not in the manifest.
pub data IsBuiltBy (manifest : ProjectManifest) (id : ComponentId) (build_system : BuildSystem)
    : Type 0 where
  listed :
      (component : Component)
      → last_by component_id id manifest.components ≡ some component
      → component.build_system ≡ build_system
      → IsBuiltBy manifest id build_system
  unlisted :
      last_by component_id id manifest.components ≡ none
      → build_system ≡ filesystem
      → IsBuiltBy manifest id build_system

-- The worker is installed for the build system of the batch's component, speaks the language of the
-- batch and has every required capability, and the batch is within the limit.
pub record IsServed (manifest : ProjectManifest) (required : List WorkerCapability) (size : ℕ)
    (batch : WorkerBatch) : Type 0 where
  pub build_system : BuildSystem
  pub built : IsBuiltBy manifest batch.component build_system
  pub installed : contains batch.worker.installation.build_systems build_system ≡ true
  pub language : contains batch.worker.capabilities.languages batch.language ≡ true
  pub capable :
      (capability : WorkerCapability)
      → contains required capability ≡ true
      → contains batch.worker.capabilities.capabilities capability ≡ true
  pub fits : Fits size batch.source_units

build_system_of-IsBuiltBy :
    (manifest : ProjectManifest) (id : ComponentId)
    → IsBuiltBy manifest id
        (build_system_of (collect (map build_system_entry manifest.components)) id)
unfolding build_system_of
build_system_of-IsBuiltBy manifest id =
    let last = last_by component_id id manifest.components in
    let same = get-collect-map component_id (λ c. c.build_system) id manifest.components in
    elim (Option-cases last) [
      | inl absent ↦
          rw (same ∙ ap (Option.map (λ c. c.build_system)) absent, build_system_of)
            (unlisted absent refl)
      | inr (component, found) ↦
          rw (same ∙ ap (Option.map (λ c. c.build_system)) found, build_system_of)
            (listed component found refl)
    ]

every_capability :
    (offered required : List WorkerCapability) (capability : WorkerCapability)
    → all (contains offered) required ≡ true
    → contains required capability ≡ true
    → contains offered capability ≡ true
every_capability offered [] capability every there = absurd cc
every_capability offered (c ∷ required) capability every there =
    ground (arith, every_capability offered required capability)

meets_needs :
    (manifest : ProjectManifest) (required : List WorkerCapability) (size : ℕ) (batch : WorkerBatch)
    → serves
        (build_system_of (collect (map build_system_entry manifest.components)) batch.component)
        batch.language
        required
        batch.worker
      ≡ true
    → Fits size batch.source_units
    → IsServed manifest required size batch
unfolding serves
meets_needs manifest required size batch good fits =
    let worker = batch.worker in
    let build_system =
      build_system_of (collect (map build_system_entry manifest.components)) batch.component in
    record {
      build_system = build_system;
      built = build_system_of-IsBuiltBy manifest batch.component;
      installed = ground arith;
      language = ground arith;
      capable = λ capability there.
          every_capability worker.capabilities.capabilities required capability (ground arith)
            there;
      fits = fits;
    }

module _ (manifest : ProjectManifest) (required : List WorkerCapability) (size : ℕ)
    (hs : 1 ≤ size) where
  abbrev components : TreeMap Text BuildSystem
  components = collect (map build_system_entry manifest.components)

  IsServed-chunks :
      (worker : DiscoveredWorker) (component : ComponentId) (language : Language)
      (xss : List (List SourceUnit))
      → serves (build_system_of components component) language required worker ≡ true
      → All (Fits size) xss
      → All (IsServed manifest required size) (map (batch_of worker component language) xss)
  IsServed-chunks worker component language [] h fits = tt
  IsServed-chunks worker component language (xs ∷ xss) h (f, fits) = (
    meets_needs manifest required size (batch_of worker component language xs) h f,
    IsServed-chunks worker component language xss h fits,
  )

  IsServed-select_group :
      (component : ComponentId) (language : Language) (units : List SourceUnit)
      (found : Option DiscoveredWorker) (workers : List DiscoveredWorker) (rest : WorkerSelection)
      → find_worker (serves (build_system_of components component) language required) workers
        ≡ found
      → All (IsServed manifest required size) rest.batches
      → All
          (IsServed manifest required size)
          (select_group size
            (build_system_of components component)
            component
            language
            units
            found
            rest).batches
  unfolding select_group
  IsServed-select_group component language units none workers rest h served = served
  IsServed-select_group component language units (some w) workers rest h served =
      All-append (IsServed manifest required size) _ rest.batches
        (IsServed-chunks w component language (chunks (length units) size units)
          (find_worker-serves _ workers w h) (chunks-Fits (length units) size units hs))
        served

  IsServed-select_groups :
      (workers : List DiscoveredWorker) (groups : Groups)
      → All
          (IsServed manifest required size)
          (select_groups components required workers size groups).batches
  unfolding select_groups
  IsServed-select_groups workers [] = tt
  IsServed-select_groups workers ((key, []) ∷ groups) = IsServed-select_groups workers groups
  IsServed-select_groups workers ((key, first ∷ units) ∷ groups) =
      IsServed-select_group first.component first.language (first ∷ units) _ workers
        (select_groups components required workers size groups) refl
        (IsServed-select_groups workers groups)

-- With a positive limit, each batch of a selection goes to a worker that is installed for the build
-- system of the batch's component, speaks its language and has every required capability, and the
-- batch has at least one unit and at most the limit. The build system is that of the last component
-- of the manifest with the batch's id, or the file system where there is none.
pub selection-IsServed :
    (manifest : ProjectManifest) (sources : List SourceUnit) (required : List WorkerCapability)
    (workers : List DiscoveredWorker) (size : ℕ)
    → 1 ≤ size
    → All
        (IsServed manifest required size)
        (select_discovered_with_batch_limit manifest sources required workers size).batches
unfolding select_discovered_with_batch_limit
selection-IsServed manifest sources required workers size hs =
    IsServed-select_groups manifest required size hs (sort_by_key worker_name workers)
      (group_sources (sort_by_key source_key sources) [])
