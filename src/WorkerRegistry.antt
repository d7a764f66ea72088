-- ===== src/WorkerRegistry.antt =====
-- crates/kide-core/src/worker_registry.rs: which discovered worker gets which source units, and
-- what the workers offer of the queries that a package asks for. The launch of an installation is
-- not modelled, and discovery takes the handshakes as given.
pub mod Chunks
pub mod Selected
pub mod Served
pub mod Negotiated
use Prim.Native.Nat.Ordering.{lt, eq, gt}
use kide.Base.{
  ℕ, zero, suc, nat_eq, nat_ord, Text, utf8, text_eq, text_ord, Eq, Ord, pair_ord, List, [], ◌∷◌,
  ◌++◌, map,
}
use kide.Base.{
  Option, none, some, Bool, true, false, not, ◌==◌, ◌&&◌, ◌||◌, if◌then◌else◌, any, all,
}
use kide.Base.{contains, length, take, drop, sort, dedup}
use kide.Canonical.{Language, language_eq, BuildSystem, build_system_eq, filesystem, ComponentId}
use kide.Canonical.{kotlin, java, rust, type_script, other, Component, ProjectManifest, SourceUnit}
use kide.Protocol.{WorkerCapability, WorkerCapabilities, SemanticQueryCapability}
use kide.TreeMap.{TreeMap, get, insert, collect}

abbrev pub default_max_source_units_per_worker_batch : ℕ
default_max_source_units_per_worker_batch = 128

worker_capability_dec : Discrete WorkerCapability
worker_capability_dec = hlevel

instance unfoldable pub worker_capability_eq : Eq WorkerCapability
unfolding worker_capability_dec
worker_capability_eq = record { dec = worker_capability_dec }

pub record WorkerInstallation : Type 0 where
  pub name : Text
  pub build_systems : List BuildSystem

pub record DiscoveredWorker : Type 0 where
  pub installation : WorkerInstallation
  pub capabilities : WorkerCapabilities

pub record WorkerBatch : Type 0 where
  pub worker : DiscoveredWorker
  pub component : ComponentId
  pub language : Language
  pub source_units : List SourceUnit

pub record UnsupportedBatch : Type 0 where
  pub component : ComponentId
  pub language : Language
  pub build_system : BuildSystem
  pub source_units : List SourceUnit

pub record WorkerSelection : Type 0 where
  pub batches : List WorkerBatch
  pub unsupported : List UnsupportedBatch

-- `sort_by_key`, which is stable.
module _ {ℓ κ} {A : Type ℓ} {K : Type κ} ⦃o : Ord K⦄ (key : A → K) where
  unfoldable pub insert_by_key : A → List A → List A
  insert_by_key x [] = x ∷ []
  insert_by_key x (y ∷ ys) = elim (o.cmp (key x) (key y)) [
    | gt ↦ y ∷ insert_by_key x ys
    | _ ↦ x ∷ y ∷ ys
  ]

  unfoldable pub sort_by_key : List A → List A
  unfolding insert_by_key
  sort_by_key [] = []
  sort_by_key (x ∷ xs) = insert_by_key x (sort_by_key xs)

unfoldable pub language_key : Language → Text
language_key kotlin = utf8 "kotlin"
language_key java = utf8 "java"
language_key rust = utf8 "rust"
language_key type_script = utf8 "typescript"
language_key (other value) = utf8 "other:" ++ value

abbrev pub source_key : SourceUnit → Text × Text
source_key source = (source.component, source.path)

abbrev pub worker_name : DiscoveredWorker → Text
worker_name worker = worker.installation.name

unfoldable pub group_key : SourceUnit → Text × Text
unfolding language_key
group_key source = (source.component, language_key source.language)

abbrev pub Groups : Type 0
Groups = TreeMap (Text × Text) (List SourceUnit)

abbrev pub or_default : Option (List SourceUnit) → List SourceUnit
or_default none = []
or_default (some units) = units

-- `grouped.entry((component, language)).or_default().push(source)`
unfoldable pub push_source : SourceUnit → Groups → Groups
unfolding insert get group_key
push_source source groups =
    insert (group_key source) (or_default (get (group_key source) groups) ++ (source ∷ [])) groups

unfoldable pub group_sources : List SourceUnit → Groups → Groups
unfolding push_source
group_sources [] groups = groups
group_sources (source ∷ sources) groups = group_sources sources (push_source source groups)

-- `chunks(size)`: `fuel` bounds the number of chunks.
unfoldable pub chunks : ℕ → ℕ → List SourceUnit → List (List SourceUnit)
chunks zero size units = []
chunks (suc fuel) size [] = []
chunks (suc fuel) size (unit ∷ units) =
    take size (unit ∷ units) ∷ chunks fuel size (drop size (unit ∷ units))

-- The test of `workers.iter().find(…)`.
unfoldable pub serves : BuildSystem → Language → List WorkerCapability → DiscoveredWorker → Bool
serves build_system language required worker =
    contains worker.installation.build_systems build_system
    && contains worker.capabilities.languages language
    && all (contains worker.capabilities.capabilities) required

unfoldable pub find_worker :
    (DiscoveredWorker → Bool) → List DiscoveredWorker → Option DiscoveredWorker
find_worker test [] = none
find_worker test (worker ∷ workers) = if test worker then some worker else find_worker test workers

abbrev pub build_system_entry : Component → Text × BuildSystem
build_system_entry component = (component.id, component.build_system)

unfoldable pub build_system_of : TreeMap Text BuildSystem → ComponentId → BuildSystem
unfolding get
build_system_of components component = elim (get component components) [
  | some build_system ↦ build_system
  | none ↦ filesystem
]

abbrev pub batch_of : DiscoveredWorker → ComponentId → Language → List SourceUnit → WorkerBatch
batch_of worker component language chunk = record {
  worker = worker;
  component = component;
  language = language;
  source_units = chunk;
}

-- The `match worker` of one group.
unfoldable pub select_group :
    ℕ
    → BuildSystem
    → ComponentId
    → Language
    → List SourceUnit
    → Option DiscoveredWorker
    → WorkerSelection
    → WorkerSelection
unfolding chunks
select_group size build_system component language units (some worker) rest = record {
  batches =
      map (batch_of worker component language) (chunks (length units) size units) ++ rest.batches;
  unsupported = rest.unsupported;
}
select_group size build_system component language units none rest = record {
  batches = rest.batches;
  unsupported =
      record {
        component = component;
        language = language;
        build_system = build_system;
        source_units = units;
      }
      ∷ rest.unsupported;
}

module _ (components : TreeMap Text BuildSystem) (required : List WorkerCapability)
    (workers : List DiscoveredWorker) (size : ℕ) where
  -- The loop over the groups. `source_units[0]` of an empty group would panic; no group is empty,
  -- and the clause of one skips it.
  unfoldable pub select_groups : Groups → WorkerSelection
  unfolding select_group build_system_of serves find_worker
  select_groups [] = record { batches = []; unsupported = [] }
  select_groups ((key, []) ∷ groups) = select_groups groups
  select_groups ((key, first ∷ units) ∷ groups) =
      let build_system = build_system_of components first.component in
      select_group size build_system first.component first.language (first ∷ units)
        (find_worker (serves build_system first.language required) workers) (select_groups groups)

-- `size` is at least 1: the source asserts it.
unfoldable pub select_discovered_with_batch_limit :
    ProjectManifest
    → List SourceUnit
    → List WorkerCapability
    → List DiscoveredWorker
    → ℕ
    → WorkerSelection
unfolding sort_by_key group_sources select_groups collect
select_discovered_with_batch_limit manifest sources required workers size =
    select_groups (collect (map build_system_entry manifest.components)) required
      (sort_by_key worker_name workers) size (group_sources (sort_by_key source_key sources) [])

unfoldable pub select_discovered :
    ProjectManifest
    → List SourceUnit
    → List WorkerCapability
    → List DiscoveredWorker
    → WorkerSelection
unfolding select_discovered_with_batch_limit
select_discovered manifest sources required workers =
    select_discovered_with_batch_limit manifest sources required workers
      default_max_source_units_per_worker_batch
