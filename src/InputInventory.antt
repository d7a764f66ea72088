-- ===== src/InputInventory.antt =====
-- crates/kide-core/src/input_inventory.rs: the configuration inputs of a workspace, their
-- fingerprints, and what changed since they were persisted. SHA-256 with its hexadecimal form is
-- the parameter `sha256_hex`. Recognising and reading files is not modelled.
pub mod Reconciled
pub mod Fingerprints
use mathlib.Core.Option
use kide.Base.{
  Text, utf8, text_eq, text_ord, Eq, ℕ, List, [], ◌∷◌, ◌++◌, map, Option, none, some, Bool, true,
  false, not,
}
use kide.Base.{◌==◌, ◌||◌, ◌>>=◌, if◌then◌else◌, sort, dedup, contains, retain}
use kide.Canonical.{WorkspacePath, Fingerprint, ComponentId, SourceUnitId, SourceUnit, WorkspaceId}
use kide.DependencyIdentity.{ArtifactDescriptor}
use kide.TreeMap.{TreeMap, get, keys}
use kide.TreeMap.Diff.{index_by}
use native.Mathlib.Decide.{ℕ_discrete}

pub record ConfigurationInput : Type 0 where
  pub path : WorkspacePath
  pub fingerprint : Fingerprint
  pub components : List ComponentId

pub record SourceSnapshotInput : Type 0 where
  pub id : SourceUnitId
  pub content : Fingerprint

pub record WorkspaceCheckpoint : Type 0 where
  pub workspace : WorkspaceId
  pub manifest : Fingerprint
  pub configuration_inputs : Fingerprint
  pub source_inputs : Fingerprint
  pub artifact_catalog : Fingerprint
  pub committed : Bool

pub data ConfigurationInputState : Type 0 where
  current added changed missing : ConfigurationInputState

pub record ConfigurationInputStatus : Type 0 where
  pub path : WorkspacePath
  pub state : ConfigurationInputState
  pub persisted_fingerprint : Option Fingerprint
  pub current_fingerprint : Option Fingerprint
  pub components : List ComponentId

pub record ConfigurationInputReconciliation : Type 0 where
  pub inputs : List ConfigurationInputStatus
  pub affected_components : List ComponentId

components_dec : Discrete (List ComponentId)
components_dec = hlevel ℕ_discrete

instance unfoldable pub components_eq : Eq (List ComponentId)
unfolding components_dec
components_eq = record { dec = components_dec }

-- `join` with one byte between the elements.
unfoldable pub join : ℕ → List Text → Text
join separator [] = []
join separator (x ∷ []) = x
join separator (x ∷ y ∷ xs) = x ++ separator ∷ join separator (y ∷ xs)

-- The `format!` lines: three fields with a zero byte between them.
abbrev pub fields : Text → Text → Text → Text
fields a b c = a ++ 0 ∷ b ++ 0 ∷ c

unfoldable pub configuration_entry : ConfigurationInput → Text
unfolding join
configuration_entry input = fields input.path input.fingerprint (join 44 input.components)

unfoldable pub source_entry : SourceUnit → Text
source_entry source = fields source.id source.content source.path

unfoldable pub artifact_entry : ArtifactDescriptor → Text
artifact_entry d = fields d.source_unit.id d.source_unit.content d.source_unit.context

-- The bytes that reach the digest in `fingerprint_entries`.
unfoldable pub entry_bytes : List Text → List ℕ
entry_bytes [] = []
entry_bytes (entry ∷ entries) = entry ++ 0 ∷ entry_bytes entries

unfoldable pub input_bytes : List ConfigurationInput → List ℕ
input_bytes [] = []
input_bytes (input ∷ inputs) = input.path ++ 0 ∷ input.fingerprint ++ 0 ∷ input_bytes inputs

-- `inputs.iter().filter(|input| input.components.contains(component))`
abbrev pub inputs_of : ComponentId → List ConfigurationInput → List ConfigurationInput
inputs_of component inputs = retain (λ input. contains input.components component) inputs

module _ (sha256_hex : List ℕ → Text) where
  unfoldable pub fingerprint_entries : List Text → Fingerprint
  unfolding entry_bytes
  fingerprint_entries entries = utf8 "sha256:" ++ sha256_hex (entry_bytes entries)

  unfoldable pub fingerprint_configuration_inputs : List ConfigurationInput → Fingerprint
  unfolding configuration_entry fingerprint_entries
  fingerprint_configuration_inputs inputs =
      fingerprint_entries (sort (map configuration_entry inputs))

  unfoldable pub fingerprint_source_inputs : List SourceUnit → Fingerprint
  unfolding source_entry fingerprint_entries
  fingerprint_source_inputs sources = fingerprint_entries (sort (map source_entry sources))

  unfoldable pub fingerprint_artifact_catalog : List ArtifactDescriptor → Fingerprint
  unfolding artifact_entry fingerprint_entries
  fingerprint_artifact_catalog descriptors =
      fingerprint_entries (sort (map artifact_entry descriptors))

  unfoldable pub component_context_fingerprint : ComponentId → List ConfigurationInput → Fingerprint
  unfolding input_bytes
  component_context_fingerprint component inputs =
      utf8 "sha256:" ++ sha256_hex (input_bytes (inputs_of component inputs))

abbrev pub input_path : ConfigurationInput → WorkspacePath
input_path input = input.path

-- One path of `reconcile_configuration_inputs`; `none` is its `unreachable!()`.
unfoldable pub input_status :
    WorkspacePath
    → Option ConfigurationInput
    → Option ConfigurationInput
    → Option ConfigurationInputStatus
input_status path none none = none
input_status path none (some next) = some record {
  path = path;
  state = added;
  persisted_fingerprint = none;
  current_fingerprint = some next.fingerprint;
  components = next.components;
}
input_status path (some previous) none = some record {
  path = path;
  state = missing;
  persisted_fingerprint = some previous.fingerprint;
  current_fingerprint = none;
  components = previous.components;
}
input_status path (some previous) (some next) = some record {
  path = path;
  state =
      if not (previous.fingerprint == next.fingerprint)
        || not (previous.components == next.components)
      then changed
      else current;
  persisted_fingerprint = some previous.fingerprint;
  current_fingerprint = some next.fingerprint;
  components = next.components;
}

unfoldable pub statuses :
    TreeMap WorkspacePath ConfigurationInput
    → TreeMap WorkspacePath ConfigurationInput
    → List WorkspacePath
    → Option (List ConfigurationInputStatus)
unfolding input_status get
statuses before after [] = some []
statuses before after (path ∷ paths) = do
  status ← input_status path (get path before) (get path after)
  rest ← statuses before after paths
  some (status ∷ rest)

abbrev pub is_current : ConfigurationInputState → Bool
is_current current = true
is_current _ = false

-- The components that the loop adds to `affected`, with repeats.
unfoldable pub affected_of : List ConfigurationInputStatus → List ComponentId
affected_of [] = []
affected_of (status ∷ rest) =
    let others = affected_of rest in
    if is_current status.state then others else status.components ++ others

-- The union of the keys: `persisted.keys().chain(current.keys()).collect::<BTreeSet<_>>()`.
abbrev pub paths_of :
    TreeMap WorkspacePath ConfigurationInput
    → TreeMap WorkspacePath ConfigurationInput
    → List WorkspacePath
paths_of before after = dedup (sort (keys before ++ keys after))

abbrev pub reconciliation : List ConfigurationInputStatus → ConfigurationInputReconciliation
reconciliation inputs = record {
  inputs = inputs;
  affected_components = dedup (sort (affected_of inputs));
}

unfoldable pub reconcile_configuration_inputs :
    List ConfigurationInput → List ConfigurationInput → Option ConfigurationInputReconciliation
unfolding index_by statuses affected_of
reconcile_configuration_inputs old new =
    let before = index_by input_path old in
    let after = index_by input_path new in
    Option.map reconciliation (statuses before after (paths_of before after))
