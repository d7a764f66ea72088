-- ===== src/Freshness.antt =====
-- crates/kide-core/src/freshness.rs: which persisted snapshots may be reused. The planners compare
-- fingerprints only.
pub mod Units
pub mod Inputs
pub mod Dependents
use kide.Base.{ℕ, Text, text_eq, text_ord, nat_eq, option_eq, List, [], ◌∷◌, Option, none, some}
use kide.Base.{Bool, true, false, not, ◌||◌, ◌==◌, if◌then◌else◌, sort, dedup}
use kide.Canonical.{SourceUnit, SourceUnitId, Fingerprint, Provenance}
use kide.TreeMap.{TreeMap}
use kide.TreeMap.Diff.{index_by, diff}

pub data InvalidationReason : Type 0 where
  content_changed context_changed backend_changed : InvalidationReason
  analysis_options_changed public_api_changed : InvalidationReason

pub data IndexAction : Type 0 where
  reuse : SourceUnit → IndexAction
  reanalyze : SourceUnit → InvalidationReason → IndexAction
  remove : SourceUnitId → IndexAction

pub record AnalysisInput : Type 0 where
  pub source_unit : SourceUnit
  pub provenance : Provenance
  pub public_api_fingerprint : Option Fingerprint

-- One round of the first loop of `plan_invalidation`.
unfoldable pub unit_action : SourceUnitId → SourceUnit → Option SourceUnit → IndexAction
unit_action id unit none = reanalyze unit content_changed
unit_action id unit (some previous) =
    if not (previous.context == unit.context)
    then reanalyze unit context_changed
    else if not (previous.content == unit.content)
    then reanalyze unit content_changed
    else reuse unit

unfoldable pub remove_unit : SourceUnitId → SourceUnit → IndexAction
remove_unit id unit = remove id

abbrev pub unit_id : SourceUnit → SourceUnitId
unit_id unit = unit.id

unfoldable pub plan_invalidation : List SourceUnit → List SourceUnit → List IndexAction
unfolding index_by diff unit_action remove_unit
plan_invalidation current persisted =
    diff unit_action remove_unit (index_by unit_id current) (index_by unit_id persisted)

-- The `match` of `plan_analysis_invalidation`: why an input needs a new snapshot, if it does.
unfoldable pub invalidation_reason :
    AnalysisInput → Option AnalysisInput → Option InvalidationReason
invalidation_reason input none = some content_changed
invalidation_reason input (some previous) =
    if not (previous.source_unit.context == input.source_unit.context)
    then some context_changed
    else if not (previous.source_unit.content == input.source_unit.content)
    then some content_changed
    else if not (previous.provenance.backend == input.provenance.backend)
        || not (previous.provenance.backend_version == input.provenance.backend_version)
        || not (previous.provenance.protocol_version == input.provenance.protocol_version)
    then some backend_changed
    else if not (previous.provenance.analysis_options == input.provenance.analysis_options)
    then some analysis_options_changed
    else none

unfoldable pub input_action : SourceUnitId → AnalysisInput → Option AnalysisInput → IndexAction
unfolding invalidation_reason
input_action id input previous = elim (invalidation_reason input previous) [
  | some reason ↦ reanalyze input.source_unit reason
  | none ↦ reuse input.source_unit
]

unfoldable pub remove_input : SourceUnitId → AnalysisInput → IndexAction
remove_input id input = remove id

abbrev pub input_id : AnalysisInput → SourceUnitId
input_id input = input.source_unit.id

unfoldable pub plan_analysis_invalidation :
    List AnalysisInput → List AnalysisInput → List IndexAction
unfolding index_by diff input_action remove_input
plan_analysis_invalidation current persisted =
    diff input_action remove_input (index_by input_id current) (index_by input_id persisted)

unfoldable pub api_dependent_invalidations :
    Option Fingerprint → Option Fingerprint → List SourceUnitId → List SourceUnitId
unfolding option_eq
api_dependent_invalidations previous_api current_api dependents =
    if previous_api == current_api then [] else dedup (sort dependents)
