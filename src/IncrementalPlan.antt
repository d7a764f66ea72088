-- ===== src/IncrementalPlan.antt =====
-- crates/kide-core/src/incremental_plan.rs: the plan of one index generation. `blob_is_available`
-- is the caller's closure over the shared cache, taken as a test of the key.
pub mod Dependencies
pub mod Sources
use kide.Base.{
  Text, text_ord, List, [], ◌∷◌, Option, none, some, Bool, true, false, ◌&&◌, ◌==◌, any,
}
use kide.Base.{if◌then◌else◌, is_some}
use kide.Canonical.{SourceUnit, SourceUnitId}
use kide.DependencyIdentity.{ArtifactDescriptor, ArtifactBlobKey, resolved_identity, from_identity}
use kide.DependencyIdentity.{identity_eq}
use kide.Freshness.{IndexAction, reanalyze, AnalysisInput}
use kide.Freshness.{plan_invalidation, plan_analysis_invalidation}
use kide.TreeMap.Diff.{index_by, diff}

pub data ManifestAction : Type 0 where
  reuse resolve : ManifestAction

pub data DependencyAction : Type 0 where
  cache_hit : ArtifactDescriptor → DependencyAction
  cache_miss : ArtifactDescriptor → DependencyAction
  removed : ArtifactDescriptor → DependencyAction

pub record IncrementalIndexPlan : Type 0 where
  pub manifest : ManifestAction
  pub sources : List IndexAction
  pub dependencies : List DependencyAction

abbrev pub is_reanalyze : IndexAction → Bool
is_reanalyze (reanalyze unit reason) = true
is_reanalyze _ = false

unfoldable pub requires_source_worker : IncrementalIndexPlan → Bool
requires_source_worker plan = any is_reanalyze plan.sources

-- `filter_map` of the misses
unfoldable pub misses_of : List DependencyAction → List ArtifactDescriptor
misses_of [] = []
misses_of (cache_miss d ∷ actions) = d ∷ misses_of actions
misses_of (_ ∷ actions) = misses_of actions

unfoldable pub dependency_misses : IncrementalIndexPlan → List ArtifactDescriptor
unfolding misses_of
dependency_misses plan = misses_of plan.dependencies

abbrev pub descriptor_id : ArtifactDescriptor → SourceUnitId
descriptor_id d = d.source_unit.id

module _ (blob_is_available : ArtifactBlobKey → Bool) where
  -- One round of the first loop of `plan_with_source_actions`.
  unfoldable pub dependency_action :
      SourceUnitId → ArtifactDescriptor → Option ArtifactDescriptor → DependencyAction
  unfolding resolved_identity from_identity
  dependency_action id d none = cache_miss d
  dependency_action id d (some previous) =
      if (resolved_identity previous == resolved_identity d)
        && blob_is_available (from_identity (resolved_identity d))
      then cache_hit d
      else cache_miss d

unfoldable pub remove_descriptor : SourceUnitId → ArtifactDescriptor → DependencyAction
remove_descriptor id d = removed d

module _ (blob_is_available : ArtifactBlobKey → Bool) where
  unfoldable pub plan_with_source_actions :
      ManifestAction
      → List IndexAction
      → List ArtifactDescriptor
      → List ArtifactDescriptor
      → IncrementalIndexPlan
  unfolding index_by diff dependency_action remove_descriptor
  plan_with_source_actions manifest sources current_dependencies persisted_dependencies = record {
    manifest = manifest;
    sources = sources;
    dependencies =
        diff (dependency_action blob_is_available) remove_descriptor
          (index_by descriptor_id current_dependencies)
          (index_by descriptor_id persisted_dependencies);
  }

  unfoldable pub plan_incremental_index :
      ManifestAction
      → List SourceUnit
      → List SourceUnit
      → List ArtifactDescriptor
      → List ArtifactDescriptor
      → IncrementalIndexPlan
  unfolding plan_invalidation plan_with_source_actions
  plan_incremental_index manifest current_sources persisted_sources =
      plan_with_source_actions manifest (plan_invalidation current_sources persisted_sources)

  unfoldable pub plan_incremental_analysis_index :
      ManifestAction
      → List AnalysisInput
      → List AnalysisInput
      → List ArtifactDescriptor
      → List ArtifactDescriptor
      → IncrementalIndexPlan
  unfolding plan_analysis_invalidation plan_with_source_actions
  plan_incremental_analysis_index manifest current_sources persisted_sources =
      plan_with_source_actions manifest
        (plan_analysis_invalidation current_sources persisted_sources)
