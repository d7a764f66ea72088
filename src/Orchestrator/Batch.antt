-- ===== src/Orchestrator/Batch.antt =====
-- The response to an analysis batch, from `validate_batch` to the list that is committed.
pub mod Exact
pub mod Idle
use kide.Base.{Text, text_eq, text_ord, List, [], ◌∷◌, map, Option, none, some, Bool, not, ◌==◌}
use kide.Base.{◌>>=◌, if◌then◌else◌, sort, dedup, member, retain}
use kide.Canonical.{SourceUnit, SourceUnitId, ProjectManifest}
use kide.Freshness.{unit_id, IndexAction, reuse, reanalyze, remove}
use kide.Protocol.{FileAnalysisSnapshot, OpaqueExecutionPlan}
use kide.Orchestrator.Errors.{Result, ok, err, unexpected_snapshot, missing_snapshot}
use kide.Orchestrator.Errors.{IndexOrchestratorError, execution_plan_manifest_mismatch}

abbrev pub snapshot_id : FileAnalysisSnapshot → SourceUnitId
snapshot_id snapshot = snapshot.source_unit.id

-- `collect::<BTreeSet<_>>()`: ascending, each element once
abbrev pub set_of : List Text → List Text
set_of xs = dedup (sort xs)

-- `left.difference(&right).next()`
abbrev pub first_beyond : List Text → List Text → Option Text
first_beyond [] right = none
first_beyond (x ∷ left) right =
    let rest = first_beyond left right in if member x right then rest else some x

-- The two early returns of `validate_batch`, the extra snapshot first.
unfoldable pub batch_result :
    Option Text → Option Text → List FileAnalysisSnapshot → Result (List FileAnalysisSnapshot)
batch_result (some extra) missing snapshots = err (unexpected_snapshot extra)
batch_result none (some missing) snapshots = err (missing_snapshot missing)
batch_result none none snapshots = ok snapshots

unfoldable pub validate_batch :
    List SourceUnit → List FileAnalysisSnapshot → Result (List FileAnalysisSnapshot)
unfolding batch_result
validate_batch requested snapshots =
    let expected = set_of (map unit_id requested) in
    let received = set_of (map snapshot_id snapshots) in
    batch_result (first_beyond received expected) (first_beyond expected received) snapshots

-- `none` is `Ok(())`.
unfoldable pub validate_execution_plan :
    ProjectManifest → OpaqueExecutionPlan → Option IndexOrchestratorError
validate_execution_plan manifest plan =
    if not (plan.resolved_fingerprint == manifest.fingerprint)
    then some (
        execution_plan_manifest_mismatch plan.backend plan.resolved_fingerprint
          manifest.fingerprint)
    else none

-- `snapshots.iter().find(|snapshot| snapshot.source_unit.id == expected.id)`
unfoldable pub find_snapshot :
    SourceUnitId → List FileAnalysisSnapshot → Option FileAnalysisSnapshot
find_snapshot id [] = none
find_snapshot id (snapshot ∷ snapshots) =
    let rest = find_snapshot id snapshots in
    if snapshot.source_unit.id == id then some snapshot else rest

-- The entries of the loop `for expected in &reanalyze`; `none` is the panic of its `expect`.
unfoldable pub commit_entries :
    List SourceUnit → List FileAnalysisSnapshot → Option (List (SourceUnit × FileAnalysisSnapshot))
unfolding find_snapshot
commit_entries [] snapshots = some []
commit_entries (expected ∷ units) snapshots = do
  snapshot ← find_snapshot expected.id snapshots
  entries ← commit_entries units snapshots
  some ((expected, snapshot) ∷ entries)

-- What the loop `for action in actions` collects: the units to analyze, and the ids to remove.
unfoldable pub to_reanalyze : List IndexAction → List SourceUnit
to_reanalyze [] = []
to_reanalyze (reanalyze unit reason ∷ actions) = unit ∷ to_reanalyze actions
to_reanalyze (_ ∷ actions) = to_reanalyze actions

unfoldable pub to_remove : List IndexAction → List SourceUnitId
to_remove [] = []
to_remove (remove id ∷ actions) = id ∷ to_remove actions
to_remove (_ ∷ actions) = to_remove actions
