-- ===== src/IncrementalPlan/Sources.antt =====
-- When the plan starts a source worker.
use kide.Base.{◌≡◌, refl, Bool, false, List, [], ◌∷◌, Option, none, some}
use kide.Base.{arith, text_ord, any, Option-cases, inl, inr}
use kide.Canonical.{SourceUnit, SourceUnitId}
use kide.DependencyIdentity.{ArtifactDescriptor, ArtifactBlobKey}
use kide.Freshness.{IndexAction, unit_id, unit_action, remove_unit}
use kide.Freshness.{plan_invalidation}
use kide.Freshness.Units.{action_id, SameInputs, plan_invalidation_at, reuse_iff}
use kide.TreeMap.Diff.{last_by}
use kide.TreeMap.Diff.Exactly.{same, actions_at, expected_at}
use kide.IncrementalPlan.{ManifestAction, is_reanalyze, requires_source_worker}
use kide.IncrementalPlan.{plan_incremental_index}

any_at :
    (q : SourceUnitId) (actions : List IndexAction)
    → any is_reanalyze actions ≡ false
    → any is_reanalyze (actions_at action_id q actions) ≡ false
any_at q [] h = refl
any_at q (a ∷ actions) h = ground (arith, any_at q actions)

any_everywhere :
    (actions : List IndexAction)
    → ((q : SourceUnitId) → any is_reanalyze (actions_at action_id q actions) ≡ false)
    → any is_reanalyze actions ≡ false
any_everywhere [] h = refl
any_everywhere (a ∷ actions) h = ground (
  arith,
  h (action_id a),
  text_ord.cmp_same (action_id a),
  any_everywhere actions (λ q. ground (arith, h q)),
)

expected_idle :
    (q : SourceUnitId) (unit : SourceUnit) (p : Option SourceUnit)
    → any is_reanalyze (expected_at unit_action remove_unit q (some unit) p) ≡ false
    → (previous : SourceUnit) × (p ≡ some previous) × SameInputs previous unit
unfolding unit_action
expected_idle q unit none h = cc
expected_idle q unit (some previous) h =
    (previous, refl, record { content = ground arith; context = ground arith })

absent_idle :
    (q : SourceUnitId) (p : Option SourceUnit)
    → any is_reanalyze (expected_at unit_action remove_unit q none p) ≡ false
unfolding remove_unit
absent_idle q none = refl
absent_idle q (some previous) = refl

module _ (available : ArtifactBlobKey → Bool) (manifest : ManifestAction)
    (current persisted : List SourceUnit) (dependencies cached : List ArtifactDescriptor) where
  -- If the plan starts no source worker, every current unit is persisted with the same content and
  -- context, whatever the dependencies are.
  pub no_worker_sound :
      (id : SourceUnitId) (unit : SourceUnit)
      → requires_source_worker
          (plan_incremental_index available manifest current persisted dependencies cached)
        ≡ false
      → last_by unit_id id current ≡ some unit
      → (previous : SourceUnit) × (last_by unit_id id persisted ≡ some previous)
        × SameInputs previous unit
  unfolding requires_source_worker plan_incremental_index
  no_worker_sound id unit idle c =
      expected_idle id unit _
        (rw (plan_invalidation_at, c) at (any_at id (plan_invalidation current persisted) idle))

  -- If every current unit is persisted with the same content and context, the plan starts no
  -- source worker, whatever the dependencies are.
  pub no_worker_complete :
      ((id : SourceUnitId) (unit : SourceUnit)
        → last_by unit_id id current ≡ some unit
        → (previous : SourceUnit) × (last_by unit_id id persisted ≡ some previous)
          × SameInputs previous unit)
      → requires_source_worker
          (plan_incremental_index available manifest current persisted dependencies cached)
        ≡ false
  unfolding requires_source_worker plan_incremental_index
  no_worker_complete h = any_everywhere (plan_invalidation current persisted) λ q.
      elim (Option-cases (last_by unit_id q current)) [
        | inl e ↦ rw (plan_invalidation_at, e) (absent_idle q (last_by unit_id q persisted))
        | inr (unit, e) ↦
            let (previous, p, same) = h q unit e in
            rw ((reuse_iff current persisted q unit).1 (e, (previous, p, same)))
      ]
