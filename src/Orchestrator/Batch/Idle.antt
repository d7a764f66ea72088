-- ===== src/Orchestrator/Batch/Idle.antt =====
-- When the loop over the planned actions leaves nothing to ask a worker for.
use kide.Base.{◌≡◌, refl, ◌↔◌, List, [], ◌∷◌, false, any, arith}
use kide.Freshness.{IndexAction, reuse, reanalyze, remove}
use kide.IncrementalPlan.{IncrementalIndexPlan, is_reanalyze, requires_source_worker}
use kide.Orchestrator.Batch.{to_reanalyze}

idle-nil :
    (actions : List IndexAction) → any is_reanalyze actions ≡ false → to_reanalyze actions ≡ []
unfolding to_reanalyze
idle-nil [] h = refl
idle-nil (reuse unit ∷ actions) h = idle-nil actions h
idle-nil (reanalyze unit reason ∷ actions) h = ground (arith, h)
idle-nil (remove id ∷ actions) h = idle-nil actions h

nil-idle :
    (actions : List IndexAction) → to_reanalyze actions ≡ [] → any is_reanalyze actions ≡ false
unfolding to_reanalyze
nil-idle [] h = refl
nil-idle (reuse unit ∷ actions) h = nil-idle actions h
nil-idle (reanalyze unit reason ∷ actions) h = ground (arith, h)
nil-idle (remove id ∷ actions) h = nil-idle actions h

-- The orchestrator has no unit to analyze exactly if the plan requires no source worker.
pub to_reanalyze_iff :
    (plan : IncrementalIndexPlan)
    → (requires_source_worker plan ≡ false) ↔ (to_reanalyze plan.sources ≡ [])
unfolding requires_source_worker
to_reanalyze_iff plan = (idle-nil plan.sources, nil-idle plan.sources)
