-- ===== src/Freshness/Dependents.antt =====
-- `api_dependent_invalidations`
use kide.Base.{◌≡◌, not, ◌&&◌, List, Option, arith, text_eq, text_ord, option_eq, ◌==◌}
use kide.Base.{Ascends, member, dedup-sort-Ascends, member-dedup-sort}
use kide.Canonical.{SourceUnitId, Fingerprint}
use kide.Freshness.{api_dependent_invalidations}

-- The result ascends strictly, so it names no unit twice. It names the given dependents if the
-- fingerprint of the public API changed, and nothing if it did not.
pub api_dependent_invalidations_lem :
    (previous current : Option Fingerprint) (dependents : List SourceUnitId)
    → Ascends (api_dependent_invalidations previous current dependents)
      × ((id : SourceUnitId)
          → member id (api_dependent_invalidations previous current dependents)
            ≡ (not (previous == current) && member id dependents))
unfolding api_dependent_invalidations
api_dependent_invalidations_lem previous current dependents = (
  ground (arith, dedup-sort-Ascends dependents),
  λ id. ground (arith, member-dedup-sort id dependents),
)
