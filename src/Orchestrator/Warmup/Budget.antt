-- ===== src/Orchestrator/Warmup/Budget.antt =====
-- What a warmup spends, and what it leaves in the cache.
use kide.Base.{ℕ, suc, ◌-◌, ◌≡◌, refl, ◌⊎◌, inl, inr, List, Option, none, some, Bool, true, false}
use kide.Base.{ap, ◌∙◌, ◌++◌, utf8}
use kide.Base.{arith, Text, eqb, Bool-cases}
use kide.Base.Results.{Result, ok, err, Result-cases}
use kide.Canonical.{WorkspacePath, SourceUnitId}
use kide.DependencyIdentity.{ArtifactDescriptor, ArtifactBlobKey, for_descriptor}
use kide.Supervisor.{WorkerLaunch, Surroundings}
use kide.ArtifactCache.{Directory}
use kide.ArtifactCache.Access.{open_blob_with}
use kide.Orchestrator.Digests.{Failure}
use kide.Orchestrator.Materialization.{Places, MaterializationMetrics, materialize_artifact}
use kide.Orchestrator.Warmup.{
  Accesses, Catalog, Warmup, record_blob, measure_blob, behind_materialization, warm_descriptor,
  warm_found, cache_catalog_artifact_with_metrics,
}

module _ (catalog : Catalog) where
  open catalog use {artifact_descriptor}

  -- One artifact of the budget is spent, or the budget and the worker are as before.
  abbrev pub IsPaid : Warmup catalog → Warmup catalog → Type 0
  IsPaid before after =
      (suc after.remaining_artifacts ≡ before.remaining_artifacts)
      ⊎ ((after.remaining_artifacts ≡ before.remaining_artifacts)
          × (after.places.supervisor ≡ before.places.supervisor))

  record_blob_budget :
      (r : Result catalog.Store Failure) (metrics : MaterializationMetrics) (w : Warmup catalog)
      → (record_blob catalog r metrics w).1.remaining_artifacts ≡ w.remaining_artifacts
  unfolding record_blob
  record_blob_budget (ok store) metrics w = refl
  record_blob_budget (err failure) metrics w = refl

  behind_materialization_budget :
      (digest : ArtifactBlobKey → List ℕ) (accesses : Accesses)
      (r : Result MaterializationMetrics Failure × Places) (descriptor : ArtifactDescriptor)
      (w : Warmup catalog)
      → (behind_materialization catalog digest accesses r descriptor w).1.remaining_artifacts
        ≡ w.remaining_artifacts
  unfolding behind_materialization measure_blob
  behind_materialization_budget digest accesses (err failure, places) descriptor w = refl
  behind_materialization_budget digest accesses (ok metrics, places) descriptor w =
      elim (Result-cases
        (open_blob_with digest accesses.measuring places.cache (for_descriptor descriptor))) [
          | inl (none, opened) ↦ rw opened refl
          | inl (some blob, opened) ↦ rw opened (record_blob_budget _ metrics _)
          | inr (e, refused) ↦ rw refused refl
        ]

  module _ (digest : ArtifactBlobKey → List ℕ) (accesses : Accesses) (process_id : ℕ)
      (sha256 : List ℕ → List ℕ) (launch : WorkerLaunch) (world : Surroundings) (staged : Directory)
      (workspace_root : WorkspacePath) (locator : Option Text) (staging_directory : Text)
      (unit : SourceUnitId) where
    warm_descriptor-IsPaid :
        (cached : Result Bool Failure × Directory) (descriptor : ArtifactDescriptor)
        (w : Warmup catalog)
        → IsPaid w
            (warm_descriptor catalog digest accesses process_id sha256 launch world staged cached
              workspace_root descriptor locator staging_directory unit w).1
    unfolding warm_descriptor
    warm_descriptor-IsPaid (err failure, cache) descriptor w = inr (refl, refl)
    warm_descriptor-IsPaid (ok true, cache) descriptor w = inr (refl, refl)
    warm_descriptor-IsPaid (ok false, cache) descriptor w =
        elim (Bool-cases (eqb w.remaining_artifacts 0)) [
          | inl spent ↦ rw spent (inr (refl, refl))
          | inr more ↦
              let one : suc (w.remaining_artifacts - 1) ≡ w.remaining_artifacts = ground arith in
              let paid : Warmup catalog = record w {
                remaining_artifacts = w.remaining_artifacts - 1;
              } in
              let made =
                materialize_artifact digest process_id sha256 launch world staged
                  accesses.checking_again workspace_root descriptor locator staging_directory
                  (utf8 "cache-materialize-" ++ unit) (record w.places { cache = cache }) in
              rw more (
                inl (
                  ap suc (behind_materialization_budget digest accesses made descriptor paid)
                  ∙ one))
        ]

    -- A warmup spends one artifact of the budget, or it leaves the budget and the supervisor of the
    -- worker as they are; the budget is never exceeded.
    pub cache_catalog_artifact-IsPaid :
        (w : Warmup catalog)
        → IsPaid w
            (cache_catalog_artifact_with_metrics catalog digest accesses process_id sha256 launch
              world staged workspace_root locator staging_directory unit w).1
    unfolding cache_catalog_artifact_with_metrics warm_found
    cache_catalog_artifact-IsPaid w = elim (Result-cases (artifact_descriptor w.store unit)) [
      | inl (none, found) ↦ rw found (inr (refl, refl))
      | inl (some descriptor, found) ↦ rw found (warm_descriptor-IsPaid _ descriptor w)
      | inr (failure, found) ↦ rw found (inr (refl, refl))
    ]
