-- ===== src/Orchestrator/Warmup/Opened.antt =====
-- A warmup that reports the artifact as cached leaves a blob that opens.
use kide.Base.{ℕ, ◌-◌, ◌≡◌, ◌≢◌, inl, inr, List, Option, none, some, Bool, true, false}
use kide.Base.{◌++◌, utf8}
use kide.Base.{arith, Text, eqb, Bool-cases}
use kide.Base.Results.{Result, ok, err, Result-cases}
use kide.Canonical.{WorkspacePath, SourceUnitId}
use kide.DependencyIdentity.{ArtifactDescriptor, ArtifactBlobKey, for_descriptor}
use kide.Supervisor.{WorkerLaunch, Surroundings}
use kide.ArtifactCache.{Directory, ArtifactBlob, open_blob}
use kide.ArtifactCache.Access.{open_blob_with}
use kide.ArtifactCache.Access.Refusals.{open_blob_with_ok}
use kide.Orchestrator.Digests.{Failure}
use kide.Orchestrator.Materialization.{Places, MaterializationMetrics, materialize_artifact}
use kide.Orchestrator.Materialization.Hits.{
  Checked, hit, miss, refused, cache_hit_or_remove_invalid-Checked,
}
use kide.Orchestrator.Warmup.{
  Accesses, Catalog, Warmup, MaterializationOutcome, budget_exhausted, not_cataloged, record_blob,
  measure_blob, behind_materialization, warm_descriptor, warm_found,
  cache_catalog_artifact_with_metrics,
}

module _ (catalog : Catalog) where
  open catalog use {artifact_descriptor}

  module _ (digest : ArtifactBlobKey → List ℕ) (accesses : Accesses) where
    -- The blob that a finished materialization leaves.
    behind_materialization-opens :
        (r : Result MaterializationMetrics Failure × Places) (descriptor : ArtifactDescriptor)
        (w : Warmup catalog) {outcome : MaterializationOutcome × Option MaterializationMetrics}
        → (behind_materialization catalog digest accesses r descriptor w).0 ≡ ok outcome
        → (blob : ArtifactBlob) × (open_blob digest
              (behind_materialization catalog digest accesses r descriptor w).1.places.cache
              (for_descriptor descriptor)
            ≡ ok (some blob))
    unfolding behind_materialization measure_blob
    behind_materialization-opens (err failure, places) descriptor w h = ground arith
    behind_materialization-opens (ok metrics, places) descriptor w h =
        elim (Result-cases
          (open_blob_with digest accesses.measuring places.cache (for_descriptor descriptor))) [
            | inl (none, opened) ↦ ground arith
            | inl (some blob, opened) ↦
                elim (Result-cases
                  (catalog.record_artifact_blob w.store descriptor blob.payload_len)) [
                    | inl (store, noted) ↦ (
                      blob,
                      rw (opened, noted, record_blob)
                          (open_blob_with_ok digest accesses.measuring places.cache
                            (for_descriptor descriptor) opened),
                    )
                    | inr (failure, noted) ↦ ground arith
                  ]
            | inr (e, failed) ↦ ground arith
          ]

  module _ (digest : ArtifactBlobKey → List ℕ) (accesses : Accesses) (process_id : ℕ)
      (sha256 : List ℕ → List ℕ) (launch : WorkerLaunch) (world : Surroundings) (staged : Directory)
      (workspace_root : WorkspacePath) (locator : Option Text) (staging_directory : Text)
      (unit : SourceUnitId) where
    warm_descriptor-opens :
        (cached : Result Bool Failure × Directory) (descriptor : ArtifactDescriptor)
        (w : Warmup catalog) {outcome : MaterializationOutcome}
        {metrics : Option MaterializationMetrics}
        → Checked digest accesses.checking w.places.cache (for_descriptor descriptor) cached
        → outcome ≢ budget_exhausted
        → (warm_descriptor catalog digest accesses process_id sha256 launch world staged cached
            workspace_root descriptor locator staging_directory unit w).0
          ≡ ok (outcome, metrics)
        → (blob : ArtifactBlob) × (open_blob digest
              (warm_descriptor catalog digest accesses process_id sha256 launch world staged cached
                workspace_root descriptor locator staging_directory unit w).1.places.cache
              (for_descriptor descriptor)
            ≡ ok (some blob))
    unfolding warm_descriptor
    warm_descriptor-opens (err failure, cache) descriptor w checked more h = cc
    warm_descriptor-opens (ok true, cache) descriptor w (hit {blob = blob} e same opened) more h =
        (blob, rw same opened)
    warm_descriptor-opens (ok true, cache) descriptor w (miss e absent others) more h = cc
    warm_descriptor-opens (ok true, cache) descriptor w (refused system e same) more h = cc
    warm_descriptor-opens (ok false, cache) descriptor w checked more h =
        elim (Bool-cases (eqb w.remaining_artifacts 0)) [
          | inl spent ↦ ground arith
          | inr left ↦
              let paid : Warmup catalog = record w {
                remaining_artifacts = w.remaining_artifacts - 1;
              } in
              let made =
                materialize_artifact digest process_id sha256 launch world staged
                  accesses.checking_again workspace_root descriptor locator staging_directory
                  (utf8 "cache-materialize-" ++ unit) (record w.places { cache = cache }) in
              rw left
                (behind_materialization-opens digest accesses made descriptor paid (rw left at h))
        ]

    -- A warmup that ends with neither an exhausted budget nor an artifact that is not cataloged has
    -- found a descriptor of the unit, and leaves a blob in the cache that opens under its key.
    pub cache_catalog_artifact-opens :
        (w : Warmup catalog) {outcome : MaterializationOutcome}
        {metrics : Option MaterializationMetrics}
        → outcome ≢ budget_exhausted
        → outcome ≢ not_cataloged
        → (cache_catalog_artifact_with_metrics catalog digest accesses process_id sha256 launch
            world staged workspace_root locator staging_directory unit w).0
          ≡ ok (outcome, metrics)
        → (descriptor : ArtifactDescriptor) × (blob : ArtifactBlob) × (artifact_descriptor w.store
              unit
            ≡ ok (some descriptor))
          × (open_blob digest
                (cache_catalog_artifact_with_metrics catalog digest accesses process_id sha256
                  launch world staged workspace_root locator staging_directory unit
                  w).1.places.cache
                (for_descriptor descriptor)
              ≡ ok (some blob))
    unfolding cache_catalog_artifact_with_metrics warm_found
    cache_catalog_artifact-opens w more cataloged h =
        elim (Result-cases (artifact_descriptor w.store unit)) [
          | inl (none, found) ↦ ground arith
          | inl (some descriptor, found) ↦
              let (blob, opened) =
                warm_descriptor-opens _ descriptor w
                  (cache_hit_or_remove_invalid-Checked digest accesses.checking w.places.cache
                    (for_descriptor descriptor))
                  more (rw (found, warm_found) at h) in
              (descriptor, blob, found, rw (found, warm_found) opened)
          | inr (failure, found) ↦ ground arith
        ]
