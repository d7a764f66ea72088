-- ===== src/Orchestrator/Warmup.antt =====
-- `cache_catalog_artifact_with_metrics` of crates/kide-core/src/orchestrator.rs: one artifact of the
-- catalog is brought into the cache, within a budget. The index store is the parameter `Catalog`.
pub mod Budget
pub mod Opened
use kide.Base.{
  ℕ, zero, suc, ◌+◌, ◌-◌, ◌*◌, ◌%◌, ◌^◌, Text, utf8, text_eq, text_ord, List, [], ◌∷◌, ◌++◌, map,
  Option, none, some, Bool, true, false, not, ◌&&◌, ◌||◌,
}
use kide.Base.{◌==◌, eqb, leb, ltb, if◌then◌else◌, length, contains, nat_eq, take, drop}
use kide.Base.Results.{Result, ok, err, ◌>>=◌, ok_or}
use kide.Canonical.{WorkspacePath, SourceUnitId}
use kide.DependencyIdentity.{ArtifactDescriptor, ArtifactBlobKey, for_descriptor}
use kide.DependencyIdentity.{artifact_blob_format_version}
use kide.Protocol.{WorkerEnvelope, WorkerMessage, PhaseTiming, WorkerMetric, new_envelope}
use kide.Protocol.{ArtifactMaterializationRequest, ArtifactMaterializationResponse}
use kide.Protocol.{artifact_materialization_request, artifact_materialization_response}
use kide.Supervisor
use kide.Supervisor.{WorkerSupervisor, WorkerLaunch, Surroundings, request_worker}
use kide.ArtifactCache
use kide.ArtifactCache.{
  Directory, ArtifactBlob, ArtifactBlobCacheError, set_file, open_blob, remove_invalid,
}
use kide.ArtifactCache.{promote_staged, invalid_header, truncated_payload}
use kide.ArtifactCache.Access.{Access, open_blob_with}
use kide.TreeMap.{TreeMap, get, insert}
use kide.Orchestrator.Errors.{
  IndexOrchestratorError, invalid_response, invalid_staged_artifact, worker,
}
use kide.Orchestrator.Errors.{artifact_cache}
use kide.Orchestrator.Digests.{Failure, error, panic}
use kide.Orchestrator.Materialization.{Places, MaterializationMetrics, materialize_artifact}
use kide.Orchestrator.Materialization.{cache_hit_or_remove_invalid}

pub data MaterializationOutcome : Type 0 where
  materialized already_materialized budget_exhausted not_cataloged : MaterializationOutcome

-- The index store, as far as the warmup of the cache reads and writes it. An operation fails with
-- the store's own error.
pub record Catalog : Type 1 where
  pub Store : Type 0
  pub artifact_descriptor : Store → SourceUnitId → Result (Option ArtifactDescriptor) Failure
  pub record_artifact_blob : Store → ArtifactDescriptor → ℕ → Result Store Failure

pub record Warmup (catalog : Catalog) : Type 0 where
  pub store : catalog.Store
  pub places : Places
  pub remaining_artifacts : ℕ

abbrev pub Warmed : Catalog → Type 0
Warmed catalog =
    Result (MaterializationOutcome × Option MaterializationMetrics) Failure × Warmup catalog

-- What the operating system allows at the check of the cache, at the check once more in the
-- materialization, and at the opening for the length.
pub record Accesses : Type 0 where
  pub checking : Access
  pub checking_again : Access
  pub measuring : Access

module _ (catalog : Catalog) where
  open catalog use {Store, artifact_descriptor, record_artifact_blob}

  unfoldable pub record_blob :
      Result Store Failure → MaterializationMetrics → Warmup catalog → Warmed catalog
  record_blob (err failure) metrics warmup = (err failure, warmup)
  record_blob (ok store) metrics warmup = (
    ok ((if metrics.promoted then materialized else already_materialized), some metrics),
    record warmup { store = store },
  )

  -- The blob is opened once more for its length.
  unfoldable pub measure_blob :
      Result (Option ArtifactBlob) ArtifactBlobCacheError
      → ArtifactDescriptor
      → MaterializationMetrics
      → Warmup catalog
      → Warmed catalog
  unfolding record_blob
  measure_blob (err e) descriptor metrics warmup = (err (error (artifact_cache e)), warmup)
  measure_blob (ok none) descriptor metrics warmup = (err (error invalid_staged_artifact), warmup)
  measure_blob (ok (some blob)) descriptor metrics warmup =
      record_blob (record_artifact_blob warmup.store descriptor blob.payload_len) metrics warmup

  module _ (digest : ArtifactBlobKey → List ℕ) (accesses : Accesses) where
    unfoldable pub behind_materialization :
        Result MaterializationMetrics Failure × Places
        → ArtifactDescriptor
        → Warmup catalog
        → Warmed catalog
    unfolding measure_blob open_blob_with for_descriptor
    behind_materialization (err failure, places) descriptor warmup =
        (err failure, record warmup { places = places })
    behind_materialization (ok metrics, places) descriptor warmup =
        measure_blob
          (open_blob_with digest accesses.measuring places.cache (for_descriptor descriptor))
          descriptor metrics (record warmup { places = places })

    module _ (process_id : ℕ) (sha256 : List ℕ → List ℕ) (launch : WorkerLaunch)
        (world : Surroundings) (staged : Directory) where
      unfoldable pub warm_descriptor :
          Result Bool Failure × Directory
          → WorkspacePath
          → ArtifactDescriptor
          → Option Text
          → Text
          → SourceUnitId
          → Warmup catalog
          → Warmed catalog
      unfolding behind_materialization materialize_artifact
      warm_descriptor (err failure, cache) workspace_root descriptor locator staging_directory unit
            warmup =
          (err failure, record warmup { places = record warmup.places { cache = cache } })
      warm_descriptor (ok true, cache) workspace_root descriptor locator staging_directory unit
            warmup =
          (
            ok (already_materialized, none),
            record warmup { places = record warmup.places { cache = cache } },
          )
      warm_descriptor (ok false, cache) workspace_root descriptor locator staging_directory unit
            warmup =
          let checked : Places = record warmup.places { cache = cache } in
          if eqb warmup.remaining_artifacts 0
          then (ok (budget_exhausted, none), record warmup { places = checked })
          else behind_materialization
              (materialize_artifact digest process_id sha256 launch world staged
                accesses.checking_again workspace_root descriptor locator staging_directory
                (utf8 "cache-materialize-" ++ unit) checked)
              descriptor (record warmup { remaining_artifacts = warmup.remaining_artifacts - 1 })

      unfoldable pub warm_found :
          Result (Option ArtifactDescriptor) Failure
          → WorkspacePath
          → Option Text
          → Text
          → SourceUnitId
          → Warmup catalog
          → Warmed catalog
      unfolding warm_descriptor cache_hit_or_remove_invalid for_descriptor
      warm_found (err failure) workspace_root locator staging_directory unit warmup =
          (err failure, warmup)
      warm_found (ok none) workspace_root locator staging_directory unit warmup =
          (ok (not_cataloged, none), warmup)
      warm_found (ok (some descriptor)) workspace_root locator staging_directory unit warmup =
          warm_descriptor
            (cache_hit_or_remove_invalid digest accesses.checking warmup.places.cache
              (for_descriptor descriptor))
            workspace_root descriptor locator staging_directory unit warmup

      unfoldable pub cache_catalog_artifact_with_metrics :
          WorkspacePath → Option Text → Text → SourceUnitId → Warmup catalog → Warmed catalog
      unfolding warm_found
      cache_catalog_artifact_with_metrics workspace_root locator staging_directory unit warmup =
          warm_found (artifact_descriptor warmup.store unit) workspace_root locator
            staging_directory unit warmup
