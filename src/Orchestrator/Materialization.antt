-- ===== src/Orchestrator/Materialization.antt =====
-- `materialize_artifact` of crates/kide-core/src/orchestrator.rs: a worker stages the blob of one
-- artifact, and Core promotes it into the cache. The supervisor and the cache are those of
-- Supervisor and ArtifactCache, and the staging folder is a directory of its own. Times are not
-- modelled, and so `core_phases` is left out.
pub mod Hits
use kide.Base.{
  ℕ, zero, suc, ◌+◌, ◌-◌, ◌*◌, ◌%◌, ◌^◌, Text, utf8, text_eq, text_ord, List, [], ◌∷◌, ◌++◌, map,
  Option, none, some, Bool, true, false, not, ◌&&◌, ◌||◌,
}
use kide.Base.{◌==◌, eqb, leb, ltb, if◌then◌else◌, length, contains, nat_eq, take, drop}
use kide.Base.Results.{Result, ok, err, ◌>>=◌, ok_or}
use kide.Canonical.{WorkspacePath, SourceUnitId}
use kide.DependencyIdentity.{ArtifactDescriptor, ArtifactBlobKey, for_descriptor}
use kide.DependencyIdentity.{artifact_blob_format_version}
use kide.Protocol.{WorkerEnvelope, WorkerMessage, PhaseTiming, WorkerMetric, new_envelope}
use kide.Protocol.{ArtifactMaterializationRequest, ArtifactMaterializationResponse}
use kide.Protocol.{artifact_materialization_request, artifact_materialization_response}
use kide.Supervisor
use kide.Supervisor.{WorkerSupervisor, WorkerLaunch, Surroundings, request_worker}
use kide.ArtifactCache
use kide.ArtifactCache.{
  Directory, ArtifactBlob, ArtifactBlobCacheError, set_file, open_blob, remove_invalid,
}
use kide.ArtifactCache.Access.{Access, open_blob_with, remove_invalid_with}
use kide.ArtifactCache.{promote_staged, invalid_header, truncated_payload}
use kide.TreeMap.{TreeMap, get, insert}
use kide.Orchestrator.Errors.{
  IndexOrchestratorError, invalid_response, invalid_staged_artifact, worker,
}
use kide.Orchestrator.Errors.{artifact_cache}
use kide.Orchestrator.Digests.{Failure, error, panic, sha256_bytes}

-- The test that the staged name, joined to the folder, is a file of that name in it.
unfoldable pub is_file_name : Text → Bool
is_file_name name =
    not (contains name b'/')
    && not (name == [])
    && not (name == utf8 ".")
    && not (name == utf8 "..")

-- `*map.entry(key).or_default() += value` of a `u64`, which wraps.
unfoldable pub add_entry : Text → ℕ → TreeMap Text ℕ → TreeMap Text ℕ
unfolding get insert
add_entry key value totals = elim (get key totals) [
  | some total ↦ insert key ((total + value) % 2 ^ 64) totals
  | none ↦ insert key (value % 2 ^ 64) totals
]

unfoldable pub fold_timings : List PhaseTiming → TreeMap Text ℕ → TreeMap Text ℕ
unfolding add_entry
fold_timings [] phases = phases
fold_timings (timing ∷ timings) phases =
    fold_timings timings (add_entry timing.phase timing.elapsed_millis phases)

unfoldable pub fold_metrics : List WorkerMetric → TreeMap Text ℕ → TreeMap Text ℕ
unfolding add_entry
fold_metrics [] totals = totals
fold_metrics (metric ∷ metrics) totals =
    fold_metrics metrics (add_entry metric.name metric.value totals)

pub record MaterializationMetrics : Type 0 where
  pub promoted : Bool
  pub worker_phases : TreeMap Text ℕ
  pub worker_metrics : TreeMap Text ℕ

-- What the calls change: the supervisor, the cache, and the files that the worker staged.
pub record Places : Type 0 where
  pub supervisor : WorkerSupervisor
  pub cache : Directory
  pub staging : Directory

unfoldable pub no_metrics : MaterializationMetrics
no_metrics = record { promoted = false; worker_phases = []; worker_metrics = [] }

unfoldable pub metrics_of : Bool → ArtifactMaterializationResponse → MaterializationMetrics
unfolding fold_timings fold_metrics
metrics_of promoted response = record {
  promoted = promoted;
  worker_phases = fold_timings response.timings [];
  worker_metrics = fold_metrics response.metrics [];
}

unfoldable pub materialization_request :
    WorkspacePath → ArtifactDescriptor → Text → Option Text → ArtifactMaterializationRequest
materialization_request workspace_root artifact staging_directory locator = record {
  workspace_root = workspace_root;
  artifact = artifact;
  staging_directory = staging_directory;
  blob_format_version = artifact_blob_format_version;
  artifact_locator = locator;
}

-- `cache.remove_invalid(key)?; Ok(false)`
unfoldable pub behind_removal :
    Result Bool ArtifactBlobCacheError × Directory → Result Bool Failure × Directory
behind_removal (ok removed, cache) = (ok false, cache)
behind_removal (err e, cache) = (err (error (artifact_cache e)), cache)

module _ (digest : ArtifactBlobKey → List ℕ) (access : Access) where
  unfoldable pub hit_or_remove :
      Result (Option ArtifactBlob) ArtifactBlobCacheError
      → Directory
      → ArtifactBlobKey
      → Result Bool Failure × Directory
  unfolding remove_invalid_with behind_removal
  hit_or_remove (ok (some blob)) cache key = (ok true, cache)
  hit_or_remove (ok none) cache key = (ok false, cache)
  hit_or_remove (err invalid_header) cache key =
      behind_removal (remove_invalid_with digest access cache key)
  hit_or_remove (err (truncated_payload expected)) cache key =
      behind_removal (remove_invalid_with digest access cache key)
  hit_or_remove (err other) cache key = (err (error (artifact_cache other)), cache)

  unfoldable pub cache_hit_or_remove_invalid :
      Directory → ArtifactBlobKey → Result Bool Failure × Directory
  unfolding hit_or_remove open_blob_with
  cache_hit_or_remove_invalid cache key =
      hit_or_remove (open_blob_with digest access cache key) cache key

module _ (digest : ArtifactBlobKey → List ℕ) where
  module _ (process_id : ℕ) (sha256 : List ℕ → List ℕ) where
    -- The promotion and the removal of the staged file behind it.
    unfoldable pub clean_up :
        Result Bool ArtifactBlobCacheError × Directory
        → ArtifactMaterializationResponse
        → WorkerSupervisor
        → Directory
        → Result MaterializationMetrics Failure × Places
    unfolding metrics_of set_file
    clean_up (err e, cache) response supervisor staging = (
      err (error (artifact_cache e)),
      record { supervisor = supervisor; cache = cache; staging = staging },
    )
    clean_up (ok promoted, cache) response supervisor staging = (
      ok (metrics_of promoted response),
      record {
        supervisor = supervisor;
        cache = cache;
        staging = set_file response.staged_filename none staging;
      },
    )

    -- From the digest of a response on.
    unfoldable pub take_response :
        Result (Option (List ℕ)) Failure
        → ArtifactBlobKey
        → ArtifactMaterializationResponse
        → Places
        → Result MaterializationMetrics Failure × Places
    unfolding clean_up is_file_name promote_staged
    take_response (err failure) key response places = (err failure, places)
    take_response (ok none) key response places = (err (error invalid_staged_artifact), places)
    take_response (ok (some sum)) key response places =
        if not (is_file_name response.staged_filename)
        then (err (error invalid_staged_artifact), places)
        else clean_up
            (promote_staged digest process_id sha256 places.cache key
              (places.staging response.staged_filename) response.byte_length sum)
            response places.supervisor places.staging

    unfoldable pub take_reply :
        Supervisor.Result WorkerEnvelope
        → ArtifactBlobKey
        → Places
        → Result MaterializationMetrics Failure × Places
    unfolding take_response sha256_bytes
    take_reply (Supervisor.err e) key places = (err (error (worker e)), places)
    take_reply (Supervisor.ok e) key places = elim e.message [
      | artifact_materialization_response response ↦
          take_response (sha256_bytes response.sha256) key response places
      | _ ↦ (err (error (invalid_response e.message)), places)
    ]

    -- What the worker did during the request, the files that it had staged by its answer, and what
    -- the operating system allows at the check of the cache.
    module _ (launch : WorkerLaunch) (world : Surroundings) (staged : Directory)
        (access : Access) where
      unfoldable pub request_artifact :
          Text
          → ArtifactMaterializationRequest
          → ArtifactBlobKey
          → Places
          → Result MaterializationMetrics Failure × Places
      unfolding request_worker take_reply new_envelope
      request_artifact request_id request key places =
          let (reply, supervisor) =
            request_worker launch world
              (new_envelope request_id (artifact_materialization_request request))
              places.supervisor in
          take_reply reply key
            (record { supervisor = supervisor; cache = places.cache; staging = staged })

      unfoldable pub behind_cache_check :
          Result Bool Failure × Directory
          → Text
          → ArtifactMaterializationRequest
          → ArtifactBlobKey
          → Places
          → Result MaterializationMetrics Failure × Places
      unfolding request_artifact no_metrics
      behind_cache_check (err failure, cache) request_id request key places =
          (err failure, record places { cache = cache })
      behind_cache_check (ok true, cache) request_id request key places =
          (ok no_metrics, record places { cache = cache })
      behind_cache_check (ok false, cache) request_id request key places =
          request_artifact request_id request key (record places { cache = cache })

      unfoldable pub materialize_artifact :
          WorkspacePath
          → ArtifactDescriptor
          → Option Text
          → Text
          → Text
          → Places
          → Result MaterializationMetrics Failure × Places
      unfolding behind_cache_check cache_hit_or_remove_invalid materialization_request
          for_descriptor
      materialize_artifact workspace_root artifact locator staging_directory request_id places =
          let key = for_descriptor artifact in
          behind_cache_check (cache_hit_or_remove_invalid digest access places.cache key) request_id
            (materialization_request workspace_root artifact staging_directory locator) key places
