-- ===== src/Tests/Warmups.antt =====
-- A worker stages one blob, and the cache takes it.
use kide.Base.{
  ℕ, ◌≡◌, ◌≢◌, refl, utf8, text_eq, text_ord, nat_eq, ℕ_discrete, List, [], ◌∷◌, ◌++◌, Option, none,
  some, true, false,
}
use kide.Base.{arith}
use kide.Base.Results.{ok}
use kide.DependencyIdentity.{ArtifactDescriptor, for_descriptor}
use kide.Protocol.{ArtifactMaterializationResponse, artifact_materialization_response}
use kide.Supervisor.{WorkerLaunch, Surroundings, new_supervisor, envelope}
use kide.ArtifactCache.{Directory, ArtifactBlob, hex, open_blob, set_file}
use kide.ArtifactCache.Access.{Access}
use kide.Orchestrator.Digests.{sha256_bytes}
use kide.Orchestrator.Digests.RoundTrip.{sha256_bytes-hex}
use kide.Orchestrator.Materialization.{MaterializationMetrics, cache_hit_or_remove_invalid}
use kide.Orchestrator.Materialization.Hits.{Checked, cache_hit_or_remove_invalid-Checked}
use kide.Orchestrator.Warmup.{
  Accesses, Catalog, Warmup, materialized, budget_exhausted, not_cataloged,
  cache_catalog_artifact_with_metrics,
}
use kide.Orchestrator.Warmup.Budget.{IsPaid, cache_catalog_artifact-IsPaid}
use kide.Orchestrator.Warmup.Opened.{cache_catalog_artifact-opens}
use kide.Tests.Samples.{descriptor}
use kide.Tests.Cache.{digest, zeros}

sha256_bytes-hex_example :
    sha256_bytes (utf8 "sha256:" ++ hex (0xa7 ∷ zeros 31)) ≡ ok (some (0xa7 ∷ zeros 31))
sha256_bytes-hex_example = sha256_bytes-hex (0xa7 ∷ zeros 31) refl (omega arith)

abbrev empty : Directory
empty name = none

abbrev allowed : Access
allowed = record { opens = true; reads = true; measures = true; removes = true }

abbrev damaged : Directory
damaged name = some (1 ∷ 2 ∷ [])

cache_hit_or_remove_invalid-Checked_example :
    Checked digest allowed damaged
      (for_descriptor descriptor)
      (cache_hit_or_remove_invalid digest allowed damaged (for_descriptor descriptor))
cache_hit_or_remove_invalid-Checked_example =
    cache_hit_or_remove_invalid-Checked digest allowed damaged (for_descriptor descriptor)

abbrev allowing : Accesses
allowing = record { checking = allowed; checking_again = allowed; measuring = allowed }

-- A store of one descriptor, which takes every blob.
abbrev catalog : Catalog
catalog = record {
  Store = Option ArtifactDescriptor;
  artifact_descriptor = λ store unit. ok store;
  record_artifact_blob = λ store descriptor length. ok store;
}

abbrev response : ArtifactMaterializationResponse
response = record {
  staged_filename = utf8 "staged";
  byte_length = 5;
  sha256 = utf8 "sha256:" ++ hex (zeros 32);
  blob_format_version = 1;
  timings = [];
  metrics = [];
}

abbrev launch : WorkerLaunch
launch = record { idle_timeout = 30000; request_timeout = 30000 }

abbrev world : Surroundings
world = record {
  has_exited = false;
  spawns = true;
  encodes = true;
  write_error = none;
  reply = envelope (record {
    protocol_version = 3;
    request_id = utf8 "cache-materialize-a";
    message = artifact_materialization_response response;
  });
  now = 5;
  written_at = 6;
  answered_at = 9;
}

abbrev staged : Directory
staged name = some (utf8 "facts")

abbrev sum : List ℕ → List ℕ
sum bytes = zeros 32

abbrev start : Warmup catalog
start = record {
  store = some descriptor;
  places = record { supervisor = new_supervisor; cache = empty; staging = empty };
  remaining_artifacts = 2;
}

cache_catalog_artifact-IsPaid_example :
    IsPaid catalog start
      (cache_catalog_artifact_with_metrics catalog digest allowing 7 sum launch world staged
        (utf8 ".")
        none
        (utf8 "tmp")
        (utf8 "a")
        start).1
cache_catalog_artifact-IsPaid_example =
    cache_catalog_artifact-IsPaid catalog digest allowing 7 sum launch world staged (utf8 ".") none
      (utf8 "tmp") (utf8 "a") start

abbrev metrics : MaterializationMetrics
metrics = record { promoted = true; worker_phases = []; worker_metrics = [] }

done :
    (cache_catalog_artifact_with_metrics catalog digest allowing 7 sum launch world staged
      (utf8 ".")
      none
      (utf8 "tmp")
      (utf8 "a")
      start).0
    ≡ ok (materialized, some metrics)
unfolding cache_catalog_artifact_with_metrics set_file text_eq ℕ_discrete nat_eq new_supervisor
done = refl

not_exhausted : materialized ≢ budget_exhausted
not_exhausted h = cc

cataloged : materialized ≢ not_cataloged
cataloged h = cc

cache_catalog_artifact-opens_example :
    (found : ArtifactDescriptor) × (blob : ArtifactBlob) × (catalog.artifact_descriptor start.store
        (utf8 "a")
      ≡ ok (some found))
    × (open_blob digest
          (cache_catalog_artifact_with_metrics catalog digest allowing 7 sum launch world staged
            (utf8 ".")
            none
            (utf8 "tmp")
            (utf8 "a")
            start).1.places.cache
          (for_descriptor found)
        ≡ ok (some blob))
cache_catalog_artifact-opens_example =
    cache_catalog_artifact-opens catalog digest allowing 7 sum launch world staged (utf8 ".") none
      (utf8 "tmp") (utf8 "a") start not_exhausted cataloged done
