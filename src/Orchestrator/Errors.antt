-- ===== src/Orchestrator/Errors.antt =====
-- `IndexOrchestratorError`, without the variant that wraps an error of the store.
use kide.Base.{ℕ, Text}
use kide.Canonical.{Fingerprint, Language}
use kide.Protocol.{WorkerMessage}
use kide.Supervisor.{WorkerSupervisorError}
use kide.ArtifactCache.{ArtifactBlobCacheError}

pub data IndexOrchestratorError : Type 0 where
  worker : WorkerSupervisorError → IndexOrchestratorError
  artifact_cache : ArtifactBlobCacheError → IndexOrchestratorError
  invalid_staged_artifact : IndexOrchestratorError
  unexpected_snapshot : Text → IndexOrchestratorError
  missing_snapshot : Text → IndexOrchestratorError
  invalid_response : WorkerMessage → IndexOrchestratorError
  unsupported_batches : ℕ → IndexOrchestratorError
  execution_plan_manifest_mismatch : Text → Fingerprint → Fingerprint → IndexOrchestratorError
  worker_no_longer_compatible : Text → Text → Language → IndexOrchestratorError
  dependency_worker_panicked : IndexOrchestratorError
  dependency_context_mismatch : Text → Fingerprint → Fingerprint → IndexOrchestratorError
  unknown_dependency_component : Text → IndexOrchestratorError

pub data Result {ℓ} (A : Type ℓ) : Type ℓ where
  ok : A → Result A
  err : IndexOrchestratorError → Result A
