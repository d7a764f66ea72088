-- ===== src/Orchestrator/Digests.antt =====
-- `sha256_bytes` of crates/kide-core/src/orchestrator.rs: the digest that a worker reports, in
-- hexadecimal. A slice of a text that does not end between two characters panics.
pub mod RoundTrip
use kide.Base.{
  ℕ, zero, suc, ◌+◌, ◌-◌, ◌*◌, ◌%◌, ◌^◌, Text, utf8, text_eq, text_ord, List, [], ◌∷◌, ◌++◌, map,
  Option, none, some, Bool, true, false, not, ◌&&◌, ◌||◌,
}
use kide.Base.{◌==◌, eqb, leb, ltb, if◌then◌else◌, length, contains, nat_eq, take, drop}
use kide.Base.Results.{Result, ok, err, ◌>>=◌, ok_or}
use kide.Canonical.{WorkspacePath, SourceUnitId}
use kide.DependencyIdentity.{ArtifactDescriptor, ArtifactBlobKey, for_descriptor}
use kide.DependencyIdentity.{artifact_blob_format_version}
use kide.Protocol.{WorkerEnvelope, WorkerMessage, PhaseTiming, WorkerMetric, new_envelope}
use kide.Protocol.{ArtifactMaterializationRequest, ArtifactMaterializationResponse}
use kide.Protocol.{artifact_materialization_request, artifact_materialization_response}
use kide.Supervisor
use kide.Supervisor.{WorkerSupervisor, WorkerLaunch, Surroundings, request_worker}
use kide.ArtifactCache
use kide.ArtifactCache.{
  Directory, ArtifactBlob, ArtifactBlobCacheError, set_file, open_blob, remove_invalid,
}
use kide.ArtifactCache.{promote_staged, invalid_header, truncated_payload}
use kide.TreeMap.{TreeMap, get, insert}
use kide.Orchestrator.Errors.{
  IndexOrchestratorError, invalid_response, invalid_staged_artifact, worker,
}
use kide.Orchestrator.Errors.{artifact_cache}

-- What ends a call without a result: an error, or a panic.
pub data Failure : Type 0 where
  error : IndexOrchestratorError → Failure
  panic : Failure

-- One digit of `u8::from_str_radix(_, 16)`.
unfoldable pub digit_value : ℕ → Option ℕ
digit_value c =
    if leb b'0' c && leb c b'9'
    then some (c - b'0')
    else if leb b'a' c && leb c b'f'
    then some (c - b'a' + 10)
    else if leb b'A' c && leb c b'F'
    then some (c - b'A' + 10)
    else none

-- `u8::from_str_radix` of two bytes, which takes a plus sign.
unfoldable pub from_str_radix : ℕ → ℕ → Option ℕ
unfolding digit_value
from_str_radix a b = elim (digit_value a) [
  | none ↦ if eqb a b'+' then digit_value b else none
  | some high ↦ elim (digit_value b) [ none ↦ none | some low ↦ some (high * 16 + low) ]
]

-- `is_char_boundary` at the front of what follows.
unfoldable pub is_char_boundary : List ℕ → Bool
is_char_boundary [] = true
is_char_boundary (c ∷ rest) = ltb c 128 || leb 192 c

-- The loop over the digest: a slice that does not end between two characters panics.
unfoldable pub digest_bytes : List ℕ → Result (Option (List ℕ)) Failure
unfolding from_str_radix is_char_boundary
digest_bytes [] = ok (some [])
digest_bytes (a ∷ []) = err panic
digest_bytes (a ∷ b ∷ rest) =
    let later = digest_bytes rest in
    if not (is_char_boundary rest) then err panic else elim (from_str_radix a b) [
      | none ↦ ok none
      | some byte ↦ elim later [
        | ok (some bytes) ↦ ok (some (byte ∷ bytes))
        | ok none ↦ ok none
        | err failure ↦ err failure
      ]
    ]

-- `strip_prefix("sha256:")`
unfoldable pub strip_sha256 : Text → Option Text
strip_sha256 value = if take 7 value == utf8 "sha256:" then some (drop 7 value) else none

unfoldable pub sha256_bytes : Text → Result (Option (List ℕ)) Failure
unfolding digest_bytes strip_sha256
sha256_bytes value = elim (strip_sha256 value) [
  | none ↦ ok none
  | some digits ↦ if eqb (length digits) 64 then digest_bytes digits else ok none
]
