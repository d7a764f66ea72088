-- ===== src/WorkerProto/Artifacts/RoundTrip.antt =====
-- Round trips of the messages about artifacts and of digests: Artifacts and its adapters.
use kide.Base.{
  ℕ, ◌/◌, ◌%◌, ◌<◌, ◌≡◌, ◌≢◌, refl, Text, utf8, text_eq, ℕ_discrete, List, [], ◌∷◌, ◌++◌, All,
  arith, true, false, eqb, length, all,
}
use kide.Base.Results.{ok, ◌>>=◌}
use kide.Protocol.{
  ArtifactAnalysisRequest, ArtifactAnalysisResponse, ArtifactDiscoveryRequest,
  ArtifactDiscoveryResponse, ArtifactMaterializationRequest, ArtifactMaterializationResponse,
}
use kide.ArtifactCache.{hex, hex_digit}
use kide.Orchestrator.Digests.{strip_sha256}
use kide.Orchestrator.Digests.RoundTrip.{digit_value-hex_digit, from_str_radix-hex, length-hex}
use kide.WorkerProto.Control.{proto_descriptor, decode_descriptor}
use kide.WorkerProto.Control.RoundTrip.{
  collect_results-map, is_empty-false, IsStated, decode_execution_plan-execution_plan, IsDescribed,
  decode_descriptor-proto_descriptor,
}
use kide.WorkerProto.Queries.RoundTrip.{IsCarried, snapshots_round}
use kide.WorkerProto.Artifacts.{
  proto_analysis_request, decode_analysis_request, proto_analysis_response,
  decode_analysis_response, proto_discovery_request, decode_discovery_request,
  proto_discovery_response, decode_discovery_response, hex_pairs, is_hex_digit, fingerprint_digits,
  fingerprint_bytes, sha256_fingerprint, proto_materialization_request,
  decode_materialization_request, is_unfinished, proto_materialization_response,
  decode_materialization_response,
}

pub decode_analysis_request-proto_analysis_request :
    (request : ArtifactAnalysisRequest)
    → request.max_artifacts ≢ 0
    → decode_analysis_request (proto_analysis_request request) ≡ ok request
unfolding decode_analysis_request proto_analysis_request
decode_analysis_request-proto_analysis_request request positive = ground arith

pub decode-proto_analysis_response :
    (response : ArtifactAnalysisResponse)
    → All IsCarried response.snapshots
    → (proto_analysis_response response >>= decode_analysis_response) ≡ ok response
unfolding proto_analysis_response decode_analysis_response
decode-proto_analysis_response response carried =
    let (wires, wrote, read) = snapshots_round response.snapshots carried in rw (wrote, read) refl

pub decode_discovery_request-proto_discovery_request :
    (request : ArtifactDiscoveryRequest)
    → IsStated request.execution_plan
    → decode_discovery_request (proto_discovery_request request) ≡ ok request
unfolding decode_discovery_request proto_discovery_request
decode_discovery_request-proto_discovery_request request stated =
    rw (decode_execution_plan-execution_plan request.execution_plan stated) refl

pub decode_discovery_response-proto_discovery_response :
    (response : ArtifactDiscoveryResponse)
    → All IsDescribed response.artifacts
    → decode_discovery_response (proto_discovery_response response) ≡ ok response
unfolding decode_discovery_response proto_discovery_response
decode_discovery_response-proto_discovery_response response described =
    rw
      (collect_results-map proto_descriptor decode_descriptor IsDescribed
        decode_descriptor-proto_descriptor response.artifacts described)
      refl

pub record IsPlaced (request : ArtifactMaterializationRequest) : Type 0 where
  pub staging_directory : request.staging_directory ≢ []
  pub blob_format_version : request.blob_format_version ≢ 0
  pub artifact : IsDescribed request.artifact

pub decode_materialization_request-proto_materialization_request :
    (request : ArtifactMaterializationRequest)
    → IsPlaced request
    → decode_materialization_request (proto_materialization_request request) ≡ ok request
unfolding decode_materialization_request proto_materialization_request
decode_materialization_request-proto_materialization_request request placed =
    let positive = placed.blob_format_version in
    let nonzero : eqb request.blob_format_version 0 ≡ false = ground arith in
    rw
      (
        is_empty-false request.staging_directory placed.staging_directory,
        nonzero,
        decode_descriptor-proto_descriptor request.artifact placed.artifact,
      )
      refl

is_hex_digit-hex_digit : (d : ℕ) → d < 16 → is_hex_digit (hex_digit d) ≡ true
unfolding is_hex_digit
is_hex_digit-hex_digit d h = rw (digit_value-hex_digit d h) refl

all-is_hex_digit : (bytes : List ℕ) → All (λ b. b < 256) bytes → all is_hex_digit (hex bytes) ≡ true
unfolding hex
all-is_hex_digit [] h = refl
all-is_hex_digit (b ∷ bytes) (hb, h) =
    rw
      (
        is_hex_digit-hex_digit (b / 16) (omega arith),
        is_hex_digit-hex_digit (b % 16) (omega arith),
        all-is_hex_digit bytes h,
      )
      refl

hex_pairs-hex : (bytes : List ℕ) → All (λ b. b < 256) bytes → hex_pairs (hex bytes) ≡ ok bytes
unfolding hex_pairs hex
hex_pairs-hex [] h = refl
hex_pairs-hex (b ∷ bytes) (hb, h) = rw (from_str_radix-hex b hb, hex_pairs-hex bytes h) refl

fingerprint_digits-hex :
    (bytes : List ℕ)
    → length bytes ≡ 32
    → All (λ b. b < 256) bytes
    → fingerprint_digits (hex bytes) ≡ ok bytes
unfolding fingerprint_digits
fingerprint_digits-hex bytes size h =
    let long : eqb (length (hex bytes)) 64 ≡ true = ground (arith, length-hex bytes) in
    rw (long, all-is_hex_digit bytes h, hex_pairs-hex bytes h) refl

pub fingerprint_bytes-hex :
    (bytes : List ℕ)
    → length bytes ≡ 32
    → All (λ b. b < 256) bytes
    → fingerprint_bytes (utf8 "sha256:" ++ hex bytes) ≡ ok bytes
unfolding fingerprint_bytes strip_sha256 text_eq ℕ_discrete
fingerprint_bytes-hex bytes size h = fingerprint_digits-hex bytes size h

sha256_fingerprint-bytes :
    (bytes : List ℕ)
    → length bytes ≡ 32
    → sha256_fingerprint bytes ≡ ok (utf8 "sha256:" ++ hex bytes)
unfolding sha256_fingerprint
sha256_fingerprint-bytes bytes size =
    let full : eqb (length bytes) 32 ≡ true = ground arith in rw full refl

-- A finished artifact: metadata that is not empty and a digest of 32 bytes in lower case.
pub record IsFinished (response : ArtifactMaterializationResponse) : Type 0 where
  pub staged_filename : response.staged_filename ≢ []
  pub byte_length : response.byte_length ≢ 0
  pub blob_format_version : response.blob_format_version ≢ 0
  pub digest : List ℕ
  pub whole : length digest ≡ 32
  pub bytes : All (λ b. b < 256) digest
  pub sha256 : response.sha256 ≡ utf8 "sha256:" ++ hex digest

is_unfinished-false :
    (filename : Text) (size version : ℕ)
    → filename ≢ []
    → size ≢ 0
    → version ≢ 0
    → is_unfinished filename size version ≡ false
unfolding is_unfinished
is_unfinished-false filename size version named nonempty versioned =
    rw (is_empty-false filename named) (ground arith)

pub decode-proto_materialization_response :
    (response : ArtifactMaterializationResponse)
    → IsFinished response
    → (proto_materialization_response response >>= decode_materialization_response) ≡ ok response
unfolding proto_materialization_response decode_materialization_response
decode-proto_materialization_response response finished =
    let guard =
      is_unfinished-false response.staged_filename response.byte_length response.blob_format_version
        finished.staged_filename finished.byte_length finished.blob_format_version in
    let wrote : fingerprint_bytes response.sha256 ≡ ok finished.digest =
      rw finished.sha256 (fingerprint_bytes-hex finished.digest finished.whole finished.bytes) in
    let read : sha256_fingerprint finished.digest ≡ ok response.sha256 =
      rw finished.sha256 (sha256_fingerprint-bytes finished.digest finished.whole) in
    rw (guard, wrote, guard, read) refl
