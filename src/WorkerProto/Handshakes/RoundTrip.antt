-- ===== src/WorkerProto/Handshakes/RoundTrip.antt =====
-- Round trips of the handshake and errors: Handshakes and its adapters.
use kide.Base.{◌≡◌, refl, text_eq, List, [], ◌∷◌, map, All}
use kide.Base.Results.{ok}
use kide.Canonical.{Language}
use kide.Protocol.{WorkerCapability, HandshakeResponse, WorkerError}
use kide.WorkerProto.Names.{proto_language, decode_language}
use kide.WorkerProto.Names.RoundTrip.{IsNamed, decode_language-proto_language}
use kide.WorkerProto.Control.RoundTrip.{collect_results-map, trivially}
use kide.WorkerProto.Codes.{worker_capability, decode_worker_capability}
use kide.WorkerProto.Codes.RoundTrip.{
  decode_worker_capability-worker_capability, decode_worker_error_code-worker_error_code,
}
use kide.WorkerProto.Queries.{semantic_query_capability, decode_semantic_query_capability}
use kide.WorkerProto.Queries.RoundTrip.{IsOffered, capability_round}
use kide.WorkerProto.Handshakes.{
  proto_handshake_response, decode_handshake_response, proto_worker_error, decode_worker_error,
}

pub languages_round :
    (languages : List Language)
    → All IsNamed languages
    → map decode_language (map proto_language languages) ≡ languages
languages_round [] named = refl
languages_round (l ∷ languages) (mine, named) =
    rw (decode_language-proto_language mine, languages_round languages named)

pub record IsOffer (response : HandshakeResponse) : Type 0 where
  pub languages : All IsNamed response.capabilities.languages
  pub queries : All IsOffered response.capabilities.semantic_query_capabilities

pub decode_handshake_response-proto_handshake_response :
    (response : HandshakeResponse)
    → IsOffer response
    → decode_handshake_response (proto_handshake_response response) ≡ ok response
unfolding decode_handshake_response proto_handshake_response
decode_handshake_response-proto_handshake_response response offer =
    let c = response.capabilities in
    rw
      (
        collect_results-map worker_capability decode_worker_capability
            (λ (x : WorkerCapability). Unit {0})
            (λ x own. decode_worker_capability-worker_capability x)
            response.capabilities.capabilities (trivially response.capabilities.capabilities),
        collect_results-map semantic_query_capability decode_semantic_query_capability IsOffered
            capability_round response.capabilities.semantic_query_capabilities offer.queries,
        languages_round response.capabilities.languages offer.languages,
      )
      refl

pub decode_worker_error-proto_worker_error :
    (e : WorkerError) → decode_worker_error (proto_worker_error e) ≡ ok e
unfolding decode_worker_error proto_worker_error
decode_worker_error-proto_worker_error e =
    rw (decode_worker_error_code-worker_error_code e.code) refl
