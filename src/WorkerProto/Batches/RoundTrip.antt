-- ===== src/WorkerProto/Batches/RoundTrip.antt =====
-- Round trips of batches and deltas: Batches and its adapters.
use kide.Base.{◌≡◌, ◌≢◌, refl, text_eq, [], Option, none, some, All}
use kide.Base.Results.{ok, ◌>>=◌, chain_ok}
use kide.Protocol.{FileAnalysisSnapshot, AnalysisBatchResponse, ArtifactCandidate, AnalysisDelta}
use kide.WorkerProto.Snapshots.{file_analysis_snapshot, decode_file_analysis_snapshot}
use kide.WorkerProto.Snapshots.RoundTrip.{decode-file_analysis_snapshot}
use kide.WorkerProto.Control.RoundTrip.{collect_results-map, is_empty-false}
use kide.WorkerProto.Queries.RoundTrip.{IsCarried, snapshots_round}
use kide.WorkerProto.Batches.{
  artifact_candidate, decode_artifact_candidate, analysis_batch_response,
  decode_analysis_batch_response, transpose, proto_delta, decode_analysis_delta,
}

pub record IsLocated (candidate : ArtifactCandidate) : Type 0 where
  pub locator : candidate.locator ≢ []
  pub component : candidate.component ≢ []
  pub context : candidate.context ≢ []

candidate_round :
    (c : ArtifactCandidate) → IsLocated c → decode_artifact_candidate (artifact_candidate c) ≡ ok c
unfolding decode_artifact_candidate artifact_candidate
candidate_round c located =
    rw
      (
        is_empty-false c.locator located.locator,
        is_empty-false c.component located.component,
        is_empty-false c.context located.context,
      )
      refl

pub record IsWholeBatch (response : AnalysisBatchResponse) : Type 0 where
  pub snapshots : All IsCarried response.snapshots
  pub artifact_candidates : All IsLocated response.artifact_candidates

pub decode-analysis_batch_response :
    (response : AnalysisBatchResponse)
    → IsWholeBatch response
    → (analysis_batch_response response >>= decode_analysis_batch_response) ≡ ok response
unfolding analysis_batch_response decode_analysis_batch_response
decode-analysis_batch_response response whole =
    let (wires, wrote, read) = snapshots_round response.snapshots whole.snapshots in
    rw
      (
        wrote,
        read,
        collect_results-map artifact_candidate decode_artifact_candidate IsLocated candidate_round
            response.artifact_candidates whole.artifact_candidates,
      )
      refl

pub data IsCarriedIfAny : Option FileAnalysisSnapshot → Type 0 where
  absent : IsCarriedIfAny none
  present : {s : FileAnalysisSnapshot} → IsCarried s → IsCarriedIfAny (some s)

transpose_round :
    {snapshot : Option FileAnalysisSnapshot}
    → IsCarriedIfAny snapshot
    → (transpose file_analysis_snapshot snapshot >>= transpose decode_file_analysis_snapshot)
      ≡ ok snapshot
unfolding transpose
transpose_round absent = refl
transpose_round (present {s} carried) =
    let (wire, wrote, read) =
      chain_ok (file_analysis_snapshot s) decode_file_analysis_snapshot
        (decode-file_analysis_snapshot s carried.small carried.own) in
    rw (wrote, read) refl

pub decode-proto_delta :
    (delta : AnalysisDelta)
    → IsCarriedIfAny delta.snapshot
    → (proto_delta delta >>= decode_analysis_delta) ≡ ok delta
unfolding proto_delta decode_analysis_delta
decode-proto_delta delta carried =
    let (wire, wrote, read) =
      chain_ok (transpose file_analysis_snapshot delta.snapshot)
        (transpose decode_file_analysis_snapshot) (transpose_round carried) in
    rw (wrote, read) refl
