-- ===== src/WorkerProto/Snapshots/Edges.antt =====
-- References and calls find their occurrence again.
use kide.Base.{ℕ, zero, suc, ◌+◌, ◌%◌, ◌^◌, ◌<◌, ◌≡◌, refl, List, [], ◌∷◌, some}
use kide.Base.{◌==◌, length, All, arith, inl, inr, Bool-cases}
use kide.Base.Results.{ok}
use kide.Canonical.{SourceOccurrence, ReferenceEdge, CallEdge}
use kide.WorkerProto.Wire.{WireReferenceEdge, WireCallEdge}
use kide.WorkerProto.Facts.{collect_results}
use kide.WorkerProto.Facts.RoundTrip.{}
use kide.WorkerProto.Relations.{
  get_at, decode_reference_edge, decode_call_edge, reference_edge, call_edge,
}
use kide.WorkerProto.Relations.RoundTrip.{
  decode_reference_edge-reference_edge, decode_call_edge-call_edge,
}
use kide.WorkerProto.Provenances.{position_from}
use kide.WorkerProto.Provenances.Interned.{get_at-lt, position_from-get_at}
use kide.WorkerProto.Snapshots.{
  source_occurrence_eq, to_u32, occurrence_index, index_reference, index_call,
}

-- The occurrence stands in the list.
abbrev pub IsAmong : List SourceOccurrence → SourceOccurrence → Type 0
IsAmong occurrences o = (k : ℕ) × (get_at occurrences k ≡ some o)

position_found :
    (place : ℕ) (o : SourceOccurrence) (occurrences : List SourceOccurrence) (k : ℕ)
    → get_at occurrences k ≡ some o
    → (i : ℕ) × (position_from place o occurrences ≡ some i)
unfolding position_from get_at
position_found place o [] k h = cc
position_found place o (x ∷ xs) zero h = (place, ground arith)
position_found place o (x ∷ xs) (suc k) h = elim (Bool-cases (x == o)) [
  | inl same ↦ (place, ground arith)
  | inr other ↦ let (i, found) = position_found (place + 1) o xs k h in (i, rw other found)
]

module _ (occurrences : List SourceOccurrence) (small : length occurrences < 2 ^ 32) where
  occurrence_index-get_at :
      (o : SourceOccurrence)
      → IsAmong occurrences o
      → (i : ℕ) × (occurrence_index occurrences o ≡ ok i) × (get_at occurrences i ≡ some o)
  unfolding occurrence_index to_u32
  occurrence_index-get_at o (k, there) =
      let (i, found) = position_found 0 o occurrences k there in
      let (j, at, held) = position_from-get_at 0 o occurrences found in
      let bound = get_at-lt occurrences j held in
      let place : i % 2 ^ 32 ≡ j = omega arith in
      (i % 2 ^ 32, rw (found, occurrence_index), rw place held)

  pub references_round :
      (edges : List ReferenceEdge)
      → All (λ edge. IsAmong occurrences edge.origin) edges
      → (wires : List WireReferenceEdge) × (collect_results (index_reference occurrences) edges
          ≡ ok wires)
        × (collect_results (decode_reference_edge occurrences) wires ≡ ok edges)
  unfolding collect_results index_reference
  references_round [] own = ([], refl, refl)
  references_round (edge ∷ edges) (mine, own) =
      let (i, indexed, held) = occurrence_index-get_at edge.origin mine in
      let (wires, wrote, read) = references_round edges own in
      let back = decode_reference_edge-reference_edge occurrences edge i held in
      (reference_edge edge i ∷ wires, rw (indexed, wrote), rw (back, read))

  pub calls_round :
      (edges : List CallEdge)
      → All (λ edge. IsAmong occurrences edge.origin) edges
      → (wires : List WireCallEdge) × (collect_results (index_call occurrences) edges ≡ ok wires)
        × (collect_results (decode_call_edge occurrences) wires ≡ ok edges)
  unfolding collect_results index_call
  calls_round [] own = ([], refl, refl)
  calls_round (edge ∷ edges) (mine, own) =
      let (i, indexed, held) = occurrence_index-get_at edge.origin mine in
      let (wires, wrote, read) = calls_round edges own in
      let back = decode_call_edge-call_edge occurrences edge i held in
      (call_edge edge i ∷ wires, rw (indexed, wrote), rw (back, read))
