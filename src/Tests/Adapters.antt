-- ===== src/Tests/Adapters.antt =====
-- A batch of one snapshot with two provenances, over the wire and back.
use kide.Base.{◌≡◌, refl, Text, ◌++◌, utf8, text_eq, [], ◌∷◌, none, some, arith}
use kide.Base.Results.{ok, err, ◌>>=◌}
use kide.Canonical.{
  Provenance, SymbolRecord, SymbolKind, SourceRange, SourceOccurrence, OccurrenceKind,
  ReferenceEdge, Freshness, Completeness, Precision, kotlin, ApplicationFact, ApplicationValue,
}
use kide.Protocol.{
  FileAnalysisSnapshot, AnalysisBatchResponse, ArtifactCandidate, WorkerMessage, WorkerEnvelope,
}
use kide.WorkerProto.Wire.{unsupported}
use kide.WorkerProto.Names.RoundTrip.{IsNamed}
use kide.WorkerProto.Facts.RoundTrip.{IsLosslessSymbol, IsLosslessApplication, IsWritable}
use kide.WorkerProto.Relations.{occurrence, decode_occurrence, get_at}
use kide.WorkerProto.Relations.RoundTrip.{IsLosslessOccurrence, IsReadable, type_reference_refused}
use kide.WorkerProto.Snapshots.{file_analysis_snapshot, decode_file_analysis_snapshot}
use kide.WorkerProto.Snapshots.RoundTrip.{IsLossless, decode-file_analysis_snapshot}
use kide.WorkerProto.Queries.RoundTrip.{IsCarried}
use kide.WorkerProto.Batches.RoundTrip.{IsLocated, IsWholeBatch}
use kide.WorkerProto.Envelope.{envelope, decode_envelope}
use kide.WorkerProto.Envelope.RoundTrip.{IsSent, decode-envelope}
use kide.Tests.Samples.{unit_a, provenance}

abbrev newer : Provenance
newer = record {
  backend = utf8 "k2";
  backend_version = utf8 "2";
  protocol_version = 3;
  analysis_options = utf8 "o";
}

abbrev range : SourceRange
range = record { source_unit = utf8 "a"; bytes = record { start = 4; end = 9 } }

abbrev symbol : SymbolRecord
symbol = record {
  id = utf8 "f";
  backend_key = record { backend = utf8 "k2"; schema_version = 1; value = utf8 "k" };
  language = kotlin;
  kind = SymbolKind.function;
  name = utf8 "f";
  qualified_name = some (utf8 "p.f");
  signature = none;
  component = utf8 "app";
  declaration = range;
  name_range = range;
  owner = none;
  modifiers = [];
  applied_symbols = [];
  freshness = Freshness.fresh;
  completeness = Completeness.complete;
  provenance = newer;
}

abbrev annotation : ApplicationFact
annotation = record {
  id = utf8 "x";
  subject = utf8 "f";
  target = utf8 "Test";
  range = range;
  arguments =
      record { name = none; position = 0; value = ApplicationValue.string_list (utf8 "slow" ∷ []) }
      ∷ [];
  precision = Precision.exact;
  freshness = Freshness.fresh;
  completeness = Completeness.complete;
  provenance = newer;
}

abbrev use_of : OccurrenceKind → SourceOccurrence
use_of kind = record {
  range = range;
  kind = kind;
  enclosing_symbol = none;
  target = some (utf8 "f");
  type_id = none;
  precision = Precision.exact;
  freshness = Freshness.fresh;
  completeness = Completeness.complete;
  provenance = provenance;
}

abbrev edge : ReferenceEdge
edge = record {
  origin = use_of OccurrenceKind.call;
  target = utf8 "f";
  precision = Precision.exact;
}

abbrev snapshot : FileAnalysisSnapshot
snapshot = record {
  source_unit = unit_a;
  structural_fingerprint = none;
  public_api_fingerprint = some (utf8 "api");
  symbols = symbol ∷ [];
  applications = annotation ∷ [];
  occurrences = use_of OccurrenceKind.call ∷ [];
  references = edge ∷ [];
  calls = [];
  hierarchy = [];
  types = [];
  diagnostics = [];
  completeness = Completeness.complete;
  provenance = provenance;
}

symbol-IsLosslessSymbol : IsLosslessSymbol unit_a symbol
symbol-IsLosslessSymbol = record {
  language = IsNamed.kotlin;
  backend = refl;
  declaration = refl;
  name_range = refl;
}

annotation-IsLosslessApplication : IsLosslessApplication unit_a annotation
annotation-IsLosslessApplication = record {
  range = refl;
  arguments = (IsWritable.string_list (utf8 "slow") [], tt);
}

use_of-IsLosslessOccurrence : IsLosslessOccurrence unit_a (use_of OccurrenceKind.call)
use_of-IsLosslessOccurrence = record { range = refl; kind = IsReadable.call }

first_found : get_at (use_of OccurrenceKind.call ∷ []) 0 ≡ some (use_of OccurrenceKind.call)
unfolding get_at
first_found = refl

snapshot-IsLossless : IsLossless snapshot
snapshot-IsLossless = record {
  language = IsNamed.kotlin;
  symbols = (symbol-IsLosslessSymbol, tt);
  applications = (annotation-IsLosslessApplication, tt);
  occurrences = (use_of-IsLosslessOccurrence, tt);
  references = ((0, first_found), tt);
  calls = tt;
  types = tt;
  diagnostics = tt;
}

decode-file_analysis_snapshot_example :
    (file_analysis_snapshot snapshot >>= decode_file_analysis_snapshot) ≡ ok snapshot
decode-file_analysis_snapshot_example =
    decode-file_analysis_snapshot snapshot (omega arith) snapshot-IsLossless

type_reference_refused_example :
    decode_occurrence unit_a
      (record (occurrence (use_of OccurrenceKind.type_reference)) { provenance_index = 1 })
      newer
    ≡ err (unsupported (utf8 "occurrence kind " ++ utf8 "typereference"))
type_reference_refused_example =
    type_reference_refused unit_a (use_of OccurrenceKind.type_reference) 1 newer refl

abbrev quoted : Text → Text
quoted name = 34 ∷ (name ++ (34 ∷ []))

abbrev candidate : ArtifactCandidate
candidate = record { locator = utf8 "lib.jar"; component = utf8 "app"; context = utf8 "c" }

abbrev batch : AnalysisBatchResponse
batch = record {
  snapshots = snapshot ∷ [];
  timings = record { phase = utf8 "analyze"; elapsed_millis = 12 } ∷ [];
  artifact_candidates = candidate ∷ [];
  metrics = record { name = utf8 "files"; value = 1 } ∷ [];
}

abbrev answer : WorkerEnvelope
answer = record {
  protocol_version = 3;
  request_id = utf8 "r7";
  message = WorkerMessage.analysis_batch_response batch;
}

snapshot-IsCarried : IsCarried snapshot
snapshot-IsCarried = record { own = snapshot-IsLossless; small = omega arith }

candidate-IsLocated : IsLocated candidate
candidate-IsLocated = record { locator = cc; component = cc; context = cc }

batch-IsWholeBatch : IsWholeBatch batch
batch-IsWholeBatch = record {
  snapshots = (snapshot-IsCarried, tt);
  artifact_candidates = (candidate-IsLocated, tt);
}

decode-envelope_example : (envelope quoted answer >>= decode_envelope) ≡ ok answer
decode-envelope_example =
    decode-envelope quoted answer (IsSent.analysis_batch_response batch-IsWholeBatch)
