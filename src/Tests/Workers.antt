-- ===== src/Tests/Workers.antt =====
-- The selection of workers.
use kide.Base.{◌+◌, ◌≡◌, utf8, text_ord, List, [], ◌∷◌, arith, All, Bool, true, any, if◌then◌else◌}
use kide.Canonical.{SourceUnit, kotlin, gradle}
use kide.Protocol.WorkerCapability.{handshake, file_analysis_snapshot}
use kide.Protocol.{SemanticQueryCapability, normalized_facts}
use kide.WorkerRegistry.{DiscoveredWorker, select_discovered_with_batch_limit}
use kide.WorkerRegistry.Chunks.{count}
use kide.WorkerRegistry.Selected.{batched, left_over, selection_complete}
use kide.WorkerRegistry.Served.{IsServed, selection-IsServed}
use kide.WorkerRegistry.Negotiated.{PackageCapability, negotiate, negotiate_status, offers, names}
use kide.WorkerRegistry.Negotiated.{supported, missing, incompatible_version}
use kide.Tests.Samples.{unit_a, unit_b, manifest}

abbrev spring : SemanticQueryCapability
spring = record { name = utf8 "spring"; version = 2; parameters = []; result = normalized_facts }

abbrev k2_worker : DiscoveredWorker
k2_worker = record {
  installation = record { name = utf8 "k2"; build_systems = gradle ∷ [] };
  capabilities = record {
    identity = record { backend = utf8 "k2"; backend_version = utf8 "1" };
    protocol_version = 3;
    languages = kotlin ∷ [];
    capabilities = handshake ∷ file_analysis_snapshot ∷ [];
    semantic_query_capabilities = spring ∷ [];
  };
}

abbrev every : SourceUnit → Bool
every unit = true

abbrev units : List SourceUnit
units = unit_b ∷ unit_a ∷ []

selection_complete_example :
    count every
        (batched (select_discovered_with_batch_limit manifest units [] (k2_worker ∷ []) 1).batches)
      + count every (
          left_over
            (select_discovered_with_batch_limit manifest units [] (k2_worker ∷ []) 1).unsupported)
    ≡ count every units
selection_complete_example =
    selection_complete every manifest units [] (k2_worker ∷ []) 1 (omega arith)

selection-IsServed_example :
    All
      (IsServed manifest (file_analysis_snapshot ∷ []) 1)
      (select_discovered_with_batch_limit manifest units
        (file_analysis_snapshot ∷ [])
        (k2_worker ∷ [])
        1).batches
selection-IsServed_example =
    selection-IsServed manifest units (file_analysis_snapshot ∷ []) (k2_worker ∷ []) 1 (omega arith)

abbrev requirement : PackageCapability
requirement = record { name = utf8 "spring"; version = 2; required = true }

negotiate_status_example : (negotiate (k2_worker ∷ []) requirement).status ≡ (
    if any (offers (utf8 "spring") 2) (k2_worker ∷ [])
    then supported
    else if any (names (utf8 "spring")) (k2_worker ∷ [])
    then incompatible_version
    else missing)
negotiate_status_example = negotiate_status requirement (k2_worker ∷ [])
