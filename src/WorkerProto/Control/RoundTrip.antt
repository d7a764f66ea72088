-- ===== src/WorkerProto/Control/RoundTrip.antt =====
-- Round trips of plans, batch requests and descriptors: Control and its adapters.
use kide.Base.{
  ◌≡◌, ◌≢◌, refl, sym, ap, Text, text_eq, ℕ_discrete, List, [], ◌∷◌, map, Option, none, some, All,
  false,
}
use kide.Base.Results.{Result, ok}
use kide.Canonical.{SourceUnit}
use kide.DependencyIdentity.{
  ArtifactDescriptor, SymbolLocator, ResolvedDependencyIdentity, new_identity,
}
use kide.DependencyIdentity.{artifact_blob_format_version}
use kide.Protocol.{OpaqueExecutionPlan, AnalyzeBatchRequest, AnalysisFact}
use kide.WorkerProto.Names.RoundTrip.{
  IsNamed, decode_language-proto_language, decode_source_origin-proto_source_origin,
}
use kide.WorkerProto.Wire.{AdapterError}
use kide.WorkerProto.Facts.{collect_results, encode_source_unit, decode_source_unit}
use kide.WorkerProto.Facts.RoundTrip.{decode_source_unit-encode_source_unit}
use kide.WorkerProto.Control.{
  is_empty, execution_plan, decode_execution_plan, analysis_fact_name, decode_analysis_fact,
  analyze_batch_request, decode_analyze_batch_request, ecosystem_of, coordinate_of, version_of,
  proto_locator, decode_locator, proto_descriptor, decode_identity, decode_descriptor,
}

-- Elements that come back one by one come back as a list.
pub collect_results-map :
    {A B : Type 0} (encode : A → B) (decode : B → Result A AdapterError) (Own : A → Type 0)
    → ((a : A) → Own a → decode (encode a) ≡ ok a)
    → (values : List A) → All Own values
    → collect_results decode (map encode values) ≡ ok values
unfolding collect_results
collect_results-map encode decode Own round [] own = refl
collect_results-map encode decode Own round (a ∷ values) (mine, own) =
    rw (round a mine, collect_results-map encode decode Own round values own) refl

pub is_empty-false : (text : Text) → text ≢ [] → is_empty text ≡ false
unfolding is_empty
is_empty-false [] n = absurd (n refl)
is_empty-false (c ∷ text) n = refl

pub record IsStated (plan : OpaqueExecutionPlan) : Type 0 where
  pub backend : plan.backend ≢ []
  pub resolved_fingerprint : plan.resolved_fingerprint ≢ []

pub decode_execution_plan-execution_plan :
    (plan : OpaqueExecutionPlan)
    → IsStated plan
    → decode_execution_plan (execution_plan plan) ≡ ok plan
unfolding decode_execution_plan execution_plan
decode_execution_plan-execution_plan plan stated =
    rw
      (
        is_empty-false plan.backend stated.backend,
        is_empty-false plan.resolved_fingerprint stated.resolved_fingerprint,
      )
      refl

decode_analysis_fact-analysis_fact_name :
    (fact : AnalysisFact) → decode_analysis_fact (analysis_fact_name fact) ≡ ok fact
unfolding decode_analysis_fact analysis_fact_name text_eq ℕ_discrete
decode_analysis_fact-analysis_fact_name AnalysisFact.symbols = refl
decode_analysis_fact-analysis_fact_name AnalysisFact.occurrences = refl
decode_analysis_fact-analysis_fact_name AnalysisFact.references = refl
decode_analysis_fact-analysis_fact_name AnalysisFact.calls = refl
decode_analysis_fact-analysis_fact_name AnalysisFact.hierarchy = refl
decode_analysis_fact-analysis_fact_name AnalysisFact.types = refl

pub trivially : {A : Type 0} (values : List A) → All (λ a. Unit {0}) values
trivially [] = tt
trivially (a ∷ values) = (tt, trivially values)

pub record IsSendable (request : AnalyzeBatchRequest) : Type 0 where
  pub source_units : All (λ unit. IsNamed unit.language) request.source_units
  pub execution_plan : IsStated request.execution_plan

pub decode_analyze_batch_request-analyze_batch_request :
    (request : AnalyzeBatchRequest)
    → IsSendable request
    → decode_analyze_batch_request (analyze_batch_request request) ≡ ok request
unfolding decode_analyze_batch_request analyze_batch_request
decode_analyze_batch_request-analyze_batch_request request sendable =
    let facts =
      collect_results-map analysis_fact_name decode_analysis_fact (λ (f : AnalysisFact). Unit {0})
        (λ f own. decode_analysis_fact-analysis_fact_name f) request.requested_facts
        (trivially request.requested_facts) in
    let units =
      collect_results-map encode_source_unit decode_source_unit
        (λ (unit : SourceUnit). IsNamed unit.language) decode_source_unit-encode_source_unit
        request.source_units sendable.source_units in
    rw
      (
        facts,
        units,
        decode_execution_plan-execution_plan request.execution_plan sendable.execution_plan,
      )
      refl

-- An identity that the descriptor's own fields determine, but for three of them.
pub data IsDerived (d : ArtifactDescriptor) : Option ResolvedDependencyIdentity → Type 0 where
  unattributed : IsDerived d none
  derived :
      {identity : ResolvedDependencyIdentity}
      → identity.ecosystem ≢ []
      → identity
        ≡ new_identity identity.ecosystem identity.canonical_coordinate identity.resolved_version
            d.source_unit.content d.source_unit.context d.provenance artifact_blob_format_version
      → IsDerived d (some identity)

locators_round :
    (locators : List SymbolLocator) → map decode_locator (map proto_locator locators) ≡ locators
unfolding decode_locator proto_locator
locators_round [] = refl
locators_round (l ∷ locators) = rw (locators_round locators)

pub record IsDescribed (d : ArtifactDescriptor) : Type 0 where
  pub language : IsNamed d.source_unit.language
  pub identity : IsDerived d d.resolved_identity

identity_round :
    (d : ArtifactDescriptor) {identity : Option ResolvedDependencyIdentity}
    → IsDerived d identity
    → decode_identity
        (record (proto_descriptor d) {
          ecosystem = ecosystem_of identity;
          canonical_coordinate = coordinate_of identity;
          resolved_version = version_of identity;
        })
        d.provenance
      ≡ identity
unfolding decode_identity ecosystem_of coordinate_of version_of proto_descriptor is_empty
identity_round d unattributed = refl
identity_round d (derived {identity} named same) =
    rw (is_empty-false identity.ecosystem named) (ap some (sym same))

pub decode_descriptor-proto_descriptor :
    (d : ArtifactDescriptor) → IsDescribed d → decode_descriptor (proto_descriptor d) ≡ ok d
unfolding decode_descriptor proto_descriptor
decode_descriptor-proto_descriptor d described =
    rw
      (
        decode_source_origin-proto_source_origin d.source_unit.origin,
        decode_language-proto_language described.language,
        locators_round d.symbol_locators,
        identity_round d described.identity,
      )
      refl
