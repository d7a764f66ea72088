-- ===== src/Freshness/Inputs.antt =====
-- What `plan_analysis_invalidation` decides for each input, and how it refines `plan_invalidation`.
use kide.Base.{◌≡◌, refl, subst, ◌∙◌, ap, ◌↔◌, List, [], ◌∷◌, Option, none, some}
use kide.Base.{arith, text_eq, text_ord, nat_eq, map, Text}
use kide.Canonical.{SourceUnit, SourceUnitId, Provenance}
use kide.TreeMap.Diff.{last_by, get-index_by, index_by-IsSorted}
use kide.TreeMap.Diff.{index_by-IsKeyed}
use kide.TreeMap.Diff.Exactly.{actions_at, expected_at, diff_at}
use kide.Freshness.{reuse, AnalysisInput, input_action, remove_input}
use kide.Freshness.{input_id, unit_id, invalidation_reason, plan_analysis_invalidation}
use kide.Freshness.{plan_invalidation}
use kide.Freshness.Units.{action_id, SameInputs, reuse_iff}

input_action-id :
    (k : Text) (input : AnalysisInput) (previous : Option AnalysisInput)
    → input.source_unit.id ≡ k
    → action_id (input_action k input previous) ≡ k
unfolding input_action
input_action-id k input previous h = ground arith

remove_input-id :
    (k : Text) (input : AnalysisInput) → input_id input ≡ k → action_id (remove_input k input) ≡ k
unfolding remove_input
remove_input-id k input h = refl

-- The plan has exactly one action for an input that is current or persisted: `input_action` of
-- the last current input of that id beside the last persisted one, or its removal if it is not
-- current. It has none for any other id.
pub plan_analysis_invalidation_at :
    (id : SourceUnitId) (current persisted : List AnalysisInput)
    → actions_at action_id id (plan_analysis_invalidation current persisted)
      ≡ expected_at input_action remove_input id
          (last_by input_id id current)
          (last_by input_id id persisted)
unfolding plan_analysis_invalidation
plan_analysis_invalidation_at id current persisted =
    rw (← get-index_by input_id id current, ← get-index_by input_id id persisted)
      (diff_at input_action remove_input input_id input_id action_id input_action-id remove_input-id
        id _ _ (index_by-IsKeyed input_id current) (index_by-IsSorted input_id current)
        (index_by-IsKeyed input_id persisted) (index_by-IsSorted input_id persisted))

-- The same source inputs, analysed by the same backend under the same options.
pub record SameAnalysis (previous input : AnalysisInput) : Type 0 where
  pub inputs : SameInputs previous.source_unit input.source_unit
  pub provenance : previous.provenance ≡ input.provenance

provenance-eq :
    (a b : Provenance)
    → a.backend ≡ b.backend
    → a.backend_version ≡ b.backend_version
    → a.protocol_version ≡ b.protocol_version
    → a.analysis_options ≡ b.analysis_options
    → a ≡ b
provenance-eq a b p q r s = λ i. record {
  backend = p i;
  backend_version = q i;
  protocol_version = r i;
  analysis_options = s i;
}

invalidation_reason-none :
    (previous input : AnalysisInput)
    → invalidation_reason input (some previous) ≡ none
    → SameAnalysis previous input
unfolding invalidation_reason
invalidation_reason-none previous input h = record {
  inputs = record { content = ground arith; context = ground arith };
  provenance = provenance-eq _ _ (ground arith) (ground arith) (ground arith) (ground arith);
}

invalidation_reason_same :
    (previous input : AnalysisInput)
    → SameAnalysis previous input
    → invalidation_reason input (some previous) ≡ none
unfolding invalidation_reason
invalidation_reason_same previous input same =
    let backend = ap (λ (p : Provenance). p.backend) same.provenance in
    let version = ap (λ (p : Provenance). p.backend_version) same.provenance in
    let protocol = ap (λ (p : Provenance). p.protocol_version) same.provenance in
    let options = ap (λ (p : Provenance). p.analysis_options) same.provenance in
    ground (arith, backend, version, protocol, options)

expected-reuse_input :
    (id : SourceUnitId) (c p : Option AnalysisInput) (unit : SourceUnit)
    → expected_at input_action remove_input id c p ≡ reuse unit ∷ []
    → (input : AnalysisInput) × (c ≡ some input)
      × (input.source_unit ≡ unit)
      × ((previous : AnalysisInput) × (p ≡ some previous) × SameAnalysis previous input)
unfolding input_action remove_input
expected-reuse_input id none none unit h = cc
expected-reuse_input id none (some p) unit h = cc
expected-reuse_input id (some c) none unit h = unfold invalidation_reason in cc
expected-reuse_input id (some c) (some p) unit h =
    (c, refl, ground arith, (p, refl, invalidation_reason-none p c (ground arith)))

reuse_input-expected :
    (id : SourceUnitId) (previous input : AnalysisInput)
    → SameAnalysis previous input
    → expected_at input_action remove_input id (some input) (some previous)
      ≡ reuse input.source_unit ∷ []
unfolding input_action
reuse_input-expected id previous input same =
    rw (invalidation_reason_same previous input same, input_action)

-- A unit is planned for reuse exactly when it is the unit of a current input whose id is
-- persisted, with the same content and context and with the same provenance.
pub reuse_input_iff :
    (current persisted : List AnalysisInput) (id : SourceUnitId) (unit : SourceUnit)
    → (actions_at action_id id (plan_analysis_invalidation current persisted) ≡ reuse unit ∷ []) ↔ (
        (input : AnalysisInput) × (last_by input_id id current ≡ some input)
        × (input.source_unit ≡ unit)
        × ((previous : AnalysisInput) × (last_by input_id id persisted ≡ some previous)
            × SameAnalysis previous input))
reuse_input_iff current persisted id unit = (
  λ h. expected-reuse_input id _ _ unit (rw plan_analysis_invalidation_at at h),
  λ (input, c, e, (previous, p, same)).
      rw (plan_analysis_invalidation_at, c, p) (reuse_input-expected id previous input same ∙ rw e),
)

abbrev pub units_of : List AnalysisInput → List SourceUnit
units_of = map (λ input. input.source_unit)

last_by-units_of :
    (id : SourceUnitId) (inputs : List AnalysisInput) {input : AnalysisInput}
    → last_by input_id id inputs ≡ some input
    → last_by unit_id id (units_of inputs) ≡ some input.source_unit
last_by-units_of id inputs {input} h = go inputs ∙ rw h
  where
    go :
        (inputs : List AnalysisInput)
        → last_by unit_id id (units_of inputs)
          ≡ elim (last_by input_id id inputs) [ none ↦ none | some i ↦ some i.source_unit ]
    go [] = refl
    go (i ∷ inputs) = ground (arith, go inputs)

-- The check of the worker only adds invalidations: what it lets stand is also reused by the plan
-- over the source units alone.
pub analysis_refines_units :
    (current persisted : List AnalysisInput) (id : SourceUnitId) (unit : SourceUnit)
    → actions_at action_id id (plan_analysis_invalidation current persisted) ≡ reuse unit ∷ []
    → actions_at action_id id (plan_invalidation (units_of current) (units_of persisted))
      ≡ reuse unit ∷ []
analysis_refines_units current persisted id unit h =
    let (input, c, e, (previous, p, same)) = (reuse_input_iff current persisted id unit).0 h in
    (reuse_iff (units_of current) (units_of persisted) id unit).1 (
      last_by-units_of id current c ∙ ap some e,
      (
        previous.source_unit,
        last_by-units_of id persisted p,
        subst (λ u. SameInputs previous.source_unit u) e same.inputs,
      ),
    )
