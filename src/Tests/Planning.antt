-- ===== src/Tests/Planning.antt =====
-- Freshness and the incremental plan.
use kide.Base.{arith, ◌≡◌, refl, ◌↔◌, utf8, text_eq, text_ord, List, [], ◌∷◌, some, false}
use kide.Base.{option_eq, ℕ_discrete, nat_eq}
use kide.TreeMap.{get, contains_key}
use kide.Canonical.{SourceUnit, SourceUnitId}
use kide.DependencyIdentity.{ArtifactDescriptor, identity_eq}
use kide.Freshness.{AnalysisInput, reuse, input_id, unit_id}
use kide.Freshness.{input_action, remove_input, unit_action, remove_unit}
use kide.Freshness.{plan_invalidation, plan_analysis_invalidation}
use kide.Freshness.Units.{action_id, SameInputs, plan_invalidation_at, reuse_iff}
use kide.Freshness.Inputs.{SameAnalysis, plan_analysis_invalidation_at, reuse_input_iff}
use kide.Freshness.Inputs.{units_of, analysis_refines_units}
use kide.IncrementalPlan.{ManifestAction, plan_with_source_actions, plan_incremental_index}
use kide.IncrementalPlan.{cache_hit, descriptor_id}
use kide.IncrementalPlan.{requires_source_worker}
use kide.IncrementalPlan.Dependencies.{dependency_id, IsWarm, cache_hit_iff}
use kide.IncrementalPlan.Sources.{no_worker_sound, no_worker_complete}
use kide.TreeMap.Diff.{last_by}
use kide.TreeMap.Diff.Exactly.{actions_at, expected_at}
use kide.Tests.Samples.{unit_a, unit_b, input_of, descriptor, always}

abbrev inputs : List AnalysisInput
inputs = input_of unit_a ∷ input_of unit_b ∷ []

abbrev units : List SourceUnit
units = unit_a ∷ unit_b ∷ []

abbrev descriptors : List ArtifactDescriptor
descriptors = descriptor ∷ []

reuse_input_iff_example :
    (actions_at action_id (utf8 "a") (plan_analysis_invalidation inputs inputs) ≡ reuse unit_a ∷ [])
    ↔ ((input : AnalysisInput) × (last_by input_id (utf8 "a") inputs ≡ some input)
        × (input.source_unit ≡ unit_a)
        × ((previous : AnalysisInput) × (last_by input_id (utf8 "a") inputs ≡ some previous)
            × SameAnalysis previous input))
reuse_input_iff_example = reuse_input_iff inputs inputs (utf8 "a") unit_a

plan_analysis_invalidation_at_example :
    actions_at action_id (utf8 "b") (plan_analysis_invalidation inputs (input_of unit_a ∷ []))
    ≡ expected_at input_action remove_input
        (utf8 "b")
        (last_by input_id (utf8 "b") inputs)
        (last_by input_id (utf8 "b") (input_of unit_a ∷ []))
plan_analysis_invalidation_at_example =
    plan_analysis_invalidation_at (utf8 "b") inputs (input_of unit_a ∷ [])

plan_invalidation_at_example :
    actions_at action_id (utf8 "b") (plan_invalidation (unit_a ∷ []) units)
    ≡ expected_at unit_action remove_unit
        (utf8 "b")
        (last_by unit_id (utf8 "b") (unit_a ∷ []))
        (last_by unit_id (utf8 "b") units)
plan_invalidation_at_example = plan_invalidation_at (utf8 "b") (unit_a ∷ []) units

reuse_iff_example :
    (actions_at action_id (utf8 "a") (plan_invalidation units units) ≡ reuse unit_a ∷ []) ↔ (
      (last_by unit_id (utf8 "a") units ≡ some unit_a)
      × ((previous : SourceUnit) × (last_by unit_id (utf8 "a") units ≡ some previous)
          × SameInputs previous unit_a))
reuse_iff_example = reuse_iff units units (utf8 "a") unit_a

-- An overwritten entry before the units.
abbrev old_a : SourceUnit
old_a = record {
  id = unit_a.id;
  component = unit_a.component;
  path = unit_a.path;
  language = unit_a.language;
  origin = unit_a.origin;
  content = utf8 "c0";
  context = unit_a.context;
}

overwritten : (q : SourceUnitId) → last_by unit_id q (old_a ∷ units) ≡ last_by unit_id q units
overwritten q = ground arith

unchanged : (q : SourceUnitId) → last_by unit_id q units ≡ last_by unit_id q units
unchanged q = refl

reused_a :
    actions_at action_id (utf8 "a") (plan_analysis_invalidation inputs inputs) ≡ reuse unit_a ∷ []
unfolding plan_analysis_invalidation text_eq text_ord get ℕ_discrete nat_eq contains_key
reused_a = refl

analysis_refines_units_example :
    actions_at action_id (utf8 "a") (plan_invalidation (units_of inputs) (units_of inputs))
    ≡ reuse unit_a ∷ []
analysis_refines_units_example = analysis_refines_units inputs inputs (utf8 "a") unit_a reused_a

cache_hit_iff_example :
    (actions_at dependency_id
        (utf8 "a")
        (plan_with_source_actions always ManifestAction.reuse [] descriptors
          descriptors).dependencies
      ≡ cache_hit descriptor ∷ [])
    ↔ ((last_by descriptor_id (utf8 "a") descriptors ≡ some descriptor)
        × ((previous : ArtifactDescriptor) × (last_by descriptor_id (utf8 "a") descriptors
              ≡ some previous)
            × IsWarm always previous descriptor))
cache_hit_iff_example =
    cache_hit_iff always ManifestAction.reuse [] descriptors descriptors (utf8 "a") descriptor

persisted_same :
    (id : SourceUnitId) (unit : SourceUnit)
    → last_by unit_id id units ≡ some unit
    → (previous : SourceUnit) × (last_by unit_id id units ≡ some previous)
      × SameInputs previous unit
persisted_same id unit h = (unit, h, record { content = refl; context = refl })

idle :
    requires_source_worker
      (plan_incremental_index always ManifestAction.reuse units units descriptors [])
    ≡ false
unfolding plan_incremental_index requires_source_worker text_ord get text_eq ℕ_discrete contains_key
idle = refl

found_b : last_by unit_id (utf8 "b") units ≡ some unit_b
unfolding text_ord
found_b = refl

no_worker_sound_example :
    (previous : SourceUnit) × (last_by unit_id (utf8 "b") units ≡ some previous)
    × SameInputs previous unit_b
no_worker_sound_example =
    no_worker_sound always ManifestAction.reuse units units descriptors [] (utf8 "b") unit_b idle
      found_b

no_worker_complete_example :
    requires_source_worker
      (plan_incremental_index always ManifestAction.reuse units units descriptors [])
    ≡ false
no_worker_complete_example =
    no_worker_complete always ManifestAction.reuse units units descriptors [] persisted_same
