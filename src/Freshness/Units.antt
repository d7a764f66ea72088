-- ===== src/Freshness/Units.antt =====
-- What `plan_invalidation` decides for each source unit.
use kide.Base.{◌≡◌, refl, ◌↔◌, List, [], ◌∷◌, Option, none, some}
use kide.Base.{arith, text_eq, text_ord, Text}
use kide.Canonical.{SourceUnit, SourceUnitId}
use kide.TreeMap.Diff.{last_by, index_by-canonical}
use kide.TreeMap.Diff.{get-index_by, index_by-IsSorted, index_by-IsKeyed}
use kide.TreeMap.Diff.Exactly.{actions_at, expected_at, diff_at}
use kide.Freshness.{IndexAction, reuse, reanalyze, remove, unit_action, remove_unit, unit_id}
use kide.Freshness.{plan_invalidation}

-- The unit that an action is about.
abbrev pub action_id : IndexAction → SourceUnitId
action_id (reuse unit) = unit.id
action_id (reanalyze unit reason) = unit.id
action_id (remove id) = id

unit_action-id :
    (k : Text) (unit : SourceUnit) (previous : Option SourceUnit)
    → unit.id ≡ k
    → action_id (unit_action k unit previous) ≡ k
unfolding unit_action
unit_action-id k unit none h = h
unit_action-id k unit (some previous) h = ground arith

remove_unit-id : (k : Text) (unit : SourceUnit) → unit.id ≡ k → action_id (remove_unit k unit) ≡ k
unfolding remove_unit
remove_unit-id k unit h = refl

-- The plan has exactly one action for a unit that is current or persisted: `unit_action` of the
-- last current unit of that id beside the last persisted one, or its removal if it is not
-- current. It has none for any other id.
pub plan_invalidation_at :
    (id : SourceUnitId) (current persisted : List SourceUnit)
    → actions_at action_id id (plan_invalidation current persisted)
      ≡ expected_at unit_action remove_unit id
          (last_by unit_id id current)
          (last_by unit_id id persisted)
unfolding plan_invalidation
plan_invalidation_at id current persisted =
    rw (← get-index_by unit_id id current, ← get-index_by unit_id id persisted)
      (diff_at unit_action remove_unit unit_id unit_id action_id unit_action-id remove_unit-id id _
        _ (index_by-IsKeyed unit_id current) (index_by-IsSorted unit_id current)
        (index_by-IsKeyed unit_id persisted) (index_by-IsSorted unit_id persisted))

-- A persisted snapshot was taken of the same content in the same context.
pub record SameInputs (previous unit : SourceUnit) : Type 0 where
  pub content : previous.content ≡ unit.content
  pub context : previous.context ≡ unit.context

expected-reuse :
    (id : SourceUnitId) (c p : Option SourceUnit) (unit : SourceUnit)
    → expected_at unit_action remove_unit id c p ≡ reuse unit ∷ []
    → (c ≡ some unit) × ((previous : SourceUnit) × (p ≡ some previous) × SameInputs previous unit)
unfolding unit_action remove_unit
expected-reuse id none none unit h = cc
expected-reuse id none (some p) unit h = cc
expected-reuse id (some c) none unit h = cc
expected-reuse id (some c) (some p) unit h =
    (ground arith, (p, refl, record { content = ground arith; context = ground arith }))

reuse-expected :
    (id : SourceUnitId) (previous unit : SourceUnit)
    → SameInputs previous unit
    → expected_at unit_action remove_unit id (some unit) (some previous) ≡ reuse unit ∷ []
unfolding unit_action
reuse-expected id previous unit same = ground arith

-- A unit is planned for reuse exactly when it is current, its id is persisted, and the persisted
-- snapshot was taken of the same content in the same context.
pub reuse_iff :
    (current persisted : List SourceUnit) (id : SourceUnitId) (unit : SourceUnit)
    → (actions_at action_id id (plan_invalidation current persisted) ≡ reuse unit ∷ []) ↔ (
        (last_by unit_id id current ≡ some unit)
        × ((previous : SourceUnit) × (last_by unit_id id persisted ≡ some previous)
            × SameInputs previous unit))
reuse_iff current persisted id unit = (
  λ h. expected-reuse id _ _ unit (rw plan_invalidation_at at h),
  λ (c, (previous, p, same)).
      rw (plan_invalidation_at, c, p) (reuse-expected id previous unit same),
)

-- The plan depends only on the last entry of each id: neither the order of the units nor an
-- overwritten duplicate changes it.
pub plan_invalidation_canonical :
    (current current' persisted persisted' : List SourceUnit)
    → ((id : SourceUnitId) → last_by unit_id id current ≡ last_by unit_id id current')
    → ((id : SourceUnitId) → last_by unit_id id persisted ≡ last_by unit_id id persisted')
    → plan_invalidation current persisted ≡ plan_invalidation current' persisted'
unfolding plan_invalidation
plan_invalidation_canonical current current' persisted persisted' h k =
    rw (index_by-canonical unit_id current current' h)
      (rw (index_by-canonical unit_id persisted persisted' k))

-- Planning again over what was just persisted reuses every unit and does nothing else.
pub plan_invalidation_again :
    (units : List SourceUnit) (id : SourceUnitId)
    → actions_at action_id id (plan_invalidation units units)
      ≡ elim (last_by unit_id id units) [ none ↦ [] | some unit ↦ reuse unit ∷ [] ]
plan_invalidation_again units id = rw plan_invalidation_at (again (last_by unit_id id units))
  where
    again :
        (c : Option SourceUnit)
        → expected_at unit_action remove_unit id c c
          ≡ elim c [ none ↦ [] | some unit ↦ reuse unit ∷ [] ]
    again none = refl
    again (some unit) = reuse-expected id unit unit (record { content = refl; context = refl })
