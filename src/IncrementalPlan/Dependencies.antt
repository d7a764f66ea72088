-- ===== src/IncrementalPlan/Dependencies.antt =====
-- What the plan decides for each dependency artifact.
use kide.Base.{◌≡◌, refl, ap, ◌∙◌, ◌↔◌, Bool, true, ◌&&◌, ◌==◌, List, [], ◌∷◌, Option, none, some}
use kide.Base.{arith, text_ord, Text, if◌then◌else◌, retain}
use kide.Canonical.{SourceUnitId}
use kide.DependencyIdentity.{ArtifactDescriptor, ArtifactBlobKey, resolved_identity, for_descriptor}
use kide.DependencyIdentity.{identity_eq}
use kide.Freshness.{IndexAction}
use kide.TreeMap.Diff.{last_by, get-index_by, index_by-IsSorted, index_by-IsKeyed}
use kide.TreeMap.Diff.Exactly.{same, actions_at, expected_at, diff_at}
use kide.IncrementalPlan.{ManifestAction, DependencyAction, cache_hit, cache_miss, removed}
use kide.IncrementalPlan.{dependency_action, remove_descriptor, descriptor_id, misses_of}
use kide.IncrementalPlan.{dependency_misses, plan_with_source_actions}

-- The artifact that an action is about.
abbrev pub dependency_id : DependencyAction → SourceUnitId
dependency_id (cache_hit d) = d.source_unit.id
dependency_id (cache_miss d) = d.source_unit.id
dependency_id (removed d) = d.source_unit.id

dependency_action-id :
    (available : ArtifactBlobKey → Bool) (k : Text) (d : ArtifactDescriptor)
    (previous : Option ArtifactDescriptor)
    → descriptor_id d ≡ k
    → dependency_id (dependency_action available k d previous) ≡ k
unfolding dependency_action
dependency_action-id available k d none h = h
dependency_action-id available k d (some previous) h = ground arith

remove_descriptor-id :
    (k : Text) (d : ArtifactDescriptor)
    → descriptor_id d ≡ k
    → dependency_id (remove_descriptor k d) ≡ k
unfolding remove_descriptor
remove_descriptor-id k d h = h

module _ (available : ArtifactBlobKey → Bool) (manifest : ManifestAction)
    (sources : List IndexAction) (current persisted : List ArtifactDescriptor)
    (id : SourceUnitId) where
  -- The plan has exactly one action for a dependency that is current or persisted, whatever is
  -- planned for the sources: `dependency_action` of the last current descriptor of that id, or the
  -- removal of the last persisted one if it is not current. It has none for any other id.
  pub dependencies_at :
      actions_at dependency_id id
        (plan_with_source_actions available manifest sources current persisted).dependencies
      ≡ expected_at
          (dependency_action available)
          remove_descriptor
          id
          (last_by descriptor_id id current)
          (last_by descriptor_id id persisted)
  unfolding plan_with_source_actions
  dependencies_at =
      rw (← get-index_by descriptor_id id current, ← get-index_by descriptor_id id persisted)
        (diff_at (dependency_action available) remove_descriptor descriptor_id descriptor_id
          dependency_id (dependency_action-id available) remove_descriptor-id id _ _
          (index_by-IsKeyed descriptor_id current) (index_by-IsSorted descriptor_id current)
          (index_by-IsKeyed descriptor_id persisted) (index_by-IsSorted descriptor_id persisted))

-- A persisted descriptor has the same full identity and its blob is in the cache.
pub record IsWarm (available : ArtifactBlobKey → Bool) (previous d : ArtifactDescriptor)
    : Type 0 where
  pub identity : resolved_identity previous ≡ resolved_identity d
  pub blob : available (for_descriptor d) ≡ true

module _ (available : ArtifactBlobKey → Bool) where
  hit_expected :
      (id : SourceUnitId) (c p : Option ArtifactDescriptor) (d : ArtifactDescriptor)
      → expected_at (dependency_action available) remove_descriptor id c p ≡ cache_hit d ∷ []
      → (c ≡ some d)
        × ((previous : ArtifactDescriptor) × (p ≡ some previous) × IsWarm available previous d)
  unfolding dependency_action remove_descriptor for_descriptor
  hit_expected id none none d h = cc
  hit_expected id none (some p) d h = cc
  hit_expected id (some c) none d h = cc
  hit_expected id (some c) (some p) d h =
      (ground arith, (p, refl, record { identity = ground arith; blob = ground arith }))

  expected_hit :
      (id : SourceUnitId) (previous d : ArtifactDescriptor)
      → IsWarm available previous d
      → expected_at (dependency_action available) remove_descriptor id (some d) (some previous)
        ≡ cache_hit d ∷ []
  unfolding dependency_action for_descriptor
  expected_hit id previous d warm = ground arith

  -- A dependency is a cache hit exactly when it is current, its id is persisted with the same full
  -- identity, and the blob of that identity is available.
  pub cache_hit_iff :
      (manifest : ManifestAction) (sources : List IndexAction)
      (current persisted : List ArtifactDescriptor) (id : SourceUnitId) (d : ArtifactDescriptor)
      → (actions_at dependency_id id
            (plan_with_source_actions available manifest sources current persisted).dependencies
          ≡ cache_hit d ∷ [])
        ↔ ((last_by descriptor_id id current ≡ some d)
            × ((previous : ArtifactDescriptor) × (last_by descriptor_id id persisted
                  ≡ some previous)
                × IsWarm available previous d))
  cache_hit_iff manifest sources current persisted id d = (
    λ h. hit_expected id _ _ d (rw dependencies_at at h),
    λ (c, (previous, p, warm)). rw (dependencies_at, c, p) (expected_hit id previous d warm),
  )

misses_of-actions_at :
    (id : SourceUnitId) (actions : List DependencyAction)
    → retain (λ d. same id (descriptor_id d)) (misses_of actions)
      ≡ misses_of (actions_at dependency_id id actions)
unfolding misses_of
misses_of-actions_at id [] = refl
misses_of-actions_at id (cache_hit d ∷ actions) = ground (arith, misses_of-actions_at id actions)
misses_of-actions_at id (cache_miss d ∷ actions) = ground (arith, misses_of-actions_at id actions)
misses_of-actions_at id (removed d ∷ actions) = ground (arith, misses_of-actions_at id actions)

-- The misses list a current dependency once if it is no cache hit, and not at all if it is one; a
-- dependency that is not current is never among them.
pub dependency_misses_at :
    (available : ArtifactBlobKey → Bool) (manifest : ManifestAction) (sources : List IndexAction)
    (current persisted : List ArtifactDescriptor) (id : SourceUnitId)
    → retain
        (λ d. same id (descriptor_id d))
        (dependency_misses (plan_with_source_actions available manifest sources current persisted))
      ≡ elim (last_by descriptor_id id current) [
        | none ↦ []
        | some d ↦ elim (last_by descriptor_id id persisted) [
          | none ↦ d ∷ []
          | some previous ↦
              if (resolved_identity previous == resolved_identity d) && available (for_descriptor d)
              then []
              else d ∷ []
        ]
      ]
unfolding dependency_misses
dependency_misses_at available manifest sources current persisted id =
    misses_of-actions_at id _
    ∙ ap misses_of (dependencies_at available manifest sources current persisted id)
    ∙ of_expected (last_by descriptor_id id current) (last_by descriptor_id id persisted)
  where
    of_expected :
        (c p : Option ArtifactDescriptor)
        → misses_of (expected_at (dependency_action available) remove_descriptor id c p) ≡ elim c [
          | none ↦ []
          | some d ↦ elim p [
            | none ↦ d ∷ []
            | some previous ↦
                if (resolved_identity previous == resolved_identity d)
                  && available (for_descriptor d)
                then []
                else d ∷ []
          ]
        ]
    of_expected none none = unfold misses_of in refl
    of_expected none (some p) = unfold misses_of remove_descriptor in refl
    of_expected (some d) none = unfold misses_of dependency_action in refl
    of_expected (some d) (some p) =
        unfold misses_of dependency_action for_descriptor in ground arith
