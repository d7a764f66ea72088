-- ===== src/InputInventory/Reconciled.antt =====
-- What `reconcile_configuration_inputs` reports for each path, and the components it affects.
use mathlib.Core.Option
use Prim.Native.Nat.Ordering.{eq}
use kide.Base.{
  ◌≢◌, ◌↔◌, ◌⊎◌, ◌==◌, false, ◌≡◌, refl, sym, ap, ◌∙◌, inl, inr, text_eq, text_ord, Ord, List, [],
  ◌∷◌, ◌++◌, map,
}
use kide.Base.{Option, none, some, is_some, true, ◌||◌, arith}
use kide.Base.{Bool-cases, Option-cases, member, member-dedup-sort, dedup-sort-Ascends, Ascends}
use kide.Canonical.{WorkspacePath, ComponentId}
use kide.TreeMap.{TreeMap, get, keys}
use kide.TreeMap.Diff.{index_by, last_by, get-index_by}
use kide.InputInventory.{ConfigurationInput, ConfigurationInputStatus, input_path, input_status}
use kide.InputInventory.{
  ConfigurationInputState, current, added, changed, missing, is_current, components_eq,
}
use kide.InputInventory.{ConfigurationInputReconciliation, statuses, affected_of}
use kide.InputInventory.{reconciliation, paths_of, reconcile_configuration_inputs}

module _ {ℓ κ} {K : Type ℓ} {V : Type κ} ⦃o : Ord K⦄ where
  member-keys : (q : K) (m : TreeMap K V) → member q (keys m) ≡ is_some (get q m)
  unfolding get
  member-keys q [] = refl
  member-keys q ((k, v) ∷ m) = ground (arith, member-keys q m)

module _ {ℓ} {A : Type ℓ} ⦃o : Ord A⦄ where
  member-append : (q : A) (xs ys : List A) → member q (xs ++ ys) ≡ (member q xs || member q ys)
  member-append q [] ys = refl
  member-append q (x ∷ xs) ys = ground (arith, member-append q xs ys)

-- The status that is reported for a path.
abbrev pub status_at :
    WorkspacePath → List ConfigurationInputStatus → Option ConfigurationInputStatus
status_at path [] = none
status_at path (status ∷ rest) = elim (text_ord.cmp path status.path) [
  | eq ↦ some status
  | _ ↦ status_at path rest
]

abbrev Inputs : Type 0
Inputs = TreeMap WorkspacePath ConfigurationInput

member-paths_of :
    (q : WorkspacePath) (before after : Inputs)
    → member q (paths_of before after) ≡ (is_some (get q before) || is_some (get q after))
member-paths_of q before after =
    member-dedup-sort q (keys before ++ keys after)
    ∙ member-append q (keys before) (keys after)
    ∙ rw (member-keys q before, member-keys q after) refl

input_status-path :
    (path : WorkspacePath) (p n : Option ConfigurationInput) (s : ConfigurationInputStatus)
    → input_status path p n ≡ some s
    → s.path ≡ path
unfolding input_status
input_status-path path none none s h = ground (arith, h)
input_status-path path none (some n) s h = ground (arith, h)
input_status-path path (some p) none s h = ground (arith, h)
input_status-path path (some p) (some n) s h = ground (arith, h)

input_status-some :
    (path : WorkspacePath) (p n : Option ConfigurationInput)
    → (is_some p || is_some n) ≡ true
    → (s : ConfigurationInputStatus) × (input_status path p n ≡ some s)
unfolding input_status
input_status-some path none none h = ground (arith, h)
input_status-some path none (some n) h = (_, refl)
input_status-some path (some p) none h = (_, refl)
input_status-some path (some p) (some n) h = (_, refl)

module _ (before after : Inputs) where
  Known : List WorkspacePath → Type 0
  Known paths =
      (q : WorkspacePath)
      → member q paths ≡ true
      → (is_some (get q before) || is_some (get q after)) ≡ true

  statuses-total :
      (paths : List WorkspacePath)
      → Known paths
      → (ss : List ConfigurationInputStatus) × (statuses before after paths ≡ some ss)
  unfolding statuses Known
  statuses-total [] known = ([], refl)
  statuses-total (path ∷ paths) known =
      let (s, here) =
        input_status-some path (get path before) (get path after)
          (known path (ground (arith, text_ord.cmp_same path))) in
      let (ss, rest) = statuses-total paths (λ q h. known q (ground (arith, h))) in
      (s ∷ ss, rw (here, rest) refl)

  -- One step back from a list of statuses.
  statuses-cons :
      (path : WorkspacePath) (paths : List WorkspacePath) (ss : List ConfigurationInputStatus)
      → statuses before after (path ∷ paths) ≡ some ss
      → (s : ConfigurationInputStatus) × (rest : List ConfigurationInputStatus) × (ss ≡ s ∷ rest)
        × (input_status path (get path before) (get path after) ≡ some s)
        × (statuses before after paths ≡ some rest)
  unfolding statuses
  statuses-cons path paths ss h =
      elim (Option-cases (input_status path (get path before) (get path after))) [
        | inl e ↦ ground (arith, e, h)
        | inr (s, e) ↦ elim (Option-cases (statuses before after paths)) [
          | inl e' ↦ ground (arith, e, e', h)
          | inr (rest, e') ↦ (s, rest, ground (arith, e, e', h), e, e')
        ]
      ]

  statuses-order :
      (paths : List WorkspacePath) (ss : List ConfigurationInputStatus)
      → statuses before after paths ≡ some ss
      → map (λ s. s.path) ss ≡ paths
  unfolding statuses
  statuses-order [] ss h = let e : [] ≡ ss = ground (arith, h) in rw (← e) refl
  statuses-order (path ∷ paths) ss h =
      let (s, rest, e, here, later) = statuses-cons path paths ss h in
      let same = input_status-path path (get path before) (get path after) s here in
      rw (e, same, statuses-order paths rest later) refl

  at_cons :
      (q path : WorkspacePath) (paths : List WorkspacePath) (s : ConfigurationInputStatus)
      (rest : List ConfigurationInputStatus)
      → s.path ≡ path
      → input_status path (get path before) (get path after) ≡ some s
      → (member q paths ≡ true → status_at q rest ≡ input_status q (get q before) (get q after))
      → member q (path ∷ paths) ≡ true
      → status_at q (s ∷ rest) ≡ input_status q (get q before) (get q after)
  at_cons q path paths s rest same here later h =
      rw same (ground (arith, here, later, h, text_ord.eq_same q path))

  off_cons :
      (q path : WorkspacePath) (paths : List WorkspacePath) (s : ConfigurationInputStatus)
      (rest : List ConfigurationInputStatus)
      → s.path ≡ path
      → (member q paths ≡ false → status_at q rest ≡ none)
      → member q (path ∷ paths) ≡ false
      → status_at q (s ∷ rest) ≡ none
  off_cons q path paths s rest same later h = rw same (ground (arith, later, h))

  statuses_at :
      (q : WorkspacePath) (paths : List WorkspacePath) (ss : List ConfigurationInputStatus)
      → statuses before after paths ≡ some ss
      → member q paths ≡ true
      → status_at q ss ≡ input_status q (get q before) (get q after)
  statuses_at q [] ss h hq = ground (arith, hq)
  statuses_at q (path ∷ paths) ss h hq =
      let (s, rest, e, here, later) = statuses-cons path paths ss h in
      let same = input_status-path path (get path before) (get path after) s here in
      rw e (at_cons q path paths s rest same here (statuses_at q paths rest later) hq)

  statuses_off :
      (q : WorkspacePath) (paths : List WorkspacePath) (ss : List ConfigurationInputStatus)
      → statuses before after paths ≡ some ss
      → member q paths ≡ false
      → status_at q ss ≡ none
  unfolding statuses
  statuses_off q [] ss h hq = let e : [] ≡ ss = ground (arith, h) in rw (← e) refl
  statuses_off q (path ∷ paths) ss h hq =
      let (s, rest, e, here, later) = statuses-cons path paths ss h in
      let same = input_status-path path (get path before) (get path after) s here in
      rw e (off_cons q path paths s rest same (statuses_off q paths rest later) hq)

Known-paths_of : (before after : Inputs) → Known before after (paths_of before after)
unfolding Known
Known-paths_of before after q h = sym (member-paths_of q before after) ∙ h

nowhere :
    (q : WorkspacePath) (p n : Option ConfigurationInput)
    → (is_some p || is_some n) ≡ false
    → input_status q p n ≡ none
unfolding input_status
nowhere q none none h = refl
nowhere q none (some n) h = ground (arith, h)
nowhere q (some p) n h = ground (arith, h)

statuses_everywhere :
    (before after : Inputs) (q : WorkspacePath) (ss : List ConfigurationInputStatus)
    → statuses before after (paths_of before after) ≡ some ss
    → status_at q ss ≡ input_status q (get q before) (get q after)
statuses_everywhere before after q ss h = elim (Bool-cases (member q (paths_of before after))) [
  | inl inside ↦ statuses_at before after q (paths_of before after) ss h inside
  | inr outside ↦
      statuses_off before after q (paths_of before after) ss h outside
      ∙ sym
          (nowhere q (get q before) (get q after) (sym (member-paths_of q before after) ∙ outside))
]

-- What is reported for a path with the last persisted and the last current input of that path.
pub data IsReported (path : WorkspacePath)
    : Option ConfigurationInput
      → Option ConfigurationInput
      → Option ConfigurationInputStatus
      → Type 0 where
  absent : IsReported path none none none
  is_added :
      (next : ConfigurationInput)
      → IsReported path none (some next) (
          some record {
            path = path;
            state = added;
            persisted_fingerprint = none;
            current_fingerprint = some next.fingerprint;
            components = next.components;
          })
  is_missing :
      (previous : ConfigurationInput)
      → IsReported path (some previous) none (
          some record {
            path = path;
            state = missing;
            persisted_fingerprint = some previous.fingerprint;
            current_fingerprint = none;
            components = previous.components;
          })
  unchanged :
      (previous next : ConfigurationInput)
      → previous.fingerprint ≡ next.fingerprint
      → previous.components ≡ next.components
      → IsReported path (some previous) (some next) (
          some record {
            path = path;
            state = current;
            persisted_fingerprint = some previous.fingerprint;
            current_fingerprint = some next.fingerprint;
            components = next.components;
          })
  is_changed :
      (previous next : ConfigurationInput)
      → (previous.fingerprint ≢ next.fingerprint) ⊎ (previous.components ≢ next.components)
      → IsReported path (some previous) (some next) (
          some record {
            path = path;
            state = changed;
            persisted_fingerprint = some previous.fingerprint;
            current_fingerprint = some next.fingerprint;
            components = next.components;
          })

input_status-IsReported :
    (path : WorkspacePath) (p n : Option ConfigurationInput)
    → IsReported path p n (input_status path p n)
unfolding input_status
input_status-IsReported path none none = absent
input_status-IsReported path none (some next) = is_added next
input_status-IsReported path (some previous) none = is_missing previous
input_status-IsReported path (some previous) (some next) =
    elim (Bool-cases (previous.fingerprint == next.fingerprint)) [
      | inl same ↦ elim (Bool-cases (previous.components == next.components)) [
        | inl owned ↦ rw (same, owned) (unchanged previous next (ground arith) (ground arith))
        | inr moved ↦ rw (same, moved) (is_changed previous next (inr (λ e. ground arith)))
      ]
      | inr edited ↦ rw edited (is_changed previous next (inl (λ e. ground arith)))
    ]

pub data IsListed (status : ConfigurationInputStatus) : List ConfigurationInputStatus → Type 0 where
  first : {rest : List ConfigurationInputStatus} → IsListed status (status ∷ rest)
  later :
      {other : ConfigurationInputStatus} {rest : List ConfigurationInputStatus}
      → IsListed status rest
      → IsListed status (other ∷ rest)

-- A reported input that is not current, and that the component has.
pub record Affects (c : ComponentId) (inputs : List ConfigurationInputStatus) : Type 0 where
  pub status : ConfigurationInputStatus
  pub reported : IsListed status inputs
  pub stale : status.state ≢ current
  pub owned : member c status.components ≡ true

is_current-false : (state : ConfigurationInputState) → is_current state ≡ false → state ≢ current
is_current-false current h = absurd cc
is_current-false added h = λ e. absurd cc
is_current-false changed h = λ e. absurd cc
is_current-false missing h = λ e. absurd cc

not_current : (state : ConfigurationInputState) → state ≢ current → is_current state ≡ false
not_current current stale = absurd (stale refl)
not_current added stale = refl
not_current changed stale = refl
not_current missing stale = refl

affected_sound :
    (c : ComponentId) (ss : List ConfigurationInputStatus)
    → member c (affected_of ss) ≡ true
    → Affects c ss
unfolding affected_of
affected_sound c [] h = absurd cc
affected_sound c (s ∷ ss) h =
    let later_one : member c (affected_of ss) ≡ true → Affects c (s ∷ ss) = λ h'.
      let found = affected_sound c ss h' in
      record {
        status = found.status;
        reported = later found.reported;
        stale = found.stale;
        owned = found.owned;
      } in
    elim (Bool-cases (is_current s.state)) [
      | inl fresh ↦ later_one (rw fresh at h)
      | inr stale ↦ elim (Bool-cases (member c s.components)) [
        | inl owned ↦ record {
          status = s;
          reported = first;
          stale = is_current-false s.state stale;
          owned = owned;
        }
        | inr foreign ↦
            let split = sym (member-append c s.components (affected_of ss)) ∙ (rw stale at h) in
            later_one (rw foreign at split)
      ]
    ]

affected_complete :
    (c : ComponentId) (s : ConfigurationInputStatus) {ss : List ConfigurationInputStatus}
    → IsListed s ss
    → s.state ≢ current
    → member c s.components ≡ true
    → member c (affected_of ss) ≡ true
unfolding affected_of
affected_complete c s (first {rest}) stale owned =
    rw (not_current s.state stale) (member-append c s.components (affected_of rest) ∙ rw owned refl)
affected_complete c s (later {other} {rest} listed) stale owned =
    let deeper = affected_complete c s listed stale owned in
    elim (Bool-cases (is_current other.state)) [
      | inl fresh ↦ rw fresh deeper
      | inr not_fresh ↦
          rw not_fresh (member-append c other.components (affected_of rest) ∙ ground arith)
    ]

-- The report of a reconciliation.
pub record Reports (old new : List ConfigurationInput) (r : ConfigurationInputReconciliation)
    : Type 0 where
  pub ordered : Ascends (map (λ s. s.path) r.inputs)
  pub each :
      (q : WorkspacePath)
      → IsReported q (last_by input_path q old) (last_by input_path q new) (status_at q r.inputs)
  pub affected : (c : ComponentId) → (member c r.affected_components ≡ true) ↔ Affects c r.inputs

-- The reconciliation never reaches its `unreachable!()`. It reports the paths in ascending order. For
-- each path, the last persisted and the last current input of the path decide: without any there is
-- no status; with one of them it is added or missing; with both it is current if they agree in
-- fingerprint and components, and changed otherwise. A component is affected if and only if it is
-- one of the components of a reported input that is not current.
pub reconcile-Reports :
    (old new : List ConfigurationInput)
    → (r : ConfigurationInputReconciliation) × (reconcile_configuration_inputs old new ≡ some r)
      × Reports old new r
unfolding reconcile_configuration_inputs
reconcile-Reports old new =
    let before = index_by input_path old in
    let after = index_by input_path new in
    let (ss, e) =
      statuses-total before after (paths_of before after) (Known-paths_of before after) in
    let order = statuses-order before after (paths_of before after) ss e in
    (
      reconciliation ss,
      ap (Option.map reconciliation) e,
      record {
        ordered = rw order (dedup-sort-Ascends (keys before ++ keys after));
        each = λ q.
            rw
              (
                statuses_everywhere before after q ss e,
                get-index_by input_path q old,
                get-index_by input_path q new,
              )
              (input_status-IsReported q (last_by input_path q old) (last_by input_path q new));
        affected = λ c.
            let same = member-dedup-sort c (affected_of ss) in
            (
              (λ there. affected_sound c ss (sym same ∙ there)),
              (λ affects.
                  same
                  ∙ affected_complete c affects.status affects.reported affects.stale
                      affects.owned),
            );
      },
    )
