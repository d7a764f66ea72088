-- ===== src/Orchestrator/Batch/Exact.antt =====
-- A batch passes exactly if its snapshots cover the requested units, and then every `expect` of the
-- commit finds its snapshot.
use kide.Base.{◌≡◌, refl, sym, ap, ◌∙◌, Text, text_eq, text_ord, List, [], ◌∷◌, map}
use kide.Base.{Option, none, some, true, false, subst, arith, member}
use kide.Base.{member-dedup-sort}
use kide.Canonical.{SourceUnit}
use kide.Freshness.{unit_id}
use kide.Protocol.{FileAnalysisSnapshot}
use kide.Orchestrator.Errors.{Result, ok, err, unexpected_snapshot, missing_snapshot}
use kide.Orchestrator.Batch.{
  snapshot_id, set_of, first_beyond, validate_batch, batch_result, find_snapshot,
}
use kide.Orchestrator.Batch.{commit_entries}

first_beyond-none :
    (left right : List Text) (q : Text)
    → first_beyond left right ≡ none
    → member q left ≡ true
    → member q right ≡ true
first_beyond-none [] right q h hq = ground arith
first_beyond-none (x ∷ left) right q h hq =
    ground (arith, first_beyond-none left right q, text_ord.eq_same q x)

first_beyond-of_subset :
    (left right : List Text)
    → ((q : Text) → member q left ≡ true → member q right ≡ true)
    → first_beyond left right ≡ none
first_beyond-of_subset [] right h = refl
first_beyond-of_subset (x ∷ left) right h =
    let tail = first_beyond-of_subset left right (λ q hq. h q (ground (arith, hq))) in
    ground (arith, h x, tail, text_ord.cmp_same x)

first_beyond-some :
    (left right : List Text) (x : Text)
    → first_beyond left right ≡ some x
    → (member x left ≡ true) × (member x right ≡ false)
first_beyond-some [] right x h = ground arith
first_beyond-some (y ∷ left) right x h =
    ground (arith, first_beyond-some left right x, text_ord.cmp_same x, text_ord.eq_same x y)

member-set_of : (q : Text) (xs : List Text) → member q (set_of xs) ≡ member q xs
member-set_of q xs = member-dedup-sort q xs

abbrev pub Covers : List Text → List Text → Type 0
Covers xs ys = (q : Text) → member q xs ≡ true → member q ys ≡ true

same_members :
    (xs ys : List Text) → Covers xs ys → Covers ys xs → (q : Text) → member q xs ≡ member q ys
same_members xs ys f g q = ground (arith, f q, g q)

Covers-sets : (xs ys : List Text) → first_beyond (set_of xs) (set_of ys) ≡ none → Covers xs ys
Covers-sets xs ys h q hq =
    sym (member-set_of q ys)
    ∙ first_beyond-none (set_of xs) (set_of ys) q h (member-set_of q xs ∙ hq)

nothing_beyond : (xs ys : List Text) → Covers xs ys → first_beyond (set_of xs) (set_of ys) ≡ none
nothing_beyond xs ys c =
    first_beyond-of_subset (set_of xs) (set_of ys)
      (λ q hq. member-set_of q ys ∙ c q (sym (member-set_of q xs) ∙ hq))

-- What the outcome of `validate_batch` says of the batch.
abbrev pub Verdict :
    List SourceUnit → List FileAnalysisSnapshot → Result (List FileAnalysisSnapshot) → Type 0
Verdict requested snapshots (ok committed) =
    (committed ≡ snapshots)
    × ((q : Text) → member q (map unit_id requested) ≡ member q (map snapshot_id snapshots))
Verdict requested snapshots (err (unexpected_snapshot x)) =
    (member x (map snapshot_id snapshots) ≡ true) × (member x (map unit_id requested) ≡ false)
Verdict requested snapshots (err (missing_snapshot x)) =
    (member x (map unit_id requested) ≡ true)
    × (member x (map snapshot_id snapshots) ≡ false)
    × Covers (map snapshot_id snapshots) (map unit_id requested)
Verdict requested snapshots (err _) = ⊥

outside :
    (x : Text) (xs ys : List Text)
    → first_beyond (set_of xs) (set_of ys) ≡ some x
    → (member x xs ≡ true) × (member x ys ≡ false)
outside x xs ys h =
    let (inside, not_inside) = first_beyond-some (set_of xs) (set_of ys) x h in
    (sym (member-set_of x xs) ∙ inside, sym (member-set_of x ys) ∙ not_inside)

batch_result-Verdict :
    (requested : List SourceUnit) (snapshots : List FileAnalysisSnapshot) (e m : Option Text)
    → first_beyond (set_of (map snapshot_id snapshots)) (set_of (map unit_id requested)) ≡ e
    → first_beyond (set_of (map unit_id requested)) (set_of (map snapshot_id snapshots)) ≡ m
    → Verdict requested snapshots (batch_result e m snapshots)
unfolding batch_result
batch_result-Verdict requested snapshots (some x) m extra missing =
    outside x (map snapshot_id snapshots) (map unit_id requested) extra
batch_result-Verdict requested snapshots none (some x) extra missing =
    let (inside, not_inside) =
      outside x (map unit_id requested) (map snapshot_id snapshots) missing in
    (inside, not_inside, Covers-sets (map snapshot_id snapshots) (map unit_id requested) extra)
batch_result-Verdict requested snapshots none none extra missing = (
  refl,
  same_members (map unit_id requested) (map snapshot_id snapshots)
      (Covers-sets (map unit_id requested) (map snapshot_id snapshots) missing)
      (Covers-sets (map snapshot_id snapshots) (map unit_id requested) extra),
)

-- A batch passes, as it is, only if the ids of its snapshots are the requested ones; otherwise the
-- error names a snapshot that was not requested or, if there is none, a requested unit without one.
pub validate_batch-Verdict :
    (requested : List SourceUnit) (snapshots : List FileAnalysisSnapshot)
    → Verdict requested snapshots (validate_batch requested snapshots)
unfolding validate_batch
validate_batch-Verdict requested snapshots = batch_result-Verdict requested snapshots _ _ refl refl

-- A batch is accepted if its snapshots are for the requested source units: if an id is requested
-- exactly if a snapshot has it.
pub validate_batch_accepts :
    (requested : List SourceUnit) (snapshots : List FileAnalysisSnapshot)
    → ((q : Text) → member q (map unit_id requested) ≡ member q (map snapshot_id snapshots))
    → validate_batch requested snapshots ≡ ok snapshots
unfolding validate_batch batch_result
validate_batch_accepts requested snapshots same =
    let units = map unit_id requested in
    let ids = map snapshot_id snapshots in
    ap (λ e. batch_result e (first_beyond (set_of units) (set_of ids)) snapshots)
      (nothing_beyond ids units (λ q h. same q ∙ h))
    ∙ ap (λ m. batch_result none m snapshots) (nothing_beyond units ids (λ q h. sym (same q) ∙ h))

find_snapshot-member :
    (id : Text) (snapshots : List FileAnalysisSnapshot)
    → member id (map snapshot_id snapshots) ≡ true
    → (s : FileAnalysisSnapshot) × (find_snapshot id snapshots ≡ some s) × (s.source_unit.id ≡ id)
unfolding find_snapshot
find_snapshot-member id [] h = ground arith
find_snapshot-member id (s ∷ snapshots) h = elim (text_eq.dec s.source_unit.id id) [
  | yes e ↦ (s, ground (arith, e), e)
  | no n ↦
      let (found, step, same) =
        find_snapshot-member id snapshots
          (ground (arith, h, n, text_ord.eq_same id s.source_unit.id)) in
      (found, ground (arith, n, step), same)
]

-- Each entry pairs a unit with a snapshot of its id.
abbrev pub IsPaired : List (SourceUnit × FileAnalysisSnapshot) → Type 0
IsPaired [] = Unit
IsPaired ((unit, snapshot) ∷ entries) = (snapshot.source_unit.id ≡ unit.id) × IsPaired entries

entries_of_covered :
    (units : List SourceUnit) (snapshots : List FileAnalysisSnapshot)
    → Covers (map unit_id units) (map snapshot_id snapshots)
    → (entries : List (SourceUnit × FileAnalysisSnapshot)) × (commit_entries units snapshots
        ≡ some entries)
      × (map (λ entry. entry.0) entries ≡ units)
      × IsPaired entries
unfolding commit_entries
entries_of_covered [] snapshots c = ([], refl, refl, tt)
entries_of_covered (unit ∷ units) snapshots c =
    let (s, found, same) =
      find_snapshot-member unit.id snapshots
        (c unit.id (ground (arith, text_ord.cmp_same unit.id))) in
    let (entries, rest, order, paired) =
      entries_of_covered units snapshots (λ q h. c q (ground (arith, h))) in
    ((unit, s) ∷ entries, rw (found, rest) refl, ap (λ us. unit ∷ us) order, (same, paired))

-- After `validate_batch` has passed a batch, the loop that commits it finds a snapshot for every
-- unit, so that its `expect` cannot panic; each entry pairs a unit, in the order of the request,
-- with a snapshot of its id.
pub commit_entries_total :
    (requested : List SourceUnit) (snapshots committed : List FileAnalysisSnapshot)
    → validate_batch requested snapshots ≡ ok committed
    → (entries : List (SourceUnit × FileAnalysisSnapshot)) × (commit_entries requested committed
        ≡ some entries)
      × (map (λ entry. entry.0) entries ≡ requested)
      × IsPaired entries
commit_entries_total requested snapshots committed h =
    let verdict : Verdict requested snapshots (ok committed) =
      subst (Verdict requested snapshots) h (validate_batch-Verdict requested snapshots) in
    let (whole, same) = verdict in
    entries_of_covered requested committed
      (λ q hq. subst (λ s. member q (map snapshot_id s) ≡ true) (sym whole) (sym (same q) ∙ hq))
