-- ===== src/WorkerRegistry/Selected.antt =====
-- What is selected: every source unit once, and only workers that serve it.
use kide.Base.{
  ℕ, ◌+◌, ◌≤◌, ◌≡◌, refl, ap, ◌∙◌, Text, text_ord, Ord, pair_ord, List, [], ◌∷◌, ◌++◌, map,
}
use kide.Base.{Option, none, some, Bool, arith, if◌then◌else◌, length}
use kide.Canonical.{SourceUnit, ProjectManifest, BuildSystem, Language, ComponentId}
use kide.Protocol.{WorkerCapability}
use kide.TreeMap.{TreeMap, get, insert, collect, IsSorted}
use kide.TreeMap.Sorted.{insert-IsSorted, get-Above, Above-trans}
use kide.WorkerRegistry.{WorkerBatch, UnsupportedBatch, WorkerSelection, DiscoveredWorker, Groups}
use kide.WorkerRegistry.{chunks, or_default, push_source, group_key, group_sources, batch_of}
use kide.WorkerRegistry.{select_group, select_groups, build_system_of, serves, find_worker}
use kide.WorkerRegistry.{build_system_entry, source_key, worker_name, sort_by_key}
use kide.WorkerRegistry.{select_discovered_with_batch_limit}
use kide.WorkerRegistry.Chunks.{count, count-append, count-sort_by_key, concat, concat-chunks}

-- The source units of the batches, and of the groups without a worker.
abbrev pub batched : List WorkerBatch → List SourceUnit
batched [] = []
batched (batch ∷ batches) = batch.source_units ++ batched batches

abbrev pub left_over : List UnsupportedBatch → List SourceUnit
left_over [] = []
left_over (group ∷ groups) = group.source_units ++ left_over groups

push_source-IsSorted :
    (source : SourceUnit) (groups : Groups) → IsSorted groups → IsSorted (push_source source groups)
unfolding push_source
push_source-IsSorted source groups s =
    insert-IsSorted (group_key source) (or_default (get (group_key source) groups) ++ (source ∷ []))
      groups s

-- The units of the values of a map, that pass a test.
module _ {ℓ} {K : Type ℓ} ⦃o : Ord K⦄ (p : SourceUnit → Bool) where
  abbrev count_groups : TreeMap K (List SourceUnit) → ℕ
  count_groups [] = 0
  count_groups ((key, units) ∷ groups) = count p units + count_groups groups

  -- What one more value under a key adds.
  count-insert :
      (k : K) (units : List SourceUnit) (groups : TreeMap K (List SourceUnit))
      → IsSorted groups
      → count_groups (insert k units groups) + count p (or_default (get k groups))
        ≡ count_groups groups + count p units
  unfolding insert get
  count-insert k units [] s = omega arith
  count-insert k units ((j, us) ∷ groups) (a, s) =
      ground (arith, count-insert k units groups s, get-Above k groups, Above-trans k j groups)

module _ (p : SourceUnit → Bool) where
  abbrev one : SourceUnit → ℕ
  one source = if p source then 1 else 0

  count-push_source :
      (source : SourceUnit) (groups : Groups)
      → IsSorted groups
      → count_groups p (push_source source groups) ≡ one source + count_groups p groups
  unfolding push_source
  count-push_source source groups s =
      let key = group_key source in
      let before = or_default (get key groups) in
      omega (
        arith,
        count-insert p key (before ++ (source ∷ [])) groups s,
        count-append p before (source ∷ []),
      )

  count-group_sources :
      (sources : List SourceUnit) (groups : Groups)
      → IsSorted groups
      → count_groups p (group_sources sources groups) ≡ count p sources + count_groups p groups
  unfolding group_sources
  count-group_sources [] groups s = omega arith
  count-group_sources (source ∷ sources) groups s = omega (
    arith,
    count-group_sources sources (push_source source groups) (push_source-IsSorted source groups s),
    count-push_source source groups s,
  )

  -- The units of a selection that pass the test.
  abbrev count_selection : WorkerSelection → ℕ
  count_selection selection =
      count p (batched selection.batches) + count p (left_over selection.unsupported)

  count-batches :
      (worker : DiscoveredWorker) (component : ComponentId) (language : Language)
      (xss : List (List SourceUnit)) (batches : List WorkerBatch)
      → count p (batched (map (batch_of worker component language) xss ++ batches))
        ≡ count p (concat xss) + count p (batched batches)
  count-batches worker component language [] batches = omega arith
  count-batches worker component language (xs ∷ xss) batches = omega (
    arith,
    count-append p xs (batched (map (batch_of worker component language) xss ++ batches)),
    count-append p xs (concat xss),
    count-batches worker component language xss batches,
  )

  count-select_group :
      (size : ℕ) (build_system : BuildSystem) (component : ComponentId) (language : Language)
      (units : List SourceUnit) (worker : Option DiscoveredWorker) (rest : WorkerSelection)
      → 1 ≤ size
      → count_selection (select_group size build_system component language units worker rest)
        ≡ count p units + count_selection rest
  unfolding select_group
  count-select_group size build_system component language units (some worker) rest hs =
      let whole = ap (count p) (concat-chunks (length units) size units hs (omega arith)) in
      omega (
        arith,
        whole,
        count-batches worker component language (chunks (length units) size units) rest.batches,
      )
  count-select_group size build_system component language units none rest hs =
      omega (arith, count-append p units (left_over rest.unsupported))

  count-select_groups :
      (components : TreeMap Text BuildSystem) (required : List WorkerCapability)
      (workers : List DiscoveredWorker) (size : ℕ) (groups : Groups)
      → 1 ≤ size
      → count_selection (select_groups components required workers size groups)
        ≡ count_groups p groups
  unfolding select_groups
  count-select_groups components required workers size [] hs = refl
  count-select_groups components required workers size ((key, []) ∷ groups) hs =
      omega (arith, count-select_groups components required workers size groups hs)
  count-select_groups components required workers size ((key, first ∷ units) ∷ groups) hs = omega (
    arith,
    count-select_groups components required workers size groups hs,
    count-select_group size (build_system_of components first.component) first.component
        first.language (first ∷ units)
        (find_worker (serves (build_system_of components first.component) first.language required)
          workers)
        (select_groups components required workers size groups) hs,
  )

  -- Nothing is lost or scheduled twice: with a positive limit, the batches and the unsupported
  -- groups together hold as many of the source units that pass a test as the input does, for any
  -- test.
  pub selection_complete :
      (manifest : ProjectManifest) (sources : List SourceUnit) (required : List WorkerCapability)
      (workers : List DiscoveredWorker) (size : ℕ)
      → 1 ≤ size
      → count_selection (select_discovered_with_batch_limit manifest sources required workers size)
        ≡ count p sources
  unfolding select_discovered_with_batch_limit
  selection_complete manifest sources required workers size hs =
      count-select_groups (collect (map build_system_entry manifest.components)) required
        (sort_by_key worker_name workers) size (group_sources (sort_by_key source_key sources) [])
        hs
      ∙ count-group_sources (sort_by_key source_key sources) [] tt
      ∙ omega (arith, count-sort_by_key source_key p sources)
