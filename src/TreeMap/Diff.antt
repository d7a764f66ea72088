-- ===== src/TreeMap/Diff.antt =====
-- The shape that the planners share: one action for each current entry, beside what was persisted
-- under its key, and then one for each persisted key that is current no more.
pub mod Exactly
use Prim.Native.Nat.Ordering.{eq}
use mathlib.Core.Option
use kide.Base.{map, none, some, refl, sym, ◌∙◌}
use kide.Base.{◌≡◌, List, [], ◌∷◌, ◌++◌, Option, arith, Ord, All, if◌then◌else◌}
use kide.TreeMap.{TreeMap, get, insert, extend, collect, contains_key, IsSorted, last_of}
use kide.TreeMap.Lookup.{get-collect}
use kide.TreeMap.Sorted.{collect-IsSorted, eq_of_get}

module _ {ℓ κ} {K : Type ℓ} {V : Type κ} ⦃o : Ord K⦄ where
  -- `values.iter().map(|value| (key(value), value)).collect()`
  abbrev pub entries_by : (V → K) → List V → List (K × V)
  entries_by key [] = []
  entries_by key (v ∷ vs) = (key v, v) ∷ entries_by key vs

  unfoldable pub index_by : (V → K) → List V → TreeMap K V
  unfolding collect
  index_by key vs = collect (entries_by key vs)

  -- The last value of a slice that has the key `q`: what indexing keeps of it.
  abbrev pub last_by : (V → K) → K → List V → Option V
  last_by key q [] = none
  last_by key q (v ∷ vs) = elim (last_by key q vs) [
    | some w ↦ some w
    | none ↦ elim (o.cmp q (key v)) [ eq ↦ some v | _ ↦ none ]
  ]

  last_of-entries_by :
      (key : V → K) (q : K) (vs : List V) → last_of q (entries_by key vs) ≡ last_by key q vs
  last_of-entries_by key q [] = refl
  last_of-entries_by key q (v ∷ vs) = ground (arith, last_of-entries_by key q vs)

  pub get-index_by :
      (key : V → K) (q : K) (vs : List V) → get q (index_by key vs) ≡ last_by key q vs
  unfolding index_by
  get-index_by key q vs = get-collect q (entries_by key vs) ∙ last_of-entries_by key q vs

  pub index_by-IsSorted : (key : V → K) (vs : List V) → IsSorted (index_by key vs)
  unfolding index_by
  index_by-IsSorted key vs = collect-IsSorted (entries_by key vs)

  -- An index is determined by the last value of each key.
  pub index_by-canonical :
      (key : V → K) (vs ws : List V)
      → ((q : K) → last_by key q vs ≡ last_by key q ws)
      → index_by key vs ≡ index_by key ws
  index_by-canonical key vs ws h =
      eq_of_get _ _ (index_by-IsSorted key vs) (index_by-IsSorted key ws)
        λ q. get-index_by key q vs ∙ h q ∙ sym (get-index_by key q ws)

  abbrev pub IsKeyed : (V → K) → TreeMap K V → Type ℓ
  IsKeyed key = All (λ (k, v). key v ≡ k)

  insert-IsKeyed :
      (key : V → K) (v : V) (m : TreeMap K V) → IsKeyed key m → IsKeyed key (insert (key v) v m)
  unfolding insert
  insert-IsKeyed key v [] a = (λ i. key v, tt)
  insert-IsKeyed key v ((j, w) ∷ m) (b, a) =
      ground (arith, o.eq_same (key v) j, insert-IsKeyed key v m a)

  extend-IsKeyed :
      (key : V → K) (m : TreeMap K V) (vs : List V)
      → IsKeyed key m
      → IsKeyed key (extend m (entries_by key vs))
  unfolding extend
  extend-IsKeyed key m [] a = a
  extend-IsKeyed key m (v ∷ vs) a =
      extend-IsKeyed key (insert (key v) v m) vs (insert-IsKeyed key v m a)

  pub index_by-IsKeyed : (key : V → K) (vs : List V) → IsKeyed key (index_by key vs)
  unfolding index_by
  index_by-IsKeyed key vs = extend-IsKeyed key [] vs tt

module _ {ℓ κ μ ν} {K : Type ℓ} {V : Type κ} {W : Type μ} {A : Type ν} ⦃o : Ord K⦄ where
  unfoldable pub planned : (K → V → Option W → A) → TreeMap K V → TreeMap K W → List A
  planned act [] persisted = []
  planned act ((k, v) ∷ current) persisted =
      act k v (get k persisted) ∷ planned act current persisted

  unfoldable pub dropped : (K → W → A) → TreeMap K W → TreeMap K V → List A
  dropped drop [] current = []
  dropped drop ((k, w) ∷ persisted) current =
      let rest = dropped drop persisted current in
      if contains_key k current then rest else drop k w ∷ rest

  unfoldable pub diff : (K → V → Option W → A) → (K → W → A) → TreeMap K V → TreeMap K W → List A
  unfolding planned dropped
  diff act drop current persisted = planned act current persisted ++ dropped drop persisted current

module _ {ℓ κ μ} {K : Type ℓ} {V : Type κ} {W : Type μ} ⦃o : Ord K⦄ (key : V → K)
    (part : V → W) where
  last_of-map :
      (q : K) (vs : List V)
      → last_of q (map (λ v. (key v, part v)) vs) ≡ Option.map part (last_by key q vs)
  last_of-map q [] = refl
  last_of-map q (v ∷ vs) = ground (arith, last_of-map q vs)

  -- A map of parts of values holds the part of the last value of each key.
  pub get-collect-map :
      (q : K) (vs : List V)
      → get q (collect (map (λ v. (key v, part v)) vs)) ≡ Option.map part (last_by key q vs)
  get-collect-map q vs = get-collect q (map (λ v. (key v, part v)) vs) ∙ last_of-map q vs
