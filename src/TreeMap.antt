-- ===== src/TreeMap.antt =====
-- `std::collections::BTreeMap` as the source uses it: an association list in the order of the
-- keys. `collect` is a run of `insert`s, so the last of two entries of one key wins.
pub mod Lookup
pub mod Sorted
pub mod Diff
use Prim.Native.Nat.Ordering.{lt, eq, gt}
use kide.Base.{List, [], ◌∷◌, Option, none, some, Bool, Ord, ◌≺◌, is_some}

abbrev pub TreeMap {ℓ κ} : Type ℓ → Type κ → Type (ℓ ⊔ κ)
TreeMap K V = List (K × V)

module _ {ℓ κ} {K : Type ℓ} {V : Type κ} ⦃o : Ord K⦄ where
  unfoldable pub get : K → TreeMap K V → Option V
  get q [] = none
  get q ((k, v) ∷ m) = elim (o.cmp q k) [ eq ↦ some v | _ ↦ get q m ]

  unfoldable pub insert : K → V → TreeMap K V → TreeMap K V
  insert q w [] = (q, w) ∷ []
  insert q w ((k, v) ∷ m) = elim (o.cmp q k) [
    | lt ↦ (q, w) ∷ (k, v) ∷ m
    | eq ↦ (k, w) ∷ m
    | gt ↦ (k, v) ∷ insert q w m
  ]

  unfoldable pub remove : K → TreeMap K V → TreeMap K V
  remove q [] = []
  remove q ((k, v) ∷ m) =
      let rest = remove q m in elim (o.cmp q k) [ eq ↦ rest | _ ↦ (k, v) ∷ rest ]

  unfoldable pub contains_key : K → TreeMap K V → Bool
  unfolding get
  contains_key q m = is_some (get q m)

  unfoldable pub extend : TreeMap K V → List (K × V) → TreeMap K V
  extend m [] = m
  extend m ((k, v) ∷ entries) = extend (insert k v m) entries

  -- `iter().map(|x| (key, value)).collect::<BTreeMap<_, _>>()`
  unfoldable pub collect : List (K × V) → TreeMap K V
  unfolding extend insert
  collect entries = extend [] entries

  -- `into_values()`
  abbrev pub values : TreeMap K V → List V
  values [] = []
  values ((k, v) ∷ m) = v ∷ values m

  abbrev pub keys : TreeMap K V → List K
  keys [] = []
  keys ((k, v) ∷ m) = k ∷ keys m

  -- Every key of the map lies behind `q`.
  abbrev pub Above : K → TreeMap K V → Type 0
  Above q [] = Unit
  Above q ((k, v) ∷ m) = (q ≺ k) × Above q m

  -- The keys ascend, so each stands once.
  abbrev pub IsSorted : TreeMap K V → Type 0
  IsSorted [] = Unit
  IsSorted ((k, v) ∷ m) = Above k m × IsSorted m

  -- The value of the last entry of `q` in a list of entries.
  abbrev pub last_of : K → List (K × V) → Option V
  last_of q [] = none
  last_of q ((k, v) ∷ entries) = elim (last_of q entries) [
    | some w ↦ some w
    | none ↦ elim (o.cmp q k) [ eq ↦ some v | _ ↦ none ]
  ]
