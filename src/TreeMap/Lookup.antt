-- ===== src/TreeMap/Lookup.antt =====
-- What `get` returns after the operations of a map.
use Prim.Native.Nat.Ordering.{eq}
use kide.Base.{◌≡◌, refl, List, [], ◌∷◌, none, some, arith, Ord}
use kide.TreeMap.{TreeMap, get, insert, remove, extend, collect, last_of}

module _ {ℓ κ} {K : Type ℓ} {V : Type κ} ⦃o : Ord K⦄ where
  pub get-insert :
      (j k : K) (v : V) (m : TreeMap K V)
      → get j (insert k v m) ≡ elim (o.cmp j k) [ eq ↦ some v | _ ↦ get j m ]
  unfolding get insert
  get-insert j k v [] = refl
  get-insert j k v ((i, w) ∷ m) =
      ground (arith, get-insert j k v m, o.eq_same k i, o.eq_same j k, o.eq_same j i, o.cmp_same j)

  pub get-remove :
      (j k : K) (m : TreeMap K V)
      → get j (remove k m) ≡ elim (o.cmp j k) [ eq ↦ none | _ ↦ get j m ]
  unfolding get remove
  get-remove j k [] = ground arith
  get-remove j k ((i, w) ∷ m) = ground (
    arith,
    get-remove j k m,
    o.eq_same k i,
    o.eq_same j k,
    o.eq_same j i,
    o.cmp_same j,
    o.cmp_same k,
  )

  get-extend :
      (j : K) (m : TreeMap K V) (entries : List (K × V))
      → get j (extend m entries) ≡ elim (last_of j entries) [ some v ↦ some v | none ↦ get j m ]
  unfolding extend
  get-extend j m [] = refl
  get-extend j m ((k, v) ∷ entries) =
      ground (arith, get-extend j (insert k v m) entries, get-insert j k v m)

  -- A collected map holds the last entry of each key.
  pub get-collect : (j : K) (entries : List (K × V)) → get j (collect entries) ≡ last_of j entries
  unfolding collect get
  get-collect j entries = ground (arith, get-extend j [] entries)
