-- ===== src/TreeMap/Sorted.antt =====
-- The order of the keys, and that a map is determined by what `get` returns.
use kide.Base.{◌≡◌, refl, List, [], ◌∷◌, none, arith, Ord, ◌≺◌}
use kide.TreeMap.{TreeMap, get, insert, remove, extend, collect, Above, IsSorted}

module _ {ℓ κ} {K : Type ℓ} {V : Type κ} ⦃o : Ord K⦄ where
  pub Above-trans : (p q : K) (m : TreeMap K V) → p ≺ q → Above q m → Above p m
  Above-trans p q [] h a = tt
  Above-trans p q ((k, v) ∷ m) h (b, a) = (o.lt_chain p q k h b, Above-trans p q m h a)

  insert-Above : (p k : K) (v : V) (m : TreeMap K V) → p ≺ k → Above p m → Above p (insert k v m)
  unfolding insert
  insert-Above p k v [] h a = (h, tt)
  insert-Above p k v ((i, w) ∷ m) h (b, a) = ground (arith, insert-Above p k v m h a)

  pub insert-IsSorted : (k : K) (v : V) (m : TreeMap K V) → IsSorted m → IsSorted (insert k v m)
  unfolding insert
  insert-IsSorted k v [] s = (tt, tt)
  insert-IsSorted k v ((i, w) ∷ m) (a, s) =
      ground
        (arith, insert-IsSorted k v m s, Above-trans k i m, insert-Above i k v m, o.gt_swap k i)

  remove-Above : (p k : K) (m : TreeMap K V) → Above p m → Above p (remove k m)
  unfolding remove
  remove-Above p k [] a = tt
  remove-Above p k ((i, w) ∷ m) (b, a) = ground (arith, remove-Above p k m a)

  pub remove-IsSorted : (k : K) (m : TreeMap K V) → IsSorted m → IsSorted (remove k m)
  unfolding remove
  remove-IsSorted k [] s = tt
  remove-IsSorted k ((i, w) ∷ m) (a, s) =
      ground (arith, remove-IsSorted k m s, remove-Above i k m a)

  pub extend-IsSorted :
      (m : TreeMap K V) (entries : List (K × V)) → IsSorted m → IsSorted (extend m entries)
  unfolding extend
  extend-IsSorted m [] s = s
  extend-IsSorted m ((k, v) ∷ entries) s =
      extend-IsSorted (insert k v m) entries (insert-IsSorted k v m s)

  pub collect-IsSorted : (entries : List (K × V)) → IsSorted (collect entries)
  unfolding collect
  collect-IsSorted entries = extend-IsSorted [] entries tt

  -- A key at or before a lower bound is not in the map.
  pub get-Above : (q : K) (m : TreeMap K V) → Above q m → get q m ≡ none
  unfolding get
  get-Above q [] a = refl
  get-Above q ((k, v) ∷ m) (b, a) = ground (arith, get-Above q m a)

  heads-eq :
      (k j : K) (v w : V) (m n : TreeMap K V)
      → Above k m
      → Above j n
      → ((q : K) → get q ((k, v) ∷ m) ≡ get q ((j, w) ∷ n))
      → (k ≡ j) × (v ≡ w)
  unfolding get
  heads-eq k j v w m n a b h = ground (
    arith,
    h k,
    h j,
    o.cmp_same k,
    o.cmp_same j,
    o.eq_same k j,
    o.gt_swap k j,
    get-Above k n,
    Above-trans k j n,
    get-Above j m,
    Above-trans j k m,
  )

  tails_agree :
      (k j : K) (v w : V) (m n : TreeMap K V) (q : K)
      → k ≡ j
      → Above k m
      → Above j n
      → get q ((k, v) ∷ m) ≡ get q ((j, w) ∷ n)
      → get q m ≡ get q n
  unfolding get
  tails_agree k j v w m n q e a b h =
      ground (arith, o.eq_same q k, o.eq_same q j, get-Above k m a, get-Above j n b)

  -- Sorted maps with the same lookups are equal.
  pub eq_of_get :
      (m n : TreeMap K V) → IsSorted m → IsSorted n → ((q : K) → get q m ≡ get q n) → m ≡ n
  unfolding get
  eq_of_get [] [] s t h = refl
  eq_of_get [] ((k, v) ∷ n) s t h = ground (arith, h k, o.cmp_same k)
  eq_of_get ((k, v) ∷ m) [] s t h = ground (arith, h k, o.cmp_same k)
  eq_of_get ((k, v) ∷ m) ((j, w) ∷ n) (a, s) (b, t) h =
      let same = heads-eq k j v w m n a b h in
      cc (same.0, same.1, eq_of_get m n s t (λ q. tails_agree k j v w m n q same.0 a b (h q)))
