-- ===== src/TreeMap/Diff/Exactly.antt =====
-- A plan holds exactly one action for each key that is current or persisted, and none else.
use Prim.Native.Nat.Ordering.{eq}
use kide.Base.{◌≡◌, refl, List, [], ◌∷◌, ◌++◌, Option, none, some, Bool, true, false, arith, Ord}
use kide.Base.{retain}
use kide.TreeMap.{TreeMap, get, contains_key, Above, IsSorted}
use kide.TreeMap.Diff.{planned, dropped, diff, IsKeyed}

abbrev pub same {ℓ} : {K : Type ℓ} ⦃o : Ord K⦄ → K → K → Bool
same ⦃o⦄ j k = elim (o.cmp j k) [ eq ↦ true | _ ↦ false ]

module _ {ℓ ν} {K : Type ℓ} {A : Type ν} ⦃o : Ord K⦄ where
  -- The actions of a plan that concern the key `q`.
  abbrev pub actions_at : (A → K) → K → List A → List A
  actions_at id q = retain (λ a. same q (id a))

  actions_at-append :
      (id : A → K) (q : K) (xs ys : List A)
      → actions_at id q (xs ++ ys) ≡ actions_at id q xs ++ actions_at id q ys
  actions_at-append id q [] ys = refl
  actions_at-append id q (x ∷ xs) ys = ground (arith, actions_at-append id q xs ys)

-- What a diff should hold for `q`.
abbrev pub expected_at {ℓ κ μ ν} :
    {K : Type ℓ} {V : Type κ} {W : Type μ} {A : Type ν}
    → (K → V → Option W → A)
    → (K → W → A)
    → K
    → Option V
    → Option W
    → List A
expected_at act drop q (some v) previous = act q v previous ∷ []
expected_at act drop q none (some w) = drop q w ∷ []
expected_at act drop q none none = []

module _ {ℓ κ μ ν} {K : Type ℓ} {V : Type κ} {W : Type μ} {A : Type ν} ⦃o : Ord K⦄
    (act : K → V → Option W → A) (drop : K → W → A) (key : V → K) (old_key : W → K) (id : A → K)
    (acts : (k : K) (v : V) (previous : Option W) → key v ≡ k → id (act k v previous) ≡ k)
    (drops : (k : K) (w : W) → old_key w ≡ k → id (drop k w) ≡ k) where
  planned-Above :
      (q : K) (current : TreeMap K V) (persisted : TreeMap K W)
      → IsKeyed key current
      → Above q current
      → actions_at id q (planned act current persisted) ≡ []
  unfolding planned
  planned-Above q [] persisted keyed above = refl
  planned-Above q ((k, v) ∷ current) persisted (kv, keyed) (b, above) =
      ground (arith, acts k v (get k persisted) kv, planned-Above q current persisted keyed above)

  planned_at :
      (q : K) (current : TreeMap K V) (persisted : TreeMap K W)
      → IsKeyed key current
      → IsSorted current
      → actions_at id q (planned act current persisted)
        ≡ elim (get q current) [ none ↦ [] | some v ↦ act q v (get q persisted) ∷ [] ]
  unfolding planned get
  planned_at q [] persisted keyed s = refl
  planned_at q ((k, v) ∷ current) persisted (kv, keyed) (above, s) = ground (
    arith,
    acts k v (get k persisted) kv,
    o.eq_same q k,
    planned-Above q current persisted keyed,
    planned_at q current persisted keyed s,
  )

  dropped-Above :
      (q : K) (persisted : TreeMap K W) (current : TreeMap K V)
      → IsKeyed old_key persisted
      → Above q persisted
      → actions_at id q (dropped drop persisted current) ≡ []
  unfolding dropped
  dropped-Above q [] current keyed above = refl
  dropped-Above q ((k, w) ∷ persisted) current (kw, keyed) (b, above) =
      ground (arith, drops k w kw, dropped-Above q persisted current keyed above)

  dropped_at :
      (q : K) (persisted : TreeMap K W) (current : TreeMap K V)
      → IsKeyed old_key persisted
      → IsSorted persisted
      → actions_at id q (dropped drop persisted current) ≡ elim (get q current) [
        | some v ↦ []
        | none ↦ elim (get q persisted) [ none ↦ [] | some w ↦ drop q w ∷ [] ]
      ]
  unfolding dropped contains_key get
  dropped_at q [] current keyed s = ground arith
  dropped_at q ((k, w) ∷ persisted) current (kw, keyed) (above, s) = ground (
    arith,
    drops k w kw,
    o.eq_same q k,
    dropped-Above q persisted current keyed,
    dropped_at q persisted current keyed s,
  )

  -- Exactly the one action that the current and the persisted entry of `q` call for.
  pub diff_at :
      (q : K) (current : TreeMap K V) (persisted : TreeMap K W)
      → IsKeyed key current
      → IsSorted current
      → IsKeyed old_key persisted
      → IsSorted persisted
      → actions_at id q (diff act drop current persisted)
        ≡ expected_at act drop q (get q current) (get q persisted)
  unfolding diff
  diff_at q current persisted keyed s old t =
      rw (actions_at-append id q (planned act current persisted) (dropped drop persisted current)) (
        ground
          (arith, planned_at q current persisted keyed s, dropped_at q persisted current old t))
