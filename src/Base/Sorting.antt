-- ===== src/Base/Sorting.antt =====
-- `sort_by` by the order of the elements, and `dedup_by` equality, on a `Vec`.
use Prim.Native.Nat.Ordering.{lt, eq, gt}
use mathlib.Core.Path.{◌≡◌, refl}
use mathlib.Core.Bool.{Bool, true, false}
use mathlib.Core.List.{List, [], ◌∷◌}
use native.Mathlib.Omega.{arith}
use kide.Base.Order.{Ord, ◌≺◌}

module _ {ℓ} {A : Type ℓ} ⦃o : Ord A⦄ where
  unfoldable pub sorted_insert : A → List A → List A
  sorted_insert x [] = x ∷ []
  sorted_insert x (y ∷ ys) = elim (o.cmp x y) [ gt ↦ y ∷ sorted_insert x ys | _ ↦ x ∷ y ∷ ys ]

  unfoldable pub sort : List A → List A
  unfolding sorted_insert
  sort [] = []
  sort (x ∷ xs) = sorted_insert x (sort xs)

  -- Drops each element that equals the last one kept.
  unfoldable pub dedup_after : A → List A → List A
  dedup_after x [] = []
  dedup_after x (y ∷ ys) =
      let rest = y ∷ dedup_after y ys in
      let skipped = dedup_after x ys in elim (o.cmp x y) [ eq ↦ skipped | _ ↦ rest ]

  unfoldable pub dedup : List A → List A
  unfolding dedup_after
  dedup [] = []
  dedup (x ∷ xs) = x ∷ dedup_after x xs

  -- membership by the order's equality
  abbrev pub member : A → List A → Bool
  member q [] = false
  member q (x ∷ xs) = elim (o.cmp q x) [ eq ↦ true | _ ↦ member q xs ]

  -- each element strictly before the next
  abbrev pub StrictlyAbove : A → List A → Type 0
  StrictlyAbove x [] = Unit
  StrictlyAbove x (y ∷ ys) = (x ≺ y) × StrictlyAbove y ys

  abbrev pub Ascends : List A → Type 0
  Ascends [] = Unit
  Ascends (x ∷ xs) = StrictlyAbove x xs

  abbrev NotBelow : A → List A → Type 0
  NotBelow x [] = Unit
  NotBelow x (y ∷ ys) = (o.cmp y x ≡ lt → ⊥) × NotBelow y ys

  abbrev pub IsOrdered : List A → Type 0
  IsOrdered [] = Unit
  IsOrdered (x ∷ xs) = NotBelow x xs

  NotBelow-sorted_insert :
      (p x : A) (ys : List A)
      → (o.cmp x p ≡ lt → ⊥)
      → NotBelow p ys
      → NotBelow p (sorted_insert x ys)
  unfolding sorted_insert
  NotBelow-sorted_insert p x [] h n = (h, tt)
  NotBelow-sorted_insert p x (y ∷ ys) h (b, n) = ground (
    arith,
    NotBelow-sorted_insert y x ys,
    o.lt_swap y x,
    o.lt_swap x y,
    o.gt_swap x y,
    o.eq_same x y,
    o.cmp_same x,
    o.cmp_same y,
  )

  sorted_insert-IsOrdered : (x : A) (ys : List A) → IsOrdered ys → IsOrdered (sorted_insert x ys)
  unfolding sorted_insert
  sorted_insert-IsOrdered x [] s = tt
  sorted_insert-IsOrdered x (y ∷ ys) s = ground (
    arith,
    NotBelow-sorted_insert y x ys,
    o.lt_swap y x,
    o.lt_swap x y,
    o.gt_swap x y,
    o.eq_same x y,
    o.cmp_same y,
  )

  pub sort-IsOrdered : (xs : List A) → IsOrdered (sort xs)
  unfolding sort
  sort-IsOrdered [] = tt
  sort-IsOrdered (x ∷ xs) = sorted_insert-IsOrdered x (sort xs) (sort-IsOrdered xs)

  dedup_after-StrictlyAbove :
      (x : A) (ys : List A) → NotBelow x ys → StrictlyAbove x (dedup_after x ys)
  unfolding dedup_after
  dedup_after-StrictlyAbove x [] n = tt
  dedup_after-StrictlyAbove x (y ∷ ys) (b, n) = ground (
    arith,
    o.eq_same x y,
    o.gt_swap x y,
    dedup_after-StrictlyAbove x ys,
    dedup_after-StrictlyAbove y ys n,
  )

  dedup-Ascends : (xs : List A) → IsOrdered xs → Ascends (dedup xs)
  unfolding dedup
  dedup-Ascends [] s = tt
  dedup-Ascends (x ∷ xs) s = dedup_after-StrictlyAbove x xs s

  -- Sorting and then dropping repeats leaves a strictly ascending list …
  pub dedup-sort-Ascends : (xs : List A) → Ascends (dedup (sort xs))
  dedup-sort-Ascends xs = dedup-Ascends (sort xs) (sort-IsOrdered xs)

  member-sorted_insert : (q x : A) (ys : List A) → member q (sorted_insert x ys) ≡ member q (x ∷ ys)
  unfolding sorted_insert
  member-sorted_insert q x [] = refl
  member-sorted_insert q x (y ∷ ys) = ground (arith, member-sorted_insert q x ys)

  member-sort : (q : A) (xs : List A) → member q (sort xs) ≡ member q xs
  unfolding sort
  member-sort q [] = refl
  member-sort q (x ∷ xs) = ground (arith, member-sorted_insert q x (sort xs), member-sort q xs)

  member-dedup_after : (q x : A) (ys : List A) → member q (x ∷ dedup_after x ys) ≡ member q (x ∷ ys)
  unfolding dedup_after
  member-dedup_after q x [] = refl
  member-dedup_after q x (y ∷ ys) =
      ground (arith, o.eq_same x y, member-dedup_after q x ys, member-dedup_after q y ys)

  member-dedup : (q : A) (xs : List A) → member q (dedup xs) ≡ member q xs
  unfolding dedup
  member-dedup q [] = refl
  member-dedup q (x ∷ xs) = member-dedup_after q x xs

  -- … with the same elements.
  pub member-dedup-sort : (q : A) (xs : List A) → member q (dedup (sort xs)) ≡ member q xs
  member-dedup-sort q xs = rw (member-dedup q (sort xs)) (member-sort q xs)
