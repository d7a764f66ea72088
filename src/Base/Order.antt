-- ===== src/Base/Order.antt =====
-- `Ord` of Rust: a three-way comparison and the laws it documents; numbers, lists and pairs have one.
use Prim.Native.Nat.{ℕ, compare, Ordering}
use Prim.Native.Nat.Ordering.{lt, eq, gt}
use mathlib.Core.Path.{◌≡◌, refl}
use mathlib.Core.List.{List, [], ◌∷◌}
use native.Mathlib.Omega.{arith}

-- `Ordering::then`: the second outcome decides where the first is a draw.
abbrev pub then : Ordering → Ordering → Ordering
then lt _ = lt
then gt _ = gt
then eq tie = tie

pub record IsTotal {ℓ} {K : Type ℓ} (cmp : K → K → Ordering) : Type ℓ where
  pub lt_chain : (x y z : K) → cmp x y ≡ lt → cmp y z ≡ lt → cmp x z ≡ lt
  pub lt_swap : (x y : K) → cmp x y ≡ lt → cmp y x ≡ gt
  pub gt_swap : (x y : K) → cmp x y ≡ gt → cmp y x ≡ lt
  pub eq_same : (x y : K) → cmp x y ≡ eq → x ≡ y
  pub cmp_same : (x : K) → cmp x x ≡ eq

pub record Ord {ℓ} (T : Type ℓ) : Type ℓ where
  pub cmp : T → T → Ordering
  pub laws : IsTotal cmp
  pub open laws use *

module _ {ℓ} {T : Type ℓ} ⦃o : Ord T⦄ where
  infix 50 ◌≺◌
  abbrev pub ◌≺◌ : T → T → Type 0
  x ≺ y = o.cmp x y ≡ lt

-- lexicographic order of lists, the shorter first
abbrev pub lex_list {ℓ} : {A : Type ℓ} ⦃o : Ord A⦄ → List A → List A → Ordering
lex_list [] [] = eq
lex_list [] (y ∷ ys) = lt
lex_list (x ∷ xs) [] = gt
lex_list ⦃o⦄ (x ∷ xs) (y ∷ ys) = then (o.cmp x y) (lex_list xs ys)

module _ {ℓ} {A : Type ℓ} ⦃o : Ord A⦄ where
  lex_list_refl : (xs : List A) → lex_list xs xs ≡ eq
  lex_list_refl [] = refl
  lex_list_refl (x ∷ xs) = rw (o.cmp_same x) (lex_list_refl xs)

  lex_list-eq : (xs ys : List A) → lex_list xs ys ≡ eq → xs ≡ ys
  lex_list-eq [] [] h = refl
  lex_list-eq [] (y ∷ ys) h = cc
  lex_list-eq (x ∷ xs) [] h = cc
  lex_list-eq (x ∷ xs) (y ∷ ys) h = ground (arith, o.eq_same x y, lex_list-eq xs ys)

  lex_list-gt : (xs ys : List A) → lex_list xs ys ≡ gt → lex_list ys xs ≡ lt
  lex_list-gt [] [] h = cc
  lex_list-gt [] (y ∷ ys) h = cc
  lex_list-gt (x ∷ xs) [] h = refl
  lex_list-gt (x ∷ xs) (y ∷ ys) h =
      ground (arith, o.eq_same x y, o.cmp_same x, o.gt_swap x y, lex_list-gt xs ys)

  lex_list-lt : (xs ys : List A) → lex_list xs ys ≡ lt → lex_list ys xs ≡ gt
  lex_list-lt [] [] h = cc
  lex_list-lt [] (y ∷ ys) h = refl
  lex_list-lt (x ∷ xs) [] h = cc
  lex_list-lt (x ∷ xs) (y ∷ ys) h =
      ground (arith, o.eq_same x y, o.cmp_same x, o.lt_swap x y, lex_list-lt xs ys)

  lex_list_trans :
      (xs ys zs : List A) → lex_list xs ys ≡ lt → lex_list ys zs ≡ lt → lex_list xs zs ≡ lt
  lex_list_trans [] [] zs h k = cc
  lex_list_trans [] (y ∷ ys) [] h k = cc
  lex_list_trans [] (y ∷ ys) (z ∷ zs) h k = refl
  lex_list_trans (x ∷ xs) [] zs h k = cc
  lex_list_trans (x ∷ xs) (y ∷ ys) [] h k = cc
  lex_list_trans (x ∷ xs) (y ∷ ys) (z ∷ zs) h k =
      ground (arith, o.eq_same x y, o.eq_same y z, o.lt_chain x y z, lex_list_trans xs ys zs)

  pub lex_list-IsTotal : IsTotal {K = List A} lex_list
  lex_list-IsTotal = record {
    cmp_same = lex_list_refl;
    eq_same = lex_list-eq;
    gt_swap = lex_list-gt;
    lt_swap = lex_list-lt;
    lt_chain = lex_list_trans;
  }

  instance unfoldable pub list_ord : Ord (List A)
  list_ord = record { laws = lex_list-IsTotal; cmp = lex_list }

pub compare-IsTotal : IsTotal compare
compare-IsTotal = ground arith

instance unfoldable pub nat_ord : Ord ℕ
nat_ord = record { laws = compare-IsTotal; cmp = compare }

module _ {ℓ κ} {S : Type ℓ} {T : Type κ} ⦃s : Ord S⦄ ⦃t : Ord T⦄ where
  -- the first components, then the second
  abbrev pub lex : S × T → S × T → Ordering
  lex p q = then (s.cmp p.0 q.0) (t.cmp p.1 q.1)

  lex_chain : (p q r : S × T) → lex p q ≡ lt → lex q r ≡ lt → lex p r ≡ lt
  lex_chain p q r = grind (arith, s.eq_same p.0 q.0, s.eq_same q.0 r.0, s.lt_chain, t.lt_chain)

  pub lex-IsTotal : IsTotal {K = S × T} lex
  lex-IsTotal = record {
    lt_chain = lex_chain;
    lt_swap = λ p q. ground (arith, t.lt_swap p.1 q.1, s.lt_swap p.0 q.0, s.eq_same p.0 q.0);
    gt_swap = λ p q. ground (arith, t.gt_swap p.1 q.1, s.gt_swap p.0 q.0, s.eq_same p.0 q.0);
    eq_same = λ p q. ground (arith, t.eq_same p.1 q.1, s.eq_same p.0 q.0);
    cmp_same = λ p. simp (t.cmp_same, s.cmp_same);
  }

  instance unfoldable pub pair_ord : Ord (S × T)
  pair_ord = record { laws = lex-IsTotal; cmp = lex }
