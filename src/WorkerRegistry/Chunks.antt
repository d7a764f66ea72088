-- ===== src/WorkerRegistry/Chunks.antt =====
-- The chunks of a group, and counts of source units.
use Prim.Native.Nat.{◌+◌}
use kide.Base.{
  ℕ, zero, suc, ◌≤◌, ◌≡◌, refl, ap, ◌∙◌, List, [], ◌∷◌, ◌++◌, Bool, arith, if◌then◌else◌, Ord,
}
use kide.Base.{length, take, drop, length-drop, All}
use kide.Canonical.{SourceUnit}
use kide.WorkerRegistry.{chunks, insert_by_key, sort_by_key}

module _ {ℓ} {A : Type ℓ} (p : A → Bool) where
  -- How many elements pass a test.
  abbrev pub count : List A → ℕ
  count [] = 0
  count (x ∷ xs) = (if p x then 1 else 0) + count xs

  pub count-append : (xs ys : List A) → count (xs ++ ys) ≡ count xs + count ys
  count-append [] ys = omega arith
  count-append (x ∷ xs) ys = omega (arith, count-append xs ys)

  pub count-take-drop : (n : ℕ) (xs : List A) → count (take n xs) + count (drop n xs) ≡ count xs
  count-take-drop zero xs = omega arith
  count-take-drop (suc n) [] = omega arith
  count-take-drop (suc n) (x ∷ xs) = omega (arith, count-take-drop n xs)

module _ {ℓ κ} {A : Type ℓ} {K : Type κ} ⦃o : Ord K⦄ (key : A → K) (p : A → Bool) where
  count-insert_by_key : (x : A) (ys : List A) → count p (insert_by_key key x ys) ≡ count p (x ∷ ys)
  unfolding insert_by_key
  count-insert_by_key x [] = refl
  count-insert_by_key x (y ∷ ys) = ground (arith, count-insert_by_key x ys)

  pub count-sort_by_key : (xs : List A) → count p (sort_by_key key xs) ≡ count p xs
  unfolding sort_by_key
  count-sort_by_key [] = refl
  count-sort_by_key (x ∷ xs) =
      omega (arith, count-insert_by_key x (sort_by_key key xs), count-sort_by_key xs)

abbrev pub concat : List (List SourceUnit) → List SourceUnit
concat [] = []
concat (xs ∷ xss) = xs ++ concat xss

take-drop : (n : ℕ) (xs : List SourceUnit) → take n xs ++ drop n xs ≡ xs
take-drop zero xs = refl
take-drop (suc n) [] = refl
take-drop (suc n) (x ∷ xs) = ap (λ ys. x ∷ ys) (take-drop n xs)

-- With fuel for every unit and a positive size, the chunks are the units, in order …
pub concat-chunks :
    (fuel size : ℕ) (units : List SourceUnit)
    → 1 ≤ size
    → length units ≤ fuel
    → concat (chunks fuel size units) ≡ units
unfolding chunks
concat-chunks zero size [] hs hf = refl
concat-chunks zero size (u ∷ units) hs hf = absurd (omega arith)
concat-chunks (suc fuel) size [] hs hf = refl
concat-chunks (suc fuel) size (u ∷ units) hs hf =
    ap (λ ys. take size (u ∷ units) ++ ys)
      (concat-chunks fuel size (drop size (u ∷ units)) hs
        (omega (arith, length-drop size (u ∷ units))))
    ∙ take-drop size (u ∷ units)

abbrev pub Fits : ℕ → List SourceUnit → Type 0
Fits size chunk = (1 ≤ length chunk) × (length chunk ≤ size)

take-Fits :
    (size : ℕ) (u : SourceUnit) (units : List SourceUnit)
    → 1 ≤ size
    → Fits size (take size (u ∷ units))
take-Fits zero u units h = absurd (omega arith)
take-Fits (suc size) u units h = (omega arith, omega (arith, length-take_le size units))
  where
    length-take_le : (n : ℕ) (xs : List SourceUnit) → length (take n xs) ≤ n
    length-take_le zero xs = omega arith
    length-take_le (suc n) [] = omega arith
    length-take_le (suc n) (x ∷ xs) = omega (arith, length-take_le n xs)

-- … and each has at least one unit and at most `size`.
pub chunks-Fits :
    (fuel size : ℕ) (units : List SourceUnit) → 1 ≤ size → All (Fits size) (chunks fuel size units)
unfolding chunks
chunks-Fits zero size units hs = tt
chunks-Fits (suc fuel) size [] hs = tt
chunks-Fits (suc fuel) size (u ∷ units) hs =
    (take-Fits size u units hs, chunks-Fits fuel size (drop size (u ∷ units)) hs)
