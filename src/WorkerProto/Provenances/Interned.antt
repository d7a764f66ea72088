-- ===== src/WorkerProto/Provenances/Interned.antt =====
-- Every index stands for the provenance that it was made of, in the final table too.
use kide.Base.{
  ℕ, zero, suc, ◌+◌, ◌-◌, ◌%◌, ◌^◌, ◌≤◌, ◌<◌, ◌≡◌, refl, sym, ap, ◌∙◌, Text, List, [], ◌∷◌, ◌++◌,
  none, some, append_assoc, append-nil,
}
use kide.Base.{Eq, ◌==◌, length, length-append, All, arith, Option-cases, inl, inr, Bool-cases}
use kide.Base.Results.{Result, ok}
use kide.Canonical.{Provenance, provenance_eq}
use kide.WorkerProto.Wire.{AdapterError}
use kide.WorkerProto.Facts.{collect_results}
use kide.WorkerProto.Relations.{get_at}
use kide.WorkerProto.Provenances.{
  position_from, provenance_index, indexed_provenance, index_all, decode_indexed,
}

module _ {A : Type 0} where
  pub get_at-append :
      (xs ys : List A) (i : ℕ) {v : A} → get_at xs i ≡ some v → get_at (xs ++ ys) i ≡ some v
  unfolding get_at
  get_at-append [] ys i h = cc
  get_at-append (x ∷ xs) ys zero h = h
  get_at-append (x ∷ xs) ys (suc i) h = get_at-append xs ys i h

  get_at_last : (xs : List A) (v : A) → get_at (xs ++ (v ∷ [])) (length xs) ≡ some v
  unfolding get_at
  get_at_last [] v = refl
  get_at_last (x ∷ xs) v = get_at_last xs v

  pub get_at-lt : (xs : List A) (i : ℕ) {v : A} → get_at xs i ≡ some v → i < length xs
  unfolding get_at
  get_at-lt [] i h = cc
  get_at-lt (x ∷ xs) zero h = omega arith
  get_at-lt (x ∷ xs) (suc i) h = omega (arith, get_at-lt xs i h)

-- A position that is found holds the value.
pub position_from-get_at :
    {A : Type 0} ⦃e : Eq A⦄ (place : ℕ) (value : A) (xs : List A) {i : ℕ}
    → position_from place value xs ≡ some i
    → (k : ℕ) × (i ≡ place + k) × (get_at xs k ≡ some value)
unfolding position_from get_at
position_from-get_at place value [] h = cc
position_from-get_at place value (x ∷ xs) h = elim (Bool-cases (x == value)) [
  | inl same ↦ (0, ground arith, ground arith)
  | inr other ↦
      let (k, at, found) = position_from-get_at (place + 1) value xs (rw other at h) in
      (suc k, omega arith, found)
]

-- The one table is the other with more behind it.
abbrev pub Extends : List Provenance → List Provenance → Type 0
Extends values all = (more : List Provenance) × (all ≡ values ++ more)

pub Extends-trans : (a b c : List Provenance) → Extends a b → Extends b c → Extends a c
Extends-trans a b c (x, p) (y, q) =
    (x ++ y, q ∙ ap (λ (t : List Provenance). t ++ y) p ∙ append_assoc a x y)

pub Extends-length : (a b : List Provenance) → Extends a b → length a ≤ length b
Extends-length a b (more, p) = omega (arith, length-append a more, ap length p)

pub Extends-get_at :
    (a b : List Provenance) (i : ℕ) {v : Provenance}
    → Extends a b
    → get_at a i ≡ some v
    → get_at b i ≡ some v
Extends-get_at a b i (more, p) h = rw p (get_at-append a more i h)

module _ (values : List Provenance) (value : Provenance) where
  new_index :
      position_from 0 value values ≡ none
      → provenance_index values value
        ≡ ((length (values ++ (value ∷ [])) - 1) % 2 ^ 32, values ++ (value ∷ []))
  unfolding provenance_index
  new_index absent = rw (absent, provenance_index)

  old_index :
      {i : ℕ}
      → position_from 0 value values ≡ some i
      → provenance_index values value ≡ (i % 2 ^ 32, values)
  unfolding provenance_index
  old_index found = rw (found, provenance_index)

provenance_index-Extends :
    (values : List Provenance) (value : Provenance)
    → Extends values (provenance_index values value).1
provenance_index-Extends values value = elim (Option-cases (position_from 0 value values)) [
  | inl absent ↦ rw (new_index values value absent) (value ∷ [], refl)
  | inr (i, found) ↦ rw (old_index values value found) ([], sym (append-nil values))
]

provenance_index-length :
    (values : List Provenance) (value : Provenance)
    → length (provenance_index values value).1 ≤ suc (length values)
provenance_index-length values value = elim (Option-cases (position_from 0 value values)) [
  | inl absent ↦
      rw (new_index values value absent) (omega (arith, length-append values (value ∷ [])))
  | inr (i, found) ↦ rw (old_index values value found) (omega arith)
]

provenance_index-get_at :
    (values : List Provenance) (value : Provenance)
    → length (provenance_index values value).1 < 2 ^ 32
    → get_at (provenance_index values value).1 (provenance_index values value).0 ≡ some value
provenance_index-get_at values value small = elim (Option-cases (position_from 0 value values)) [
  | inl absent ↦
      let grown = length-append values (value ∷ []) in
      let fits : length (values ++ (value ∷ [])) < 2 ^ 32 =
        rw (new_index values value absent) at small in
      let place : (length (values ++ (value ∷ [])) - 1) % 2 ^ 32 ≡ length values = omega arith in
      rw (new_index values value absent) (rw place (get_at_last values value))
  | inr (i, found) ↦
      let fits : length values < 2 ^ 32 = rw (old_index values value found) at small in
      let (k, at, held) = position_from-get_at 0 value values found in
      let bound = get_at-lt values k held in
      let place : i % 2 ^ 32 ≡ k = omega arith in rw (old_index values value found) (rw place held)
]

module _ {A B : Type 0} (provenance_of : A → Provenance) (encode : A → B)
    (set_index : ℕ → B → B) where
  pub index_all-Extends :
      (values : List Provenance) (facts : List A)
      → Extends values (index_all provenance_of encode set_index values facts).1
  unfolding index_all
  index_all-Extends values [] = ([], sym (append-nil values))
  index_all-Extends values (fact ∷ facts) =
      let noted = provenance_index values (provenance_of fact) in
      Extends-trans values noted.1 (index_all provenance_of encode set_index noted.1 facts).1
        (provenance_index-Extends values (provenance_of fact)) (index_all-Extends noted.1 facts)

  pub index_all-length :
      (values : List Provenance) (facts : List A)
      → length (index_all provenance_of encode set_index values facts).1
        ≤ length values + length facts
  unfolding index_all
  index_all-length values [] = omega arith
  index_all-length values (fact ∷ facts) =
      let noted = provenance_index values (provenance_of fact) in
      omega
        (arith, index_all-length noted.1 facts, provenance_index-length values (provenance_of fact))

  module _ (index_of : B → ℕ) (decode : B → Provenance → Result A AdapterError) (field : Text)
      (Own : A → Type 0) (placed : (i : ℕ) (wire : B) → index_of (set_index i wire) ≡ i)
      (round : (fact : A) (i : ℕ)
        → Own fact
        → decode (set_index i (encode fact)) (provenance_of fact) ≡ ok fact) where
    -- Facts that decode under their provenance come back from their indexes into any table that
    -- extends the one they were written with.
    pub decode_indexed-index_all :
        (values : List Provenance) (facts : List A) (all : List Provenance)
        → Extends (index_all provenance_of encode set_index values facts).1 all
        → length all < 2 ^ 32
        → All Own facts
        → collect_results
            (decode_indexed index_of decode all field)
            (index_all provenance_of encode set_index values facts).0
          ≡ ok facts
    unfolding index_all collect_results decode_indexed indexed_provenance
    decode_indexed-index_all values [] all later small own = refl
    decode_indexed-index_all values (fact ∷ facts) all later small (mine, own) =
        let noted = provenance_index values (provenance_of fact) in
        let rest = index_all provenance_of encode set_index noted.1 facts in
        let grown : Extends noted.1 all =
          Extends-trans noted.1 rest.1 all (index_all-Extends noted.1 facts) later in
        let fits : length noted.1 < 2 ^ 32 = omega (arith, Extends-length noted.1 all grown) in
        let held : get_at all noted.0 ≡ some (provenance_of fact) =
          Extends-get_at noted.1 all noted.0 grown
            (provenance_index-get_at values (provenance_of fact) fits) in
        rw
          (
            placed noted.0 (encode fact),
            held,
            round fact noted.0 mine,
            decode_indexed-index_all noted.1 facts all later small own,
          )
          refl
