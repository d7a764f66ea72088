-- ===== src/WorkerProto/Provenances.antt =====
-- `provenance_index` and `indexed_provenance`: a snapshot sends each provenance once, and its facts
-- name it by the place in that table. Indexes have 32 bits.
pub mod Interned
use kide.Base.{
  ℕ, zero, suc, ◌+◌, ◌-◌, ◌%◌, ◌^◌, Text, List, [], ◌∷◌, ◌++◌, Option, none, some, Bool,
}
use kide.Base.{Eq, ◌==◌, if◌then◌else◌, length}
use kide.Base.Results.{Result, ok, err, ◌>>=◌, ok_or}
use kide.Canonical.{Provenance, provenance_eq}
use kide.WorkerProto.Wire.{AdapterError, missing}
use kide.WorkerProto.Facts.{collect_results}
use kide.WorkerProto.Relations.{get_at}

-- `iter().position(|candidate| candidate == value)`, with the place of the first candidate.
unfoldable pub position_from {ℓ} : {A : Type ℓ} ⦃e : Eq A⦄ → ℕ → A → List A → Option ℕ
position_from place value [] = none
position_from place value (candidate ∷ candidates) =
    let rest = position_from (place + 1) value candidates in
    if candidate == value then some place else rest

-- The index, and the table with the value in it.
unfoldable pub provenance_index : List Provenance → Provenance → ℕ × List Provenance
unfolding position_from
provenance_index values value = elim (position_from 0 value values) [
  | some index ↦ (index % 2 ^ 32, values)
  | none ↦ ((length (values ++ (value ∷ [])) - 1) % 2 ^ 32, values ++ (value ∷ []))
]

unfoldable pub indexed_provenance : List Provenance → ℕ → Text → Result Provenance AdapterError
unfolding get_at
indexed_provenance values index field = ok_or (get_at values index) (missing field)

module _ {A B : Type 0} where
  -- The encoded facts with their indexes, and the table behind them.
  unfoldable pub index_all :
      (A → Provenance) → (A → B) → (ℕ → B → B) → List Provenance → List A → List B × List Provenance
  unfolding provenance_index
  index_all provenance_of encode set_index values [] = ([], values)
  index_all provenance_of encode set_index values (fact ∷ facts) =
      let noted = provenance_index values (provenance_of fact) in
      let rest = index_all provenance_of encode set_index noted.1 facts in
      (set_index noted.0 (encode fact) ∷ rest.0, rest.1)

  unfoldable pub decode_indexed :
      (B → ℕ)
      → (B → Provenance → Result A AdapterError)
      → List Provenance
      → Text
      → B
      → Result A AdapterError
  unfolding indexed_provenance
  decode_indexed index_of decode values field wire = do
    provenance ← indexed_provenance values (index_of wire) field
    decode wire provenance
