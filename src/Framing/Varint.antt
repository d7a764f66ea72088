-- ===== src/Framing/Varint.antt =====
-- The length prefix: what `encode` writes, and that both readers take it back.
use Prim.Native.Nat.{bit_or}
use mathlib.Core.WellFounded.{Acc}
use native.Mathlib.Nat.{div-add-mod, mod-eq_of_lt}
use mathlib.Core.Logic.{dif_neg}
use native.Mathlib.Numerals.{towards_suc}
use kide.Base.{ℕ, zero, suc, ◌+◌, ◌*◌, ◌/◌, ◌%◌, ◌^◌, ◌≤◌, ◌<◌, ◌≡◌, ap, ◌∙◌, List, [], ◌∷◌}
use kide.Base.{arith, length, All, dec_lt, ltb, if◌then◌else◌, Bool-cases, inl, inr}
use kide.Base.Bits.{low_seven, set_high_bit, bit_or-above}
use kide.Framing.{shift_shrinks, length_bytes, or_group}

length_bytes_small : (v : ℕ) (w : Acc ◌<◌ v) → v < 128 → length_bytes v w ≡ v ∷ []
unfolding length_bytes
length_bytes_small v (Acc.intro _ smaller) h = ground arith

high_byte : (v : ℕ) → bit_or (v % 2 ^ 8) 0x80 ≡ v % 128 + 128
high_byte v = rw (set_high_bit (v % 2 ^ 8) (omega arith)) (omega arith)

length_bytes_large :
    (v : ℕ) (w : Acc ◌<◌ v)
    → 128 ≤ v
    → (w' : Acc ◌<◌ (v / 128)) × (length_bytes v w ≡ (v % 128 + 128) ∷ length_bytes (v / 128) w')
unfolding length_bytes
length_bytes_large v (Acc.intro _ smaller) h =
    let big : ¬ (v < 128) = λ small. absurd (omega arith) in
    (smaller (v / 2 ^ 7) (shift_shrinks v big), rw (dif_neg (dec_lt v 128) big, high_byte v))

shift_seven : (s : ℕ) → 2 ^ (s + 7) ≡ 128 * 2 ^ s
shift_seven s = simp towards_suc (omega arith)

-- The lowest group and the groups above it, each in its place.
pub groups : (v s : ℕ) → v % 128 * 2 ^ s + v / 128 * 2 ^ (s + 7) ≡ v * 2 ^ s
groups v s = omega (
  arith,
  ap (λ (t : ℕ). t * 2 ^ s) (div-add-mod v 128),
  ap (λ (t : ℕ). v / 128 * t) (shift_seven s),
)

or_group-add :
    (acc byte s : ℕ)
    → byte < 256
    → acc < 2 ^ s
    → byte % 128 * 2 ^ s < 2 ^ 64
    → or_group acc byte s ≡ acc + byte % 128 * 2 ^ s
unfolding or_group
or_group-add acc byte s hb ha hf =
    rw (low_seven byte hb, mod-eq_of_lt hf) (bit_or-above s acc (byte % 128) ha)

-- The digits of `v` in base 128, lowest first, all but the last with the high bit: at most k + 1.
unfoldable pub varint : ℕ → ℕ → List ℕ
varint zero v = v ∷ []
varint (suc k) v =
    let rest = varint k (v / 128) in if ltb v 128 then v ∷ [] else (v % 128 + 128) ∷ rest

pub length_bytes-eq-varint :
    (k v : ℕ) (w : Acc ◌<◌ v) → v < 128 ^ suc k → length_bytes v w ≡ varint k v
unfolding varint
length_bytes-eq-varint zero v w h = length_bytes_small v w h
length_bytes-eq-varint (suc k) v w h = elim (Bool-cases (ltb v 128)) [
  | inl small ↦ rw small (length_bytes_small v w (ground arith))
  | inr big ↦
      let (w', e) = length_bytes_large v w (ground arith) in
      rw big (
        e
        ∙ ap (λ bytes. (v % 128 + 128) ∷ bytes)
            (length_bytes-eq-varint k (v / 128) w' (omega arith)))
]

-- A number below 2 ^ 64 takes one to ten bytes.
pub varint_shape :
    (k v : ℕ)
    → v < 128 ^ suc k
    → All (λ b. b < 256) (varint k v) × (1 ≤ length (varint k v)) × (length (varint k v) ≤ suc k)
unfolding varint
varint_shape zero v h = omega arith
varint_shape (suc k) v h = ground (arith, varint_shape k (v / 128))

pub or_group_last :
    (w acc s : ℕ)
    → w < 128
    → acc < 2 ^ s
    → acc + w * 2 ^ s < 2 ^ 64
    → or_group acc w s ≡ acc + w * 2 ^ s
or_group_last w acc s hw ha hf =
    let small : w % 128 ≡ w = omega arith in
    rw small at (or_group-add acc w s (omega arith) ha (rw small (omega arith)))

pub or_group_more :
    (g acc s : ℕ)
    → g < 128
    → acc < 2 ^ s
    → g * 2 ^ s < 2 ^ 64
    → or_group acc (g + 128) s ≡ acc + g * 2 ^ s
or_group_more g acc s hg ha hf =
    let small : (g + 128) % 128 ≡ g = omega arith in
    rw small at (or_group-add acc (g + 128) s (omega arith) ha (rw small (omega arith)))

pub group_fits : (acc g s : ℕ) → acc < 2 ^ s → g < 128 → acc + g * 2 ^ s < 2 ^ (s + 7)
group_fits acc g s ha hg = rw (shift_seven s) (grind arith)
