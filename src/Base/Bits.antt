-- ===== src/Base/Bits.antt =====
-- Masks and disjoint bit fields as arithmetic.
use Prim.Native.Nat.{max, digits, bit_and, bit_or, bit_or-bitwise}
use mathlib.Core.WellFounded.{Acc}
use native.Mathlib.Nat.{pow-suc}
use native.Mathlib.Omega.{arith}
use Prim.Native.Nat.{ℕ, zero, suc, ◌+◌, ◌*◌, ◌/◌, ◌%◌, ◌^◌, ◌≤◌, ◌<◌}
use mathlib.Core.Path.{◌≡◌, refl, ap}
use mathlib.Core.Bool.{Bool, true, ◌&&◌}
use kide.Base.Conditions.{eqb}

-- Both sides agree on every byte: a table, checked by evaluation.
byte_table : (f g : ℕ → ℕ) → ℕ → Bool
byte_table f g zero = true
byte_table f g (suc n) = eqb (f n) (g n) && byte_table f g n

byte_table-eq : (f g : ℕ → ℕ) (n b : ℕ) → byte_table f g n ≡ true → b < n → f b ≡ g b
unfolding byte_table
byte_table-eq f g zero b h lt = absurd (omega arith)
byte_table-eq f g (suc n) b h lt = ground (arith, byte_table-eq f g n b)

pub low_seven : (b : ℕ) → b < 256 → bit_and b 0x7f ≡ b % 128
unfolding byte_table
low_seven b = byte_table-eq (λ b. bit_and b 0x7f) (λ b. b % 128) 256 b refl

pub high_bit : (b : ℕ) → b < 256 → bit_and b 0x80 ≡ b / 128 * 128
unfolding byte_table
high_bit b = byte_table-eq (λ b. bit_and b 0x80) (λ b. b / 128 * 128) 256 b refl

pub set_high_bit : (b : ℕ) → b < 256 → bit_or b 0x80 ≡ b % 128 + 128
unfolding byte_table
set_high_bit b = byte_table-eq (λ b. bit_or b 0x80) (λ b. b % 128 + 128) 256 b refl

-- The digit recursion that `bit_or` stands for, where the second number lies above the first.
or_above : (n s a x : ℕ) → a ≤ n → a < 2 ^ s → digits (λ y. y) max n a (x * 2 ^ s) ≡ a + x * 2 ^ s
or_above zero s zero x h lt = omega arith
or_above zero s (suc a) x h lt = absurd (omega arith)
or_above (suc n) s zero x h lt = omega arith
or_above (suc n) zero (suc a) x h lt = absurd (omega arith)
or_above (suc n) (suc s) (suc a) x h lt =
    let double : x * 2 ^ suc s ≡ x * 2 ^ s * 2 =
      omega (arith, ap (λ (t : ℕ). x * t) (pow-suc 2 s)) in
    let halves : x * 2 ^ suc s / 2 ≡ x * 2 ^ s = omega arith in
    rw halves (omega (arith, or_above n s (suc a / 2) x (omega arith) (omega (arith, pow-suc 2 s))))

pub bit_or-above : (s a x : ℕ) → a < 2 ^ s → bit_or a (x * 2 ^ s) ≡ a + x * 2 ^ s
bit_or-above s a x lt = rw bit_or-bitwise (or_above a s a x (omega arith) lt)

-- `<` on the numbers is well founded.
below : (k n : ℕ) → n < k → Acc ◌<◌ n
below zero n h = absurd (omega arith)
below (suc k) n h = Acc.intro n (λ m hm. below k m (omega arith))

unfoldable pub lt_acc : (n : ℕ) → Acc ◌<◌ n
unfolding below
lt_acc n = below (suc n) n (omega arith)
