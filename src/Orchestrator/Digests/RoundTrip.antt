-- ===== src/Orchestrator/Digests/RoundTrip.antt =====
-- Which digests `sha256_bytes` reads back, and which make it panic.
use kide.Base.{ℕ, ◌*◌, ◌/◌, ◌%◌, ◌≤◌, ◌<◌, ◌≡◌, refl, List, [], ◌∷◌, ◌++◌, some, true}
use kide.Base.{utf8, text_eq, arith, length, All, ℕ_discrete}
use kide.Base.Results.{ok, err}
use kide.ArtifactCache.{hex, hex_digit}
use kide.Orchestrator.Digests.{digit_value, from_str_radix, is_char_boundary, digest_bytes}
use kide.Orchestrator.Digests.{strip_sha256, sha256_bytes, panic}

pub digit_value-hex_digit : (d : ℕ) → d < 16 → digit_value (hex_digit d) ≡ some d
unfolding digit_value hex_digit
digit_value-hex_digit d h = ground arith

pub from_str_radix-hex :
    (b : ℕ) → b < 256 → from_str_radix (hex_digit (b / 16)) (hex_digit (b % 16)) ≡ some b
unfolding from_str_radix
from_str_radix-hex b h =
    rw (digit_value-hex_digit (b / 16) (omega arith), from_str_radix)
      (rw (digit_value-hex_digit (b % 16) (omega arith)) (ground arith))

is_char_boundary-hex :
    (bytes : List ℕ) → All (λ b. b < 256) bytes → is_char_boundary (hex bytes) ≡ true
unfolding hex hex_digit is_char_boundary
is_char_boundary-hex [] h = refl
is_char_boundary-hex (b ∷ bytes) h = ground arith

pub length-hex : (bytes : List ℕ) → length (hex bytes) ≡ 2 * length bytes
unfolding hex
length-hex [] = omega arith
length-hex (b ∷ bytes) = omega (arith, length-hex bytes)

digest_bytes-hex :
    (bytes : List ℕ) → All (λ b. b < 256) bytes → digest_bytes (hex bytes) ≡ ok (some bytes)
unfolding digest_bytes hex
digest_bytes-hex [] h = refl
digest_bytes-hex (b ∷ bytes) (hb, h) =
    rw (is_char_boundary-hex bytes h) (rw (from_str_radix-hex b hb) (rw (digest_bytes-hex bytes h)))

-- A digest of 32 bytes is read back from its lower-case hexadecimal form behind `sha256:`.
pub sha256_bytes-hex :
    (bytes : List ℕ)
    → length bytes ≡ 32
    → All (λ b. b < 256) bytes
    → sha256_bytes (utf8 "sha256:" ++ hex bytes) ≡ ok (some bytes)
unfolding sha256_bytes strip_sha256 text_eq ℕ_discrete
sha256_bytes-hex bytes size h =
    let long : length (hex bytes) ≡ 64 = omega (arith, length-hex bytes) in
    rw (digest_bytes-hex bytes h, long) (ground arith)

-- A reported digest of 64 bytes panics if its third byte continues a character, whatever the other
-- bytes are.
pub sha256_bytes_panics :
    (a b c : ℕ) (rest : List ℕ)
    → length rest ≡ 61
    → 128 ≤ c
    → c < 192
    → sha256_bytes (utf8 "sha256:" ++ (a ∷ b ∷ c ∷ rest)) ≡ err panic
unfolding sha256_bytes strip_sha256 digest_bytes is_char_boundary
sha256_bytes_panics a b c rest size low high = ground arith
