-- ===== src/ArtifactCache/Names.antt =====
-- The names of files: a blob's is never a temporary one, and two digests have two names.
use kide.Base.{ℕ, ◌/◌, ◌%◌, ◌<◌, ◌≡◌, ◌≢◌, refl, List, [], ◌∷◌, ◌++◌}
use kide.Base.{Text, utf8, text_eq, Option, arith, length, All}
use kide.DependencyIdentity.{ArtifactBlobKey}
use kide.ArtifactCache.{Directory, set_file, hex, hex_digit, filename, temporary_name}

-- What is documented of SHA-256: a digest is 32 bytes.
pub record IsDigest (digest : ArtifactBlobKey → List ℕ) : Type 0 where
  pub size : (key : ArtifactBlobKey) → length (digest key) ≡ 32
  pub is_byte : (key : ArtifactBlobKey) → All (λ b. b < 256) (digest key)

hex_digit_injective : (a b : ℕ) → a < 16 → b < 16 → hex_digit a ≡ hex_digit b → a ≡ b
unfolding hex_digit
hex_digit_injective a b ha hb h = ground arith

hex_injective :
    (xs ys : List ℕ) (rest : Text)
    → length xs ≡ length ys
    → All (λ b. b < 256) xs
    → All (λ b. b < 256) ys
    → hex xs ++ rest ≡ hex ys ++ rest
    → xs ≡ ys
unfolding hex
hex_injective [] [] rest n hx hy h = refl
hex_injective [] (y ∷ ys) rest n hx hy h = absurd (omega arith)
hex_injective (x ∷ xs) [] rest n hx hy h = absurd (omega arith)
hex_injective (x ∷ xs) (y ∷ ys) rest n (bx, hx) (b, hy) h =
    let high : x / 16 ≡ y / 16 =
      hex_digit_injective (x / 16) (y / 16) (omega arith) (omega arith) (cc) in
    let low : x % 16 ≡ y % 16 =
      hex_digit_injective (x % 16) (y % 16) (omega arith) (omega arith) (cc) in
    let same : x ≡ y = omega arith in
    let tail : xs ≡ ys = hex_injective xs ys rest (omega arith) hx hy (cc) in cc

hex_ne_dot : (xs : List ℕ) (rest text : Text) → length xs ≡ 32 → hex xs ++ rest ≢ b'.' ∷ text
unfolding hex hex_digit
hex_ne_dot [] rest text n h = absurd (omega arith)
hex_ne_dot (x ∷ xs) rest text n h = ground arith

module _ (digest : ArtifactBlobKey → List ℕ) (d : IsDigest digest) where
  pub filename-ne :
      (key other : ArtifactBlobKey)
      → digest key ≢ digest other
      → filename digest key ≢ filename digest other
  unfolding filename
  filename-ne key other n h = n (
      hex_injective (digest key) (digest other) (utf8 ".blob")
        (omega (arith, d.size key, d.size other)) (d.is_byte key) (d.is_byte other) h)

  pub filename-ne-temporary_name :
      (key other : ArtifactBlobKey) (process_id : ℕ)
      → filename digest key ≢ temporary_name digest process_id other
  unfolding filename temporary_name
  filename-ne-temporary_name key other process_id h =
      hex_ne_dot (digest key) (utf8 ".blob") _ (d.size key) h

pub set_file_same :
    (name : Text) (file : Option (List ℕ)) (directory : Directory)
    → set_file name file directory name ≡ file
unfolding set_file
set_file_same name file directory = ground arith

pub set_file_other :
    (name other : Text) (file : Option (List ℕ)) (directory : Directory)
    → other ≢ name
    → set_file name file directory other ≡ directory other
unfolding set_file
set_file_other name other file directory n = ground arith
