-- ===== src/ArtifactCache/Blobs.antt =====
-- The bytes of a blob: a whole one opens to its payload, and nothing else opens.
use kide.Base.{
  ℕ, zero, suc, ◌+◌, ◌*◌, ◌/◌, ◌%◌, ◌^◌, ◌≤◌, ◌<◌, ◌≡◌, ◌≢◌, refl, sym, ap, ◌∙◌, List, [], ◌∷◌,
  ◌++◌,
}
use kide.Base.{text_eq, ◌==◌}
use kide.Base.{subst}
use kide.Base.{arith, length, take, drop, All, eqb, if◌then◌else◌}
use kide.Base.{
  length-append, length-take, length-drop, take-append, drop-append, take_all, All-drop, All-take,
  drop-drop, take-append-drop,
}
use kide.Base.Results.{Result, ok, err, chain_ok}
use native.Mathlib.Nat.{pow-suc}
use kide.DependencyIdentity.{ArtifactBlobKey}
use kide.ArtifactCache.{
  ArtifactBlob, ArtifactBlobCacheError, magic, header_size, to_le_bytes, from_le_bytes, header,
  validate_header, open_header, open_file, invalid_header,
}
use kide.ArtifactCache.Names.{IsDigest}

pub length-to_le_bytes : (n v : ℕ) → length (to_le_bytes n v) ≡ n
unfolding to_le_bytes
length-to_le_bytes zero v = refl
length-to_le_bytes (suc n) v = omega (arith, length-to_le_bytes n (v / 2 ^ 8))

pub from_le_bytes-to_le_bytes : (n v : ℕ) → v < 256 ^ n → from_le_bytes (to_le_bytes n v) ≡ v
unfolding from_le_bytes to_le_bytes
from_le_bytes-to_le_bytes zero v h = omega arith
from_le_bytes-to_le_bytes (suc n) v h =
    let room = pow-suc 256 n in omega (arith, from_le_bytes-to_le_bytes n (v / 256) (omega arith))

from_le_bytes-lt : (bs : List ℕ) → All (λ b. b < 256) bs → from_le_bytes bs < 256 ^ length bs
unfolding from_le_bytes
from_le_bytes-lt [] h = omega arith
from_le_bytes-lt (b ∷ bs) (hb, h) = omega (arith, from_le_bytes-lt bs h, pow-suc 256 (length bs))

-- The file of a whole blob.
abbrev pub blob_bytes : (ArtifactBlobKey → List ℕ) → ArtifactBlobKey → List ℕ → List ℕ
blob_bytes digest key payload = header digest key (length payload) ++ payload

module _ (digest : ArtifactBlobKey → List ℕ) (d : IsDigest digest) (key : ArtifactBlobKey) where
  pub length-header : (n : ℕ) → length (header digest key n) ≡ header_size
  unfolding header
  length-header n = omega (
    arith,
    length-append (digest key) (to_le_bytes 8 n),
    length-append (to_le_bytes 4 1) (digest key ++ to_le_bytes 8 n),
    length-to_le_bytes 8 n,
    length-to_le_bytes 4 1,
    d.size key,
  )

  digest_in_place : (n : ℕ) → take 32 (drop 12 (header digest key n)) ≡ digest key
  unfolding header to_le_bytes
  digest_in_place n = take-append 32 (digest key) (to_le_bytes 8 n) (d.size key)

  length_in_place : (n : ℕ) → take 8 (drop 44 (header digest key n)) ≡ to_le_bytes 8 n
  unfolding header
  length_in_place n = ap (take 8) (drop-append 32 (digest key) (to_le_bytes 8 n) (d.size key))

  -- The header of one key is that of another only with the same digest.
  validate_header-header :
      (other : ArtifactBlobKey) (n : ℕ)
      → n < 2 ^ 64
      → validate_header digest (header digest key n) other
        ≡ (if digest key == digest other then ok n else err invalid_header)
  unfolding validate_header
  validate_header-header other n h =
      let size = length-header n in
      let value : from_le_bytes (take 8 (drop 44 (header digest key n))) ≡ n =
        ap from_le_bytes (length_in_place n) ∙ from_le_bytes-to_le_bytes 8 n (omega arith) in
      let front : take 8 (header digest key n) ≡ magic = unfold header in refl in
      let version : take 4 (drop 8 (header digest key n)) ≡ to_le_bytes 4 1 =
        unfold header to_le_bytes in refl in
      rw (digest_in_place n, value, front, version, size) (ground arith)

  module _ (payload : List ℕ) (fits : header_size + length payload < 2 ^ 64) where
    open_header-blob :
        open_header (blob_bytes digest key payload) ≡ ok (header digest key (length payload))
    unfolding open_header
    open_header-blob =
        let size = length-header (length payload) in
        let whole = length-append (header digest key (length payload)) payload in
        let front = take-append 52 (header digest key (length payload)) payload size in
        rw front (ground arith)

    -- A whole blob opens under its key.
    pub open_file-blob :
        open_file digest (blob_bytes digest key payload) key
        ≡ ok (record { file = blob_bytes digest key payload; payload_len = length payload })
    unfolding open_file
    open_file-blob =
        let size = length-header (length payload) in
        let whole = length-append (header digest key (length payload)) payload in
        rw open_header-blob
          (rw (validate_header-header key (length payload) (omega arith)) (ground arith))

    -- A whole blob does not open under a key of another digest.
    pub open_file-other :
        (other : ArtifactBlobKey)
        → digest key ≢ digest other
        → open_file digest (blob_bytes digest key payload) other ≡ err invalid_header
    unfolding open_file
    open_file-other other n =
        rw open_header-blob
          (rw (validate_header-header other (length payload) (omega arith)) (ground arith))

to_le_bytes-from_le_bytes :
    (bs : List ℕ) → All (λ b. b < 256) bs → to_le_bytes (length bs) (from_le_bytes bs) ≡ bs
unfolding to_le_bytes from_le_bytes
to_le_bytes-from_le_bytes [] h = refl
to_le_bytes-from_le_bytes (b ∷ bs) (hb, h) =
    let low : (b + 256 * from_le_bytes bs) % 256 ≡ b = omega arith in
    let high : (b + 256 * from_le_bytes bs) / 256 ≡ from_le_bytes bs = omega arith in
    rw (low, high, to_le_bytes-from_le_bytes bs h)

module _ (digest : ArtifactBlobKey → List ℕ) (key : ArtifactBlobKey) (bytes : List ℕ) {n : ℕ}
    (valid : validate_header digest bytes key ≡ ok n) where
  validate_header_size : length bytes ≡ 52
  unfolding validate_header
  validate_header_size = ground arith

  validate_header_magic : take 8 bytes ≡ magic
  unfolding validate_header
  validate_header_magic = ground arith

  validate_header_version : take 4 (drop 8 bytes) ≡ to_le_bytes 4 1
  unfolding validate_header
  validate_header_version = ground arith

  validate_header_key : take 32 (drop 12 bytes) ≡ digest key
  unfolding validate_header
  validate_header_key = ground arith

  validate_header_value : n ≡ from_le_bytes (take 8 (drop 44 bytes))
  unfolding validate_header
  validate_header_value = ground arith

  valid_header : All (λ b. b < 256) bytes → bytes ≡ header digest key n
  unfolding header
  valid_header is_byte =
      let tail = drop 44 bytes in
      let last : take 8 tail ≡ tail =
        take_all 8 tail (omega (arith, length-drop 44 bytes, validate_header_size)) in
      let size : length tail ≡ 8 = omega (arith, length-drop 44 bytes, validate_header_size) in
      let value : n ≡ from_le_bytes tail = validate_header_value ∙ ap from_le_bytes last in
      let written : to_le_bytes 8 n ≡ tail =
        ap (to_le_bytes 8) value
        ∙ ap (λ (k : ℕ). to_le_bytes k (from_le_bytes tail)) (sym size)
        ∙ to_le_bytes-from_le_bytes tail (All-drop (λ b. b < 256) 44 bytes is_byte) in
      let at_12 : digest key ++ tail ≡ drop 12 bytes =
        ap (λ (part : List ℕ). part ++ tail) (sym validate_header_key)
        ∙ ap (λ (rest : List ℕ). take 32 (drop 12 bytes) ++ rest) (sym (drop-drop 12 32 bytes))
        ∙ take-append-drop 32 (drop 12 bytes) in
      let at_8 : to_le_bytes 4 1 ++ drop 12 bytes ≡ drop 8 bytes =
        ap (λ (part : List ℕ). part ++ drop 12 bytes) (sym validate_header_version)
        ∙ ap (λ (rest : List ℕ). take 4 (drop 8 bytes) ++ rest) (sym (drop-drop 8 4 bytes))
        ∙ take-append-drop 4 (drop 8 bytes) in
      let at_0 : magic ++ drop 8 bytes ≡ bytes =
        ap (λ (part : List ℕ). part ++ drop 8 bytes) (sym validate_header_magic)
        ∙ take-append-drop 8 bytes in
      sym (
        ap (λ (value : List ℕ). magic ++ (to_le_bytes 4 1 ++ (digest key ++ value))) written
        ∙ ap (λ (rest : List ℕ). magic ++ (to_le_bytes 4 1 ++ rest)) at_12
        ∙ ap (λ (rest : List ℕ). magic ++ rest) at_8
        ∙ at_0)

  valid_length : All (λ b. b < 256) bytes → n < 2 ^ 64
  valid_length is_byte =
      let last = take 8 (drop 44 bytes) in
      let size : length last ≡ 8 =
        length-take 8 (drop 44 bytes) (omega (arith, length-drop 44 bytes, validate_header_size)) in
      let below : from_le_bytes last < 256 ^ length last =
        from_le_bytes-lt last
          (All-take (λ b. b < 256) 8 (drop 44 bytes) (All-drop (λ b. b < 256) 44 bytes is_byte)) in
      let room : 256 ^ length last ≡ 2 ^ 64 = rw size in omega (arith, validate_header_value)

-- The sum of the header and the length wraps only where no file is that short.
opened_length :
    (file : List ℕ) (n : ℕ) {blob : ArtifactBlob}
    → header_size ≤ length file
    → n < 2 ^ 64
    → (if eqb (length file) ((header_size + n) % 2 ^ 64)
        then (let opened : Result ArtifactBlob ArtifactBlobCacheError =
              ok (record { file = file; payload_len = n }) in
            opened)
        else err invalid_header)
      ≡ ok blob
    → (blob.payload_len ≡ n)
      × (blob.file ≡ file)
      × (length file ≡ header_size + n)
      × (header_size + n < 2 ^ 64)
opened_length file n {blob} long small h = ground arith

-- A file opens under a key only if it is a whole blob of that key's digest.
pub open_file_whole :
    (digest : ArtifactBlobKey → List ℕ) (key : ArtifactBlobKey) (file : List ℕ)
    → All (λ b. b < 256) file
    → {blob : ArtifactBlob} → open_file digest file key ≡ ok blob
    → (file ≡ header digest key blob.payload_len ++ drop header_size file)
      × (blob.file ≡ file)
      × (length file ≡ header_size + blob.payload_len)
      × (header_size + blob.payload_len < 2 ^ 64)
unfolding open_file open_header
open_file_whole digest key file is_byte {blob} opened =
    let (bytes, found, rest) = chain_ok (open_header file) _ opened in
    let (n, valid, last) = chain_ok (validate_header digest bytes key) _ rest in
    let front : bytes ≡ take 52 file = ground arith in
    let long : 52 ≤ length file = ground arith in
    let bytes_ok : All (λ b. b < 256) bytes =
      subst (All (λ b. b < 256)) (sym front) (All-take (λ b. b < 256) 52 file is_byte) in
    let same = valid_header digest key bytes valid bytes_ok in
    let (same_length, same_file, size, fits) =
      opened_length file n long (valid_length digest key bytes valid bytes_ok) last in
    let whole : file ≡ header digest key n ++ drop 52 file =
      sym (take-append-drop 52 file)
      ∙ ap (λ (part : List ℕ). part ++ drop 52 file) (sym front ∙ same) in
    (rw same_length whole, same_file, rw same_length size, rw same_length fits)
