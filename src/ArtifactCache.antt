-- ===== src/ArtifactCache.antt =====
-- crates/kide-core/src/artifact_cache.rs: immutable blobs of dependency artifacts, one file for each
-- key. The folder `v1` of the cache is a directory of named files; each operation returns it with
-- its changes. The digest of a key, the SHA-256 of its identity's canonical bytes, is the parameter
-- `digest`, and `process_id` tells one process that publishes from another. Here the operating system
-- refuses no operation on a file, except where the source of a payload fails; Access has the opening
-- and the removal of a blob where it may.
pub mod Access
pub mod Names
pub mod Blobs
pub mod Ranges
pub mod Published
pub mod Promoted
use kide.Base.{
  ℕ, zero, suc, ◌+◌, ◌-◌, ◌*◌, ◌/◌, ◌%◌, ◌^◌, ◌≤◌, ◌<◌, ◌≡◌, ◌≢◌, Bool, true, false, not, ◌||◌,
  List, [], ◌∷◌, ◌++◌, Option, none, some, map,
}
use kide.Base.{Text, utf8, text_eq, ◌==◌, eqb, leb, ltb, if◌then◌else◌, is_some, length, take, drop}
use kide.Base.{All}
use kide.Base.Results.{Result, ok, err, ◌>>=◌}
use kide.Protocol.{decimal}
use kide.DependencyIdentity.{ArtifactBlobKey}

pub data ArtifactBlobCacheError : Type 0 where
  io : ArtifactBlobCacheError
  invalid_header : ArtifactBlobCacheError
  truncated_payload : ℕ → ArtifactBlobCacheError
  staged_length_mismatch : ℕ → ℕ → ArtifactBlobCacheError
  staged_checksum_mismatch : ArtifactBlobCacheError

-- The files of a folder by their names.
abbrev pub Directory : Type 0
Directory = Text → Option (List ℕ)

unfoldable pub set_file : Text → Option (List ℕ) → Directory → Directory
set_file name file directory other = if other == name then file else directory other

-- A source of bytes: what it still delivers, and whether it then fails instead of ending.
pub record Reader : Type 0 where
  pub bytes : List ℕ
  pub fails : Bool

-- `Cursor::new`
abbrev pub cursor : List ℕ → Reader
cursor bytes = record { bytes = bytes; fails = false }

pub record ArtifactBlob : Type 0 where
  pub file : List ℕ
  pub payload_len : ℕ

abbrev pub magic : List ℕ
magic = utf8 "KIDEBLB1"

abbrev pub header_size : ℕ
header_size = 52

-- `to_le_bytes` of a number of `n` bytes, and `from_le_bytes`.
unfoldable pub to_le_bytes : ℕ → ℕ → List ℕ
to_le_bytes zero v = []
to_le_bytes (suc n) v = v % 2 ^ 8 ∷ to_le_bytes n (v / 2 ^ 8)

unfoldable pub from_le_bytes : List ℕ → ℕ
from_le_bytes [] = 0
from_le_bytes (b ∷ bs) = b + 2 ^ 8 * from_le_bytes bs

-- `format!("{byte:02x}")`
unfoldable pub hex_digit : ℕ → ℕ
hex_digit d = if ltb d 10 then b'0' + d else b'a' + (d - 10)

unfoldable pub hex : List ℕ → Text
unfolding hex_digit
hex [] = []
hex (b ∷ bs) = hex_digit (b / 16) ∷ hex_digit (b % 16) ∷ hex bs

-- `seek` and `read_exact`
unfoldable pub read_exact_at : List ℕ → ℕ → ℕ → Result (List ℕ) ArtifactBlobCacheError
read_exact_at file position n =
    if leb n (length (drop position file)) then ok (take n (drop position file)) else err io

-- `offset.checked_add(length)`
unfoldable pub checked_end : ℕ → ℕ → Result ℕ ArtifactBlobCacheError
checked_end offset n = if ltb (offset + n) (2 ^ 64) then ok (offset + n) else err invalid_header

unfoldable pub read_range : ArtifactBlob → ℕ → ℕ → Result (List ℕ) ArtifactBlobCacheError
unfolding checked_end read_exact_at
read_range blob offset n = do
  end ← checked_end offset n
  if ltb blob.payload_len end
      then err invalid_header
      else read_exact_at blob.file ((header_size + offset) % 2 ^ 64) n

unfoldable pub read_all : ArtifactBlob → Result (List ℕ) ArtifactBlobCacheError
unfolding read_range
read_all blob = read_range blob 0 blob.payload_len

-- What `io::copy` of `payload.take(payload_len)` moves, and what the write then reports.
unfoldable pub copied : ℕ → Reader → List ℕ
copied payload_len payload = take payload_len payload.bytes

unfoldable pub copy_outcome : ℕ → Reader → Result (Unit {0}) ArtifactBlobCacheError
copy_outcome payload_len payload =
    if leb payload_len (length payload.bytes)
    then ok tt
    else if payload.fails
    then err io
    else err (truncated_payload payload_len)

-- The header of a file that is shorter than a header is `UnexpectedEof`.
unfoldable pub open_header : List ℕ → Result (List ℕ) ArtifactBlobCacheError
open_header file =
    if leb header_size (length file) then ok (take header_size file) else err invalid_header

-- `map(read_all)` and `transpose`
unfoldable pub load_opened : Option ArtifactBlob → Result (Option (List ℕ)) ArtifactBlobCacheError
unfolding read_all
load_opened none = ok none
load_opened (some blob) = do payload ← read_all blob; ok (some payload)

module _ (sha256 : List ℕ → List ℕ) where
  -- The staged file before it is published: its length, then its checksum.
  unfoldable pub verify_staged : List ℕ → ℕ → List ℕ → Result (Unit {0}) ArtifactBlobCacheError
  verify_staged staged expected_length expected_sha256 =
      if not (eqb (length staged) expected_length)
      then err (staged_length_mismatch expected_length (length staged))
      else if not (sha256 staged == expected_sha256)
      then err staged_checksum_mismatch
      else ok tt

module _ (digest : ArtifactBlobKey → List ℕ) where
  unfoldable pub filename : ArtifactBlobKey → Text
  unfolding hex
  filename key = hex (digest key) ++ utf8 ".blob"

  -- The header that `write_blob_stream` writes before the payload.
  unfoldable pub header : ArtifactBlobKey → ℕ → List ℕ
  unfolding to_le_bytes
  header key payload_len = magic ++ (to_le_bytes 4 1 ++ (digest key ++ to_le_bytes 8 payload_len))

  -- The file that is written, and the outcome.
  unfoldable pub write_blob_stream :
      ArtifactBlobKey → ℕ → Reader → List ℕ × Result (Unit {0}) ArtifactBlobCacheError
  unfolding header copied copy_outcome
  write_blob_stream key payload_len payload =
      (header key payload_len ++ copied payload_len payload, copy_outcome payload_len payload)

  unfoldable pub validate_header : List ℕ → ArtifactBlobKey → Result ℕ ArtifactBlobCacheError
  unfolding from_le_bytes to_le_bytes
  validate_header bytes key =
      if not (eqb (length bytes) header_size)
        || (not (take 8 bytes == magic) || not (take 4 (drop 8 bytes) == to_le_bytes 4 1))
      then err invalid_header
      else if not (take 32 (drop 12 bytes) == digest key)
      then err invalid_header
      else ok (from_le_bytes (take 8 (drop 44 bytes)))

  unfoldable pub open_file : List ℕ → ArtifactBlobKey → Result ArtifactBlob ArtifactBlobCacheError
  unfolding validate_header open_header
  open_file file key = do
    bytes ← open_header file
    payload_len ← validate_header bytes key
    if eqb (length file) ((header_size + payload_len) % 2 ^ 64)
        then ok (record { file = file; payload_len = payload_len })
        else err invalid_header

  -- `none` where the key has no file.
  unfoldable pub open_found :
      Option (List ℕ) → ArtifactBlobKey → Result (Option ArtifactBlob) ArtifactBlobCacheError
  unfolding open_file
  open_found none key = ok none
  open_found (some file) key = do blob ← open_file file key; ok (some blob)

  unfoldable pub open_blob :
      Directory → ArtifactBlobKey → Result (Option ArtifactBlob) ArtifactBlobCacheError
  unfolding open_found filename
  open_blob directory key = open_found (directory (filename key)) key

  unfoldable pub load :
      Directory → ArtifactBlobKey → Result (Option (List ℕ)) ArtifactBlobCacheError
  unfolding open_blob load_opened
  load directory key = do blob ← open_blob directory key; load_opened blob

  unfoldable pub remove_invalid : Directory → ArtifactBlobKey → Bool × Directory
  unfolding set_file filename
  remove_invalid directory key =
      (is_some (directory (filename key)), set_file (filename key) none directory)

  module _ (process_id : ℕ) where
    unfoldable pub temporary_name : ArtifactBlobKey → Text
    unfolding filename
    temporary_name key = utf8 "." ++ (filename key ++ (utf8 ".tmp-" ++ decimal process_id))

    -- The hard link and the removal of the temporary file, once that file is whole.
    unfoldable pub link_temporary : ArtifactBlobKey → List ℕ → Directory → Bool × Directory
    unfolding temporary_name set_file
    link_temporary key file directory =
        if is_some (directory (filename key))
        then (false, set_file (temporary_name key) none directory)
        else (
          true,
          set_file (temporary_name key) none (set_file (filename key) (some file) directory),
        )

    -- What follows the write: a failure returns and leaves the temporary file.
    unfoldable pub publish_written :
        ArtifactBlobKey
        → List ℕ × Result (Unit {0}) ArtifactBlobCacheError
        → Directory
        → Result Bool ArtifactBlobCacheError × Directory
    unfolding link_temporary
    publish_written key (file, err e) directory =
        (err e, set_file (temporary_name key) (some file) directory)
    publish_written key (file, ok done) directory =
        let (promoted, directory') =
          link_temporary key file (set_file (temporary_name key) (some file) directory) in
        (ok promoted, directory')

    unfoldable pub publish_stream :
        Directory → ArtifactBlobKey → ℕ → Reader → Result Bool ArtifactBlobCacheError × Directory
    unfolding publish_written write_blob_stream
    publish_stream directory key payload_len payload =
        if is_some (directory (filename key))
        then (ok false, directory)
        else if is_some (directory (temporary_name key))
        then (ok false, directory)
        else publish_written key (write_blob_stream key payload_len payload) directory

    unfoldable pub publish :
        Directory → ArtifactBlobKey → List ℕ → Result Bool ArtifactBlobCacheError × Directory
    unfolding publish_stream
    publish directory key payload = publish_stream directory key (length payload) (cursor payload)

    unfoldable pub promote_verified :
        Result (Unit {0}) ArtifactBlobCacheError
        → Directory
        → ArtifactBlobKey
        → List ℕ
        → ℕ
        → Result Bool ArtifactBlobCacheError × Directory
    unfolding publish_stream
    promote_verified (err e) directory key staged expected_length = (err e, directory)
    promote_verified (ok done) directory key staged expected_length =
        publish_stream directory key expected_length (cursor staged)

    module _ (sha256 : List ℕ → List ℕ) where
      -- `promote_staged_with_metrics` without the times that it reports. `staged` is `none` where
      -- the worker left no file.
      unfoldable pub promote_staged :
          Directory
          → ArtifactBlobKey
          → Option (List ℕ)
          → ℕ
          → List ℕ
          → Result Bool ArtifactBlobCacheError × Directory
      unfolding verify_staged promote_verified
      promote_staged directory key none expected_length expected_sha256 = (err io, directory)
      promote_staged directory key (some staged) expected_length expected_sha256 =
          promote_verified (verify_staged sha256 staged expected_length expected_sha256) directory
            key staged expected_length
