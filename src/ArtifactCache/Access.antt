-- ===== src/ArtifactCache/Access.antt =====
-- `open_blob` and `remove_invalid` of crates/kide-core/src/artifact_cache.rs where the operating
-- system may refuse an operation on the file.
pub mod Refusals
use kide.Base.{
  ℕ, ◌≡◌, refl, ◌⊎◌, inl, inr, Text, text_eq, List, Option, none, some, Bool, Bool-cases,
  Option-cases, true, false, not, ◌||◌, if◌then◌else◌, length, eqb, ◌+◌, ◌%◌, ◌^◌, arith,
}
use kide.Base.Results.{Result, ok, err, ◌>>=◌, Result-cases, chain_err}
use kide.DependencyIdentity.{ArtifactBlobKey}
use kide.ArtifactCache.{
  Directory, ArtifactBlob, ArtifactBlobCacheError, io, invalid_header, header_size, open_header,
  validate_header, open_file, open_found, open_blob, remove_invalid, filename,
}

-- What the operating system allows during a call: the opening of the file, the read of its header,
-- its metadata, and its removal.
pub record Access : Type 0 where
  pub opens : Bool
  pub reads : Bool
  pub measures : Bool
  pub removes : Bool

-- Some operation is refused.
abbrev pub refuses : Access → Bool
refuses access =
    not access.opens || (not access.reads || (not access.measures || not access.removes))

module _ (digest : ArtifactBlobKey → List ℕ) (access : Access) where
  unfoldable pub measure_file : List ℕ → ℕ → Result ArtifactBlob ArtifactBlobCacheError
  measure_file file payload_len =
      if not access.measures
      then err io
      else if eqb (length file) ((header_size + payload_len) % 2 ^ 64)
      then ok (record { file = file; payload_len = payload_len })
      else err invalid_header

  unfoldable pub open_file_with :
      List ℕ → ArtifactBlobKey → Result ArtifactBlob ArtifactBlobCacheError
  unfolding measure_file open_header validate_header
  open_file_with file key =
      let opened : Result ArtifactBlob ArtifactBlobCacheError = (do
        bytes ← open_header file
        payload_len ← validate_header digest bytes key
        measure_file file payload_len) in
      if not access.reads then err io else opened

  unfoldable pub open_found_with :
      Option (List ℕ) → ArtifactBlobKey → Result (Option ArtifactBlob) ArtifactBlobCacheError
  unfolding open_file_with
  open_found_with none key = ok none
  open_found_with (some file) key = do blob ← open_file_with file key; ok (some blob)

  unfoldable pub open_blob_with :
      Directory → ArtifactBlobKey → Result (Option ArtifactBlob) ArtifactBlobCacheError
  unfolding open_found_with
  open_blob_with directory key =
      if not access.opens then err io else open_found_with (directory (filename digest key)) key

  unfoldable pub remove_invalid_with :
      Directory → ArtifactBlobKey → Result Bool ArtifactBlobCacheError × Directory
  unfolding remove_invalid
  remove_invalid_with directory key =
      let (removed, left) = remove_invalid digest directory key in
      if not access.removes then (err io, directory) else (ok removed, left)
