-- ===== src/ArtifactCache/Access/Refusals.antt =====
-- What the operating system changes of `open_blob`.
use kide.Base.{ℕ, ◌≡◌, ◌⊎◌, inl, inr, List, Option, Bool-cases, Option-cases, true, arith}
use kide.Base.Results.{ok, err, Result-cases, chain_ok, chain_err}
use kide.DependencyIdentity.{ArtifactBlobKey}
use kide.ArtifactCache.{
  Directory, ArtifactBlob, ArtifactBlobCacheError, io, invalid_header, open_header, validate_header,
  open_file, open_found, open_blob, filename,
}
use kide.ArtifactCache.Access.{
  Access, refuses, measure_file, open_file_with, open_found_with, open_blob_with,
}

open_header_refusal :
    (file : List ℕ) {e : ArtifactBlobCacheError} → open_header file ≡ err e → e ≡ invalid_header
unfolding open_header
open_header_refusal file h = ground arith

module _ (digest : ArtifactBlobKey → List ℕ) (access : Access) where
  validate_header_refusal :
      (bytes : List ℕ) (key : ArtifactBlobKey) {e : ArtifactBlobCacheError}
      → validate_header digest bytes key ≡ err e
      → e ≡ invalid_header
  unfolding validate_header
  validate_header_refusal bytes key h = ground arith

  measure_file_refusal :
      (file : List ℕ) (n : ℕ) {e : ArtifactBlobCacheError}
      → measure_file digest access file n ≡ err e
      → (e ≡ invalid_header) ⊎ ((e ≡ io) × (refuses access ≡ true))
  unfolding measure_file
  measure_file_refusal file n h = ground arith

  -- What is opened is what opens where nothing is refused.
  open_file_with_ok :
      (file : List ℕ) (key : ArtifactBlobKey) {blob : ArtifactBlob}
      → open_file_with digest access file key ≡ ok blob
      → open_file digest file key ≡ ok blob
  unfolding open_file_with open_file measure_file
  open_file_with_ok file key {blob} h = elim (Bool-cases access.reads) [
    | inl reads ↦
        let (bytes, front, rest) = chain_ok (open_header file) _ (rw reads at h) in
        let (n, valid, last) = chain_ok (validate_header digest bytes key) _ rest in
        rw (front, valid) (ground arith)
    | inr refused ↦ ground arith
  ]

  -- A refusal is that of the header or of the operating system.
  open_file_with_err :
      (file : List ℕ) (key : ArtifactBlobKey) {e : ArtifactBlobCacheError}
      → open_file_with digest access file key ≡ err e
      → (e ≡ invalid_header) ⊎ ((e ≡ io) × (refuses access ≡ true))
  unfolding open_file_with
  open_file_with_err file key h = elim (Bool-cases access.reads) [
    | inl reads ↦ elim (chain_err (open_header file) _ (rw reads at h)) [
      | inl short ↦ inl (open_header_refusal file short)
      | inr (bytes, front, rest) ↦ elim (chain_err (validate_header digest bytes key) _ rest) [
        | inl refused ↦ inl (validate_header_refusal bytes key refused)
        | inr (n, valid, last) ↦ measure_file_refusal file n last
      ]
    ]
    | inr refused ↦ ground arith
  ]

  -- What is found is what is found where nothing is refused.
  pub open_blob_with_ok :
      (directory : Directory) (key : ArtifactBlobKey) {found : Option ArtifactBlob}
      → open_blob_with digest access directory key ≡ ok found
      → open_blob digest directory key ≡ ok found
  unfolding open_blob_with open_found_with open_blob open_found
  open_blob_with_ok directory key {found} h = elim (Bool-cases access.opens) [
    | inl opens ↦ elim (Option-cases (directory (filename digest key))) [
      | inl absent ↦ ground arith
      | inr (file, there) ↦ elim (Result-cases (open_file_with digest access file key)) [
        | inl (blob, opened) ↦
            let plain = open_file_with_ok file key opened in rw (there, plain) (ground arith)
        | inr (e, refused) ↦ ground arith
      ]
    ]
    | inr closed ↦ ground arith
  ]

  -- A refusal is that of the header or of the operating system.
  pub open_blob_with_err :
      (directory : Directory) (key : ArtifactBlobKey) {e : ArtifactBlobCacheError}
      → open_blob_with digest access directory key ≡ err e
      → (e ≡ invalid_header) ⊎ ((e ≡ io) × (refuses access ≡ true))
  unfolding open_blob_with open_found_with
  open_blob_with_err directory key h = elim (Bool-cases access.opens) [
    | inl opens ↦ elim (Option-cases (directory (filename digest key))) [
      | inl absent ↦ ground arith
      | inr (file, there) ↦ elim (Result-cases (open_file_with digest access file key)) [
        | inl (blob, opened) ↦ ground arith
        | inr (e', refused) ↦
            let same : (e' ≡ invalid_header) ⊎ ((e' ≡ io) × (refuses access ≡ true)) =
              open_file_with_err file key refused in
            ground arith
      ]
    ]
    | inr closed ↦ ground arith
  ]
