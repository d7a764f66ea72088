-- ===== src/ArtifactCache/Promoted.antt =====
-- Promoting a staged file, and clearing a blob that does not open.
use kide.Base.{ℕ, ◌+◌, ◌^◌, ◌≤◌, ◌<◌, ◌≡◌, ◌≢◌, refl, ap, ◌∙◌, List}
use kide.Base.{Option, none, some, true, inl, inr}
use kide.Base.{arith, length, take_all, text_eq}
use kide.Base.Results.{ok, err, Result-cases}
use kide.DependencyIdentity.{ArtifactBlobKey}
use kide.ArtifactCache.{
  Directory, Reader, cursor, ArtifactBlobCacheError, header_size, filename, temporary_name,
  publish_stream, verify_staged, promote_verified, promote_staged, load, publish_written,
  write_blob_stream, copy_outcome, link_temporary,
}
use kide.ArtifactCache.Names.{IsDigest}
use kide.ArtifactCache.Published.{load-publish_stream}

verified :
    (sha256 : List ℕ → List ℕ) (staged : List ℕ) (expected_length : ℕ) (expected_sha256 : List ℕ)
    → verify_staged sha256 staged expected_length expected_sha256 ≡ ok tt
    → (length staged ≡ expected_length) × (sha256 staged ≡ expected_sha256)
unfolding verify_staged
verified sha256 staged expected_length expected_sha256 h = ground arith

module _ (digest : ArtifactBlobKey → List ℕ) (process_id : ℕ) (sha256 : List ℕ → List ℕ)
    (directory : Directory) (key : ArtifactBlobKey) where
  -- A whole source never makes a publication fail.
  publish_stream-ne-err :
      (payload_len : ℕ) (payload : List ℕ) {e : ArtifactBlobCacheError}
      → payload_len ≤ length payload
      → (publish_stream digest process_id directory key payload_len (cursor payload)).0 ≢ err e
  unfolding publish_stream publish_written write_blob_stream copy_outcome link_temporary
  publish_stream-ne-err payload_len payload enough h = ground arith

  -- A promotion that fails changes no file.
  pub promote_staged_unchanged :
      (staged : Option (List ℕ)) (expected_length : ℕ) (expected_sha256 : List ℕ)
      {e : ArtifactBlobCacheError}
      → (promote_staged digest process_id sha256 directory key staged expected_length
          expected_sha256).0
        ≡ err e
      → (promote_staged digest process_id sha256 directory key staged expected_length
          expected_sha256).1
        ≡ directory
  unfolding promote_staged promote_verified
  promote_staged_unchanged none expected_length expected_sha256 h = refl
  promote_staged_unchanged (some staged) expected_length expected_sha256 {e = e} h =
      elim (Result-cases (verify_staged sha256 staged expected_length expected_sha256)) [
        | inl (done, passed) ↦
            let (size, sum) = verified sha256 staged expected_length expected_sha256 passed in
            let failed : (publish_stream digest process_id directory key expected_length
                  (cursor staged)).0
                ≡ err e =
              rw (passed, promote_verified) at h in
            absurd (publish_stream-ne-err expected_length staged (omega arith) failed)
        | inr (error, refused) ↦ rw refused refl
      ]

  -- Only a publication that finds neither file populates the cache.
  publish_stream_free :
      (payload_len : ℕ) (payload : Reader)
      → (publish_stream digest process_id directory key payload_len payload).0 ≡ ok true
      → (directory (filename digest key) ≡ none)
        × (directory (temporary_name digest process_id key) ≡ none)
  unfolding publish_stream
  publish_stream_free payload_len payload h = ground arith

  -- A staged file that is promoted has the length and the checksum that the worker reported, and
  -- the key then loads its bytes. The blob is no longer than 64 bits can say.
  pub load-promote_staged :
      (staged : Option (List ℕ)) (expected_length : ℕ) (expected_sha256 : List ℕ)
      → IsDigest digest
      → header_size + expected_length < 2 ^ 64
      → (promote_staged digest process_id sha256 directory key staged expected_length
          expected_sha256).0
        ≡ ok true
      → (bytes : List ℕ) × (staged ≡ some bytes)
        × (length bytes ≡ expected_length)
        × (sha256 bytes ≡ expected_sha256)
        × (load digest
              (promote_staged digest process_id sha256 directory key staged expected_length
                expected_sha256).1
              key
            ≡ ok (some bytes))
  unfolding promote_staged promote_verified
  load-promote_staged none expected_length expected_sha256 d fits h = ground arith
  load-promote_staged (some staged) expected_length expected_sha256 d fits h =
      elim (Result-cases (verify_staged sha256 staged expected_length expected_sha256)) [
        | inl (done, passed) ↦
            let (size, sum) = verified sha256 staged expected_length expected_sha256 passed in
            let published : (publish_stream digest process_id directory key expected_length
                  (cursor staged)).0
                ≡ ok true =
              rw (passed, promote_verified) at h in
            let (absent, free) = publish_stream_free expected_length (cursor staged) published in
            let loaded =
              load-publish_stream digest d process_id directory key absent free expected_length
                (cursor staged) (omega arith) fits in
            let all = take_all expected_length staged (omega arith) in
            (
              staged,
              refl,
              size,
              sum,
              rw (passed, promote_verified) (loaded.1 ∙ ap (λ (x : List ℕ). ok (some x)) all),
            )
        | inr (error, refused) ↦ ground arith
      ]
