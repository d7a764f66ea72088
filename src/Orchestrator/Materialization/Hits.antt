-- ===== src/Orchestrator/Materialization/Hits.antt =====
-- The check of the cache before a worker is asked.
use kide.Base.{
  ℕ, ◌≡◌, refl, ◌⊎◌, inl, inr, List, none, some, Bool, Bool-cases, Option-cases, true, false, Text,
  text_eq,
}
use kide.Base.{arith}
use kide.Base.Results.{Result, ok, err, Result-cases, chain_ok}
use kide.DependencyIdentity.{ArtifactBlobKey}
use kide.ArtifactCache.{
  Directory, ArtifactBlob, open_blob, open_found, open_file, remove_invalid, filename, set_file, io,
}
use kide.ArtifactCache.Names.{set_file_same}
use kide.ArtifactCache.Access.{Access, refuses, open_blob_with, remove_invalid_with}
use kide.ArtifactCache.Access.Refusals.{open_blob_with_ok, open_blob_with_err}
use kide.Orchestrator.Errors.{artifact_cache}
use kide.Orchestrator.Digests.{Failure, error}
use kide.Orchestrator.Materialization.{cache_hit_or_remove_invalid, hit_or_remove, behind_removal}

-- The cache answers `true` with a blob that opens, or `false` with no file for the key, and changes
-- no other file; or the operating system refuses an operation, and nothing is changed.
pub data Checked (digest : ArtifactBlobKey → List ℕ) (access : Access) (before : Directory)
    (key : ArtifactBlobKey) (checked : Result Bool Failure × Directory) : Type 0 where
  hit :
      {blob : ArtifactBlob}
      → checked.0 ≡ ok true
      → checked.1 ≡ before
      → open_blob digest before key ≡ ok (some blob)
      → Checked digest access before key checked
  miss :
      checked.0 ≡ ok false
      → checked.1 (filename digest key) ≡ none
      → ((name : Text) → (name ≡ filename digest key) ⊎ (checked.1 name ≡ before name))
      → Checked digest access before key checked
  refused :
      refuses access ≡ true
      → checked.0 ≡ err (error (artifact_cache io))
      → checked.1 ≡ before
      → Checked digest access before key checked

module _ (digest : ArtifactBlobKey → List ℕ) (access : Access) (before : Directory)
    (key : ArtifactBlobKey) where
  removed :
      (name : Text)
      → (name ≡ filename digest key) ⊎ ((remove_invalid digest before key).1 name ≡ before name)
  unfolding remove_invalid set_file
  removed name = ground arith

  -- Where the cache finds no blob, it has no file of the key.
  no_file : open_blob digest before key ≡ ok none → before (filename digest key) ≡ none
  unfolding open_blob open_found
  no_file h = elim (Option-cases (before (filename digest key))) [
    | inl absent ↦ absent
    | inr (file, there) ↦
        let (blob, opened, same) = chain_ok (open_file digest file key) _ (rw there at h) in
        absurd cc
  ]

  behind_removal-Checked :
      Checked digest access before key
        (behind_removal (remove_invalid_with digest access before key))
  unfolding behind_removal remove_invalid_with remove_invalid
  behind_removal-Checked = elim (Bool-cases access.removes) [
    | inl removes ↦ rw removes (miss refl (set_file_same (filename digest key) none before) removed)
    | inr stays ↦ rw stays (refused (ground arith) refl refl)
  ]

  -- The check of the cache answers that the key is cached only if its blob opens, and then changes
  -- nothing; it answers that the key is not cached only if the key has no file any more, and leaves
  -- every other file as it was. It fails only if the operating system refuses an operation, and
  -- then changes nothing.
  pub cache_hit_or_remove_invalid-Checked :
      Checked digest access before key (cache_hit_or_remove_invalid digest access before key)
  unfolding cache_hit_or_remove_invalid hit_or_remove
  cache_hit_or_remove_invalid-Checked =
      elim (Result-cases (open_blob_with digest access before key)) [
        | inl (none, opened) ↦
            let absent = no_file (open_blob_with_ok digest access before key opened) in
            rw opened (miss refl absent (λ name. inr refl))
        | inl (some blob, opened) ↦
            rw opened
              (hit {blob = blob} refl refl (open_blob_with_ok digest access before key opened))
        | inr (e, failed) ↦ elim (open_blob_with_err digest access before key failed) [
          | inl header ↦ rw (failed, header) behind_removal-Checked
          | inr (system, refusing) ↦ rw (failed, system) (refused refusing refl refl)
        ]
      ]
