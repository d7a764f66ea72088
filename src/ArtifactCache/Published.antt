-- ===== src/ArtifactCache/Published.antt =====
-- Publishing: what is published loads, what is there stays, and what fails leaves a temporary file.
use kide.Base.{ℕ, ◌+◌, ◌^◌, ◌≤◌, ◌<◌, ◌≡◌, refl, ap, ◌∙◌, List, ◌++◌}
use kide.Base.{none, some, true, false, inl, inr}
use kide.Base.{arith, length, take, leb, if◌then◌else◌, Bool-cases, length-take, text_eq}
use kide.Base.Results.{ok, err}
use kide.DependencyIdentity.{ArtifactBlobKey}
use kide.ArtifactCache.{
  Directory, Reader, io, truncated_payload, header_size, header, set_file, filename, temporary_name,
  link_temporary, publish_written, publish_stream, publish, write_blob_stream, copied, load,
  copy_outcome, open_blob, open_found, load_opened,
}
use kide.ArtifactCache.Names.{IsDigest, filename-ne-temporary_name, set_file_same, set_file_other}
use kide.ArtifactCache.Blobs.{blob_bytes}
use kide.ArtifactCache.Ranges.{load-blob_bytes}

module _ (digest : ArtifactBlobKey → List ℕ) (d : IsDigest digest) (process_id : ℕ)
    (directory : Directory) (key : ArtifactBlobKey) where
  -- The state behind a publication that wrote its blob.
  abbrev after_link : List ℕ → Directory
  after_link file = set_file (temporary_name digest process_id key) none (
      set_file (filename digest key) (some file)
        (set_file (temporary_name digest process_id key) (some file) directory))

  linked_blob : (file : List ℕ) → after_link file (filename digest key) ≡ some file
  linked_blob file =
      set_file_other _ _ none _ (filename-ne-temporary_name digest d key key process_id)
      ∙ set_file_same (filename digest key) (some file) _

  module _ (absent : directory (filename digest key) ≡ none)
      (free : directory (temporary_name digest process_id key) ≡ none) where
    publish_stream_whole :
        (payload_len : ℕ) (payload : Reader)
        → payload_len ≤ length payload.bytes
        → publish_stream digest process_id directory key payload_len payload
          ≡ (ok true, after_link (header digest key payload_len ++ take payload_len payload.bytes))
    unfolding publish_stream publish_written write_blob_stream copy_outcome link_temporary copied
    publish_stream_whole payload_len payload enough =
        let file = header digest key payload_len ++ take payload_len payload.bytes in
        let still =
          set_file_other (temporary_name digest process_id key) (filename digest key) (some file)
            directory (filename-ne-temporary_name digest d key key process_id) in
        let long : leb payload_len (length payload.bytes) ≡ true = ground arith in
        rw (absent, free, long, still, absent) refl

    -- A publication of as many bytes as the source has, or fewer, succeeds, and the key then loads
    -- those bytes; no temporary file is left. The key has no file and this process no temporary one,
    -- and the blob is no longer than 64 bits can say.
    pub load-publish_stream :
        (payload_len : ℕ) (payload : Reader)
        → payload_len ≤ length payload.bytes
        → header_size + payload_len < 2 ^ 64
        → ((publish_stream digest process_id directory key payload_len payload).0 ≡ ok true)
          × (load digest (publish_stream digest process_id directory key payload_len payload).1 key
              ≡ ok (some (take payload_len payload.bytes)))
          × ((publish_stream digest process_id directory key payload_len payload).1
                (temporary_name digest process_id key)
              ≡ none)
    load-publish_stream payload_len payload enough fits =
        let size = length-take payload_len payload.bytes enough in
        let done = publish_stream_whole payload_len payload enough in
        let same : header digest key payload_len ++ take payload_len payload.bytes
            ≡ blob_bytes digest key (take payload_len payload.bytes) =
          rw size in
        rw done (
          refl,
          load-blob_bytes digest d key _ (take payload_len payload.bytes)
              (linked_blob _ ∙ ap some same) (omega arith),
          set_file_same _ none _,
        )

    -- A source that ends or fails too early is an error, and the temporary file stays: no later
    -- publication of the key by the same process publishes anything, each one returns `false`, and
    -- the key keeps loading nothing.
    pub publish_abandoned :
        (payload_len : ℕ) (payload : Reader) (later : List ℕ)
        → length payload.bytes < payload_len
        → ((publish_stream digest process_id directory key payload_len payload).0
            ≡ (if payload.fails then err io else err (truncated_payload payload_len)))
          × (publish digest process_id
                (publish_stream digest process_id directory key payload_len payload).1
                key
                later
              ≡ (ok false, (publish_stream digest process_id directory key payload_len payload).1))
          × (load digest (publish_stream digest process_id directory key payload_len payload).1 key
              ≡ ok none)
    unfolding publish_stream publish_written write_blob_stream copy_outcome publish load open_blob
        open_found load_opened
    publish_abandoned payload_len payload later short =
        let file = header digest key payload_len ++ copied payload_len payload in
        let left = set_file (temporary_name digest process_id key) (some file) directory in
        let still : left (filename digest key) ≡ none =
          set_file_other _ _ (some file) directory
            (filename-ne-temporary_name digest d key key process_id)
          ∙ absent in
        let kept : left (temporary_name digest process_id key) ≡ some file =
          set_file_same (temporary_name digest process_id key) (some file) directory in
        let long : leb payload_len (length payload.bytes) ≡ false = ground arith in
        elim (Bool-cases payload.fails) [
          | inl failed ↦ rw (absent, free, long, failed, still, kept) (refl, refl, refl)
          | inr ended ↦ rw (absent, free, long, ended, still, kept) (refl, refl, refl)
        ]

  -- Publishing changes no file that a key has already.
  pub publish_stream_keeps :
      (payload_len : ℕ) (payload : Reader) (other : ArtifactBlobKey) {file : List ℕ}
      → directory (filename digest other) ≡ some file
      → (publish_stream digest process_id directory key payload_len payload).1
          (filename digest other)
        ≡ some file
  unfolding publish_stream publish_written write_blob_stream link_temporary set_file
  publish_stream_keeps payload_len payload other found =
      let apart = filename-ne-temporary_name digest d other key process_id in ground arith
