-- ===== src/Tests/Cache.antt =====
-- Blobs of a cache whose digest is one byte of the identity, filled up with zeros.
use kide.Base.{
  ℕ, zero, suc, ◌%◌, ◌<◌, ◌≡◌, refl, ◌↔◌, utf8, text_eq, nat_eq, ℕ_discrete, List, [], ◌∷◌, none,
  some, true, false,
}
use kide.Base.{arith, All, length, take, drop, leb, if◌then◌else◌}
use kide.Base.Results.{ok, err}
use kide.DependencyIdentity.{ArtifactBlobKey, for_descriptor}
use kide.ArtifactCache.{
  Directory, cursor, header_size, header, filename, temporary_name, set_file, publish,
  publish_stream, load, read_range, promote_staged, invalid_header, io, truncated_payload,
  staged_checksum_mismatch, open_blob,
}
use kide.ArtifactCache.Names.{IsDigest, set_file_same}
use kide.ArtifactCache.Blobs.{blob_bytes}
use kide.ArtifactCache.Ranges.{load_iff, read_range-open_blob}
use kide.ArtifactCache.Published.{load-publish_stream, publish_abandoned, publish_stream_keeps}
use kide.ArtifactCache.Promoted.{load-promote_staged}
use kide.Tests.Samples.{descriptor}

abbrev pub zeros : ℕ → List ℕ
zeros zero = []
zeros (suc n) = 0 ∷ zeros n

abbrev pub digest : ArtifactBlobKey → List ℕ
digest key = length key.identity.provenance.backend % 256 ∷ zeros 31

pub digest-IsDigest : IsDigest digest
digest-IsDigest = record { size = λ key. refl; is_byte = λ key. omega arith }

abbrev key : ArtifactBlobKey
key = for_descriptor descriptor

abbrev empty : Directory
empty name = none

abbrev facts : List ℕ
facts = utf8 "facts"

abbrev blob : List ℕ
blob = blob_bytes digest key facts

blob_is_byte : All (λ b. b < 256) blob
unfolding header
blob_is_byte = omega arith

abbrev filled : Directory
filled = set_file (filename digest key) (some blob) empty

filled_found : filled (filename digest key) ≡ some blob
filled_found = set_file_same (filename digest key) (some blob) empty

load_iff_example : (load digest filled key ≡ ok (some facts)) ↔ (blob ≡ blob_bytes digest key facts)
load_iff_example =
    load_iff digest digest-IsDigest key filled blob facts blob_is_byte (omega arith) filled_found

filled_opens : open_blob digest filled key ≡ ok (some (record { file = blob; payload_len = 5 }))
unfolding open_blob set_file header text_eq ℕ_discrete for_descriptor
filled_opens = refl

read_range-open_blob_example : read_range (record { file = blob; payload_len = 5 }) 1 3 ≡ (
    if leb 4 (length (drop header_size blob))
    then ok (take 3 (drop 1 (drop header_size blob)))
    else err invalid_header)
read_range-open_blob_example =
    read_range-open_blob digest digest-IsDigest key filled blob 1 3 blob_is_byte filled_found
      filled_opens

load-publish_stream_example :
    ((publish_stream digest 7 empty key 3 (cursor facts)).0 ≡ ok true)
    × (load digest (publish_stream digest 7 empty key 3 (cursor facts)).1 key
        ≡ ok (some (take 3 facts)))
    × ((publish_stream digest 7 empty key 3 (cursor facts)).1 (temporary_name digest 7 key) ≡ none)
load-publish_stream_example =
    load-publish_stream digest digest-IsDigest 7 empty key refl refl 3 (cursor facts) (omega arith)
      (omega arith)

publish_abandoned_example :
    ((publish_stream digest 7 empty key 9 (cursor facts)).0
      ≡ (if false then err io else err (truncated_payload 9)))
    × (publish digest 7 (publish_stream digest 7 empty key 9 (cursor facts)).1 key facts
        ≡ (ok false, (publish_stream digest 7 empty key 9 (cursor facts)).1))
    × (load digest (publish_stream digest 7 empty key 9 (cursor facts)).1 key ≡ ok none)
publish_abandoned_example =
    publish_abandoned digest digest-IsDigest 7 empty key refl refl 9 (cursor facts) facts
      (omega arith)

publish_stream_keeps_example :
    (publish_stream digest 7 filled key 3 (cursor facts)).1 (filename digest key) ≡ some blob
publish_stream_keeps_example =
    publish_stream_keeps digest digest-IsDigest 7 filled key 3 (cursor facts) key filled_found

abbrev sum : List ℕ → List ℕ
sum bytes = length bytes ∷ []

promoted : (promote_staged digest 7 sum empty key (some facts) 5 (5 ∷ [])).0 ≡ ok true
unfolding promote_staged set_file nat_eq text_eq ℕ_discrete for_descriptor
promoted = refl

load-promote_staged_example :
    (bytes : List ℕ) × (some facts ≡ some bytes)
    × (length bytes ≡ 5)
    × (sum bytes ≡ 5 ∷ [])
    × (load digest (promote_staged digest 7 sum empty key (some facts) 5 (5 ∷ [])).1 key
        ≡ ok (some bytes))
load-promote_staged_example =
    load-promote_staged digest 7 sum empty key (some facts) 5 (5 ∷ []) digest-IsDigest (omega arith)
      promoted

refused :
    (promote_staged digest 7 sum filled key (some facts) 5 (6 ∷ [])).0
    ≡ err staged_checksum_mismatch
unfolding promote_staged text_eq ℕ_discrete
refused = refl
