-- ===== src/ArtifactCache/Ranges.antt =====
-- Reading ranges of a blob, and the whole of it.
use kide.Base.{ℕ, ◌+◌, ◌%◌, ◌^◌, ◌≤◌, ◌<◌, ◌≡◌, ap, ◌∙◌, List}
use kide.Base.{some, inl, inr, ◌↔◌}
use kide.Base.{arith, length, take, drop, All, leb, if◌then◌else◌, Bool-cases}
use kide.Base.{length-append, length-drop, drop-drop, drop-append, take_all}
use kide.Base.Results.{ok, err, Result-cases}
use kide.DependencyIdentity.{ArtifactBlobKey}
use kide.ArtifactCache.{
  Directory, ArtifactBlob, header_size, read_range, read_all, header, open_file, open_found,
  open_blob, load, load_opened, filename, invalid_header,
}
use kide.ArtifactCache.Names.{IsDigest}
use kide.ArtifactCache.Blobs.{blob_bytes, open_file_whole, open_file-blob, length-header}

-- A blob whose file is as long as its length says.
pub record IsWhole (blob : ArtifactBlob) : Type 0 where
  pub size : length blob.file ≡ header_size + blob.payload_len
  pub fits : header_size + blob.payload_len < 2 ^ 64

-- Reading a range of a whole blob: the bytes of the payload, or a refusal beyond it.
pub read_range-IsWhole :
    (blob : ArtifactBlob) (offset n : ℕ)
    → IsWhole blob
    → read_range blob offset n ≡ (
        if leb (offset + n) blob.payload_len
        then ok (take n (drop offset (drop header_size blob.file)))
        else err invalid_header)
unfolding read_range
read_range-IsWhole blob offset n w = elim (Bool-cases (leb (offset + n) blob.payload_len)) [
  | inl inside ↦
      let place : (header_size + offset) % 2 ^ 64 ≡ 52 + offset = ground arith in
      let rest = drop-drop 52 offset blob.file in
      let left = length-drop (52 + offset) blob.file in rw (inside, place, rest) (ground arith)
  | inr outside ↦ rw outside (ground arith)
]

read_all-IsWhole :
    (blob : ArtifactBlob) → IsWhole blob → read_all blob ≡ ok (drop header_size blob.file)
unfolding read_all
read_all-IsWhole blob w =
    let within : 0 + blob.payload_len ≤ blob.payload_len = omega arith in
    let rest = length-drop 52 blob.file in
    let all = take_all blob.payload_len (drop 52 blob.file) (omega arith) in
    read_range-IsWhole blob 0 blob.payload_len w ∙ rw all (ground arith)

module _ (digest : ArtifactBlobKey → List ℕ) (d : IsDigest digest) (key : ArtifactBlobKey) where
  blob_bytes-IsWhole :
      (payload : List ℕ)
      → header_size + length payload < 2 ^ 64
      → IsWhole (record { file = blob_bytes digest key payload; payload_len = length payload })
  blob_bytes-IsWhole payload fits = record {
    size = omega (
      arith,
      length-append (header digest key (length payload)) payload,
      length-header digest d key (length payload),
    );
    fits = fits;
  }

  pub load-blob_bytes :
      (directory : Directory) (payload : List ℕ)
      → directory (filename digest key) ≡ some (blob_bytes digest key payload)
      → header_size + length payload < 2 ^ 64
      → load digest directory key ≡ ok (some payload)
  unfolding load open_blob open_found load_opened
  load-blob_bytes directory payload found fits =
      let opened = open_file-blob digest d key payload fits in
      let all = read_all-IsWhole _ (blob_bytes-IsWhole payload fits) in
      let behind =
        drop-append 52 (header digest key (length payload)) payload
          (length-header digest d key (length payload)) in
      rw found (rw opened (rw all (rw behind)))

  -- What is known of a file that opens.
  open_file-IsWhole :
      (file : List ℕ)
      → All (λ b. b < 256) file
      → {blob : ArtifactBlob} → open_file digest file key ≡ ok blob
      → IsWhole blob
  open_file-IsWhole file is_byte {blob} opened =
      let (whole, same, size, fits) = open_file_whole digest key file is_byte opened in
      record { size = ap length same ∙ size; fits = fits }

  pub load_whole :
      (directory : Directory) (file payload : List ℕ)
      → All (λ b. b < 256) file
      → directory (filename digest key) ≡ some file
      → load digest directory key ≡ ok (some payload)
      → file ≡ blob_bytes digest key payload
  unfolding load open_blob open_found load_opened
  load_whole directory file payload is_byte found loaded =
      elim (Result-cases (open_file digest file key)) [
        | inl (blob, opened) ↦
            let (whole, same, size, fits) = open_file_whole digest key file is_byte opened in
            let all = read_all-IsWhole blob (open_file-IsWhole file is_byte opened) in
            let step : load digest directory key ≡ ok (some (drop header_size blob.file)) =
              rw found (rw opened (rw all)) in
            let behind : drop header_size file ≡ payload = ground arith in
            let longer : blob.payload_len ≡ length payload =
              omega (arith, length-drop 52 file, ap length behind) in
            whole ∙ rw (behind, longer)
        | inr (error, refused) ↦
            let step : load digest directory key ≡ err error = rw found (rw refused) in ground arith
      ]

  -- A key's file loads as a payload exactly if it is the header of that key, with the payload's
  -- length, followed by the payload; the file consists of bytes, and a blob of that payload is no
  -- longer than 64 bits can say.
  pub load_iff :
      (directory : Directory) (file payload : List ℕ)
      → All (λ b. b < 256) file
      → header_size + length payload < 2 ^ 64
      → directory (filename digest key) ≡ some file
      → (load digest directory key ≡ ok (some payload)) ↔ (file ≡ blob_bytes digest key payload)
  load_iff directory file payload is_byte fits found = (
    load_whole directory file payload is_byte found,
    λ whole. load-blob_bytes directory payload (found ∙ ap some whole) fits,
  )

  -- A blob that opens yields exactly the ranges that lie in its payload: the bytes at that place of
  -- the file behind the header, and a refusal of any other range. The file consists of bytes.
  pub read_range-open_blob :
      (directory : Directory) (file : List ℕ) (offset n : ℕ) {blob : ArtifactBlob}
      → All (λ b. b < 256) file
      → directory (filename digest key) ≡ some file
      → open_blob digest directory key ≡ ok (some blob)
      → read_range blob offset n ≡ (
          if leb (offset + n) (length (drop header_size file))
          then ok (take n (drop offset (drop header_size file)))
          else err invalid_header)
  unfolding open_blob open_found
  read_range-open_blob directory file offset n {blob = blob} is_byte found opened =
      elim (Result-cases (open_file digest file key)) [
        | inl (whole, unlocked) ↦
            let same : whole ≡ blob =
              let step : open_blob digest directory key ≡ ok (some whole) =
                rw found (rw unlocked) in
              ground arith in
            let (shape, same_file, size, fits) = open_file_whole digest key file is_byte unlocked in
            let left : length (drop header_size file) ≡ whole.payload_len =
              omega (arith, length-drop 52 file) in
            let range =
              read_range-IsWhole whole offset n (open_file-IsWhole file is_byte unlocked) in
            rw (← same, left, ← same_file) range
        | inr (e, refused) ↦
            let step : open_blob digest directory key ≡ err e = rw found (rw refused) in
            ground arith
      ]
