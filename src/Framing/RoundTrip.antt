-- ===== src/Framing/RoundTrip.antt =====
-- What is written as a frame is read back, alone and in a stream.
use kide.Base.{
  ℕ, zero, suc, ◌^◌, ◌≤◌, ◌<◌, ◌≡◌, ◌≢◌, refl, sym, ap, ◌∙◌, List, [], ◌∷◌, ◌++◌, some, map,
}
use kide.Base.{eqb, if◌then◌else◌}
use kide.Base.{arith, length, length-append, append_assoc, append-nil, take, drop, All}
use kide.Base.Bits.{lt_acc}
use kide.Framing.{Message, IsLawful, ok, err, ok_or, decode_error, length_mismatch}
use kide.Framing.{◌>>=◌, get_from, read_exact, prefix_length}
use kide.Framing.{encode, decode, read_frame, write_frame, read_loop}
use kide.Framing.Varint.{varint, varint_shape, length_bytes-eq-varint}
use kide.Framing.Prefix.{scan_frame, prefix_length-varint, read_more, read_more-varint}

drop-length-append : (xs ys : List ℕ) → drop (length xs) (xs ++ ys) ≡ ys
drop-length-append [] ys = refl
drop-length-append (x ∷ xs) ys = drop-length-append xs ys

take-length-append : (xs ys : List ℕ) → take (length xs) (xs ++ ys) ≡ xs
take-length-append [] ys = refl
take-length-append (x ∷ xs) ys = ap (λ t. x ∷ t) (take-length-append xs ys)

get_from_behind : (prefix xs : List ℕ) → get_from (prefix ++ xs) (length prefix) ≡ ok xs
unfolding get_from
get_from_behind prefix xs = ground (arith, length-append prefix xs, drop-length-append prefix xs)

read_exact_front : (xs rest : List ℕ) → read_exact (xs ++ rest) (length xs) ≡ ok (xs, rest)
unfolding read_exact
read_exact_front xs rest =
    ground (arith, length-append xs rest, drop-length-append xs rest, take-length-append xs rest)

module _ (m : Message) where
  open m use {Envelope, encode_to_vec, decode_payload}

  encode-varint :
      (e : Envelope)
      → length (encode_to_vec e) < 2 ^ 64
      → encode m e ≡ varint 9 (length (encode_to_vec e)) ++ encode_to_vec e
  unfolding encode
  encode-varint e h = rw (
      length_bytes-eq-varint 9 (length (encode_to_vec e)) (lt_acc (length (encode_to_vec e)))
        (omega arith))

  -- `decode` of a whole frame with more bytes behind it.
  decode_with :
      (e : Envelope) (more : List ℕ)
      → length (encode_to_vec e) < 2 ^ 64
      → decode m (encode m e ++ more) ≡ (
          if eqb (length (encode_to_vec e)) (length (encode_to_vec e ++ more))
          then ok_or (decode_payload (encode_to_vec e ++ more)) decode_error
          else err length_mismatch)
  unfolding decode
  decode_with e more h =
      let payload = encode_to_vec e in
      let prefix = varint 9 (length payload) in
      rw (encode-varint e h, append_assoc prefix payload more)
        (rw (scan_frame (length payload) (payload ++ more) h)
          (rw (get_from_behind prefix (payload ++ more))))

  -- A frame decodes to the envelope that was encoded, if its payload is shorter than 2 ^ 64 bytes.
  pub decode-encode :
      (e : Envelope) → IsLawful m → length (encode_to_vec e) < 2 ^ 64 → decode m (encode m e) ≡ ok e
  decode-encode e lawful h =
      sym (ap (decode m) (append-nil (encode m e)))
      ∙ decode_with e [] h
      ∙ rw (append-nil (encode_to_vec e), lawful.decode-encode e) (ground arith)

  -- A frame with further bytes behind it is refused: the length does not match.
  pub decode_trailing :
      (e : Envelope) (byte : ℕ) (more : List ℕ)
      → length (encode_to_vec e) < 2 ^ 64
      → decode m (encode m e ++ byte ∷ more) ≡ err length_mismatch
  decode_trailing e byte more h =
      decode_with e (byte ∷ more) h ∙ ground (arith, length-append (encode_to_vec e) (byte ∷ more))

  length-encode : (e : Envelope) → length (encode_to_vec e) < 2 ^ 64 → 1 ≤ length (encode m e)
  length-encode e h =
      let payload = encode_to_vec e in
      rw (encode-varint e h) (
        omega (
          arith,
          length-append (varint 9 (length payload)) payload,
          varint_shape 9 (length payload) (omega arith),
        ))

  encode-ne-nil :
      (e : Envelope) (rest : List ℕ) → length (encode_to_vec e) < 2 ^ 64 → encode m e ++ rest ≢ []
  encode-ne-nil e rest h empty =
      absurd (omega (arith, length-encode e h, length-append (encode m e) rest, ap length empty))

  read_frame-read_more :
      (bytes : List ℕ)
      → bytes ≢ []
      → read_frame m bytes ≡ do
        (prefix, rest) ← read_more [] bytes
        (payload, rest) ← read_exact rest (prefix_length prefix 0 0)
        e ← ok_or (decode_payload payload) decode_error
        ok (some e, rest)
  unfolding read_frame
  read_frame-read_more [] h = absurd (h refl)
  read_frame-read_more (b ∷ bytes) h = refl

  -- `read_frame` returns the envelope at the front of a stream and leaves the rest of the stream.
  pub read_frame-encode :
      (e : Envelope) (rest : List ℕ)
      → IsLawful m
      → length (encode_to_vec e) < 2 ^ 64
      → read_frame m (encode m e ++ rest) ≡ ok (some e, rest)
  read_frame-encode e rest lawful h =
      let payload = encode_to_vec e in
      let prefix = varint 9 (length payload) in
      read_frame-read_more (encode m e ++ rest) (encode-ne-nil e rest h)
      ∙ rw (encode-varint e h, append_assoc prefix payload rest)
          (rw (read_more-varint 9 (length payload) [] (payload ++ rest) (omega arith) (omega arith))
            (rw (
              prefix_length-varint (length payload) h,
              read_exact_front payload rest,
              lawful.decode-encode e,
            )))

  abbrev Fits : Envelope → Type 0
  Fits e = length (encode_to_vec e) < 2 ^ 64

  -- What a writer has after the envelopes, one `write_frame` after the other.
  pub write_all : List ℕ → List Envelope → List ℕ
  write_all written [] = written
  write_all written (e ∷ es) = write_all (write_frame m written e) es

  pub frames : List Envelope → List ℕ
  frames [] = []
  frames (e ∷ es) = encode m e ++ frames es

  write_all-frames :
      (es : List Envelope) (written : List ℕ) → write_all written es ≡ written ++ frames es
  unfolding write_all frames write_frame
  write_all-frames [] written = sym (append-nil written)
  write_all-frames (e ∷ es) written =
      write_all-frames es (written ++ encode m e) ∙ append_assoc written (encode m e) (frames es)

  read_loop-frames :
      (fuel : ℕ) (es : List Envelope)
      → IsLawful m
      → All Fits es
      → length (frames es) < fuel
      → read_loop m fuel (frames es) ≡ map ok es
  unfolding read_loop frames
  read_loop-frames zero es lawful fits h = absurd (omega arith)
  read_loop-frames (suc fuel) [] lawful fits h = unfold read_frame in refl
  read_loop-frames (suc fuel) (e ∷ es) lawful (fit, fits) h =
      rw (read_frame-encode e (frames es) lawful fit, read_loop)
        (ap (λ rest. ok e ∷ rest)
          (read_loop-frames fuel es lawful fits
            (omega (arith, length-encode e fit, length-append (encode m e) (frames es)))))

  -- The reader thread passes on exactly the envelopes that were written, in order, and then ends
  -- without an error. One round for each byte and one more are enough.
  pub read_loop-write_all :
      (es : List Envelope)
      → IsLawful m
      → All (λ e. length (encode_to_vec e) < 2 ^ 64) es
      → read_loop m (suc (length (write_all [] es))) (write_all [] es) ≡ map ok es
  read_loop-write_all es lawful fits =
      rw (write_all-frames es [])
        (read_loop-frames (suc (length (frames es))) es lawful fits (omega arith))
