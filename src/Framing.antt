-- ===== src/Framing.antt =====
-- The module `worker_framing` of crates/kide-core/src/lib.rs: protobuf envelopes behind an
-- unsigned varint of their length. The envelope and its own bytes are prost's, and are the section
-- parameter `m`. A reader is the bytes that it will still deliver; its one failure is their end. A
-- `usize` has 64 bits, so `usize::try_from` of a `u64` succeeds.
pub mod Varint
pub mod Prefix
pub mod RoundTrip
pub mod Ends
use Prim.Native.Nat.{bit_and, bit_or}
use mathlib.Core.Logic.{dite}
use mathlib.Core.WellFounded.{Acc}
use kide.Base.{
  ℕ, zero, suc, ◌+◌, ◌*◌, ◌/◌, ◌%◌, ◌^◌, ◌≤◌, ◌<◌, ◌≡◌, Bool, List, [], ◌∷◌, ◌++◌, Option, none,
  some,
}
use kide.Base.{arith, eqb, leb, if◌then◌else◌, length, take, drop, dec_lt}
use kide.Base.Bits.{lt_acc}

-- `prost::Message` for the generated `Envelope`.
pub record Message : Type 1 where
  pub Envelope : Type 0
  pub encode_to_vec : Envelope → List ℕ
  pub decode_payload : List ℕ → Option Envelope

-- What prost documents: a message decodes from its own encoding.
pub record IsLawful (m : Message) : Type 0 where
  pub decode-encode : (e : m.Envelope) → m.decode_payload (m.encode_to_vec e) ≡ some e

pub data FrameError : Type 0 where
  unexpected_eof invalid_length length_mismatch decode_error : FrameError

pub data Result {ℓ} (A : Type ℓ) : Type ℓ where
  ok : A → Result A
  err : FrameError → Result A

infixl 5 ◌>>=◌
abbrev pub ◌>>=◌ {ℓ κ} : {A : Type ℓ} {B : Type κ} → Result A → (A → Result B) → Result B
ok a >>= f = f a
err e >>= f = err e

abbrev pub ok_or {ℓ} : {A : Type ℓ} → Option A → FrameError → Result A
ok_or none e = err e
ok_or (some a) e = ok a

pub shift_shrinks : (v : ℕ) → ¬ (v < 0x80) → v / 2 ^ 7 < v
shift_shrinks v h = omega arith

-- The `while length >= 0x80` loop of `encode` and the push behind it.
unfoldable pub length_bytes : (v : ℕ) → Acc ◌<◌ v → List ℕ
length_bytes v (Acc.intro _ smaller) =
    dite (dec_lt v 0x80) (λ _. v % 2 ^ 8 ∷ [])
      (λ big.
        bit_or (v % 2 ^ 8) 0x80
        ∷ length_bytes (v / 2 ^ 7) (smaller (v / 2 ^ 7) (shift_shrinks v big)))

-- `length |= u64::from(byte & 0x7f) << shift`
unfoldable pub or_group : ℕ → ℕ → ℕ → ℕ
or_group acc byte shift = bit_or acc (bit_and byte 0x7f * 2 ^ shift % 2 ^ 64)

-- The `for byte in frame` loop of `decode`: the length and the offset of the payload.
unfoldable pub scan : List ℕ → ℕ → ℕ → ℕ → Result (ℕ × ℕ)
unfolding or_group
scan [] length' shift offset = ok (length', offset)
scan (byte ∷ bytes) length' shift offset =
    let grown = or_group length' byte shift in
    let rest = scan bytes grown (shift + 7) (offset + 1) in
    if eqb (bit_and byte 0x80) 0
    then ok (grown, offset + 1)
    else if leb 64 (shift + 7)
    then err invalid_length
    else rest

-- `frame.get(offset..)`
unfoldable pub get_from : List ℕ → ℕ → Result (List ℕ)
get_from frame offset =
    if leb offset (length frame) then ok (drop offset frame) else err invalid_length

-- `while prefix.last() & 0x80 != 0` of `read_frame`, over the bytes to come.
unfoldable pub read_prefix : List ℕ → List ℕ → ℕ → Result (List ℕ × List ℕ)
read_prefix [] prefix last =
    if eqb (bit_and last 0x80) 0
    then ok (prefix, [])
    else if eqb (length prefix) 10
    then err invalid_length
    else err unexpected_eof
read_prefix (byte ∷ bytes) prefix last =
    let rest = read_prefix bytes (prefix ++ (byte ∷ [])) byte in
    if eqb (bit_and last 0x80) 0
    then ok (prefix, byte ∷ bytes)
    else if eqb (length prefix) 10
    then err invalid_length
    else rest

-- `for (index, byte) in prefix.iter().enumerate()`
unfoldable pub prefix_length : List ℕ → ℕ → ℕ → ℕ
unfolding or_group
prefix_length [] index length' = length'
prefix_length (byte ∷ bytes) index length' =
    prefix_length bytes (index + 1) (or_group length' byte (index * 7))

-- `read_exact` into a buffer of `n` bytes.
unfoldable pub read_exact : List ℕ → ℕ → Result (List ℕ × List ℕ)
read_exact bytes n =
    if leb n (length bytes) then ok (take n bytes, drop n bytes) else err unexpected_eof

module _ (m : Message) where
  open m use {Envelope, encode_to_vec, decode_payload}

  unfoldable pub encode : Envelope → List ℕ
  unfolding length_bytes lt_acc
  encode e =
      let payload = encode_to_vec e in
      length_bytes (length payload) (lt_acc (length payload)) ++ payload

  unfoldable pub decode : List ℕ → Result Envelope
  unfolding scan get_from
  decode frame = do
    (length', offset) ← scan frame 0 0 0
    payload ← get_from frame offset
    if eqb length' (length payload)
        then ok_or (decode_payload payload) decode_error
        else err length_mismatch

  -- The envelope, or `none` at a clean end, with the bytes that the reader still holds.
  unfoldable pub read_frame : List ℕ → Result (Option Envelope × List ℕ)
  unfolding read_prefix prefix_length read_exact
  read_frame [] = ok (none, [])
  read_frame (first ∷ bytes) = do
    (prefix, rest) ← read_prefix bytes (first ∷ []) first
    (payload, rest) ← read_exact rest (prefix_length prefix 0 0)
    e ← ok_or (decode_payload payload) decode_error
    ok (some e, rest)

  -- `write_frame` onto a writer that takes every byte.
  unfoldable pub write_frame : List ℕ → Envelope → List ℕ
  unfolding encode
  write_frame written e = written ++ encode e

  -- The reader thread of `ensure_running` in crates/kide-core/src/supervisor.rs: the frames that
  -- it sends on, up to the end of the stream or the first error. `fuel` bounds the rounds.
  unfoldable pub read_loop : ℕ → List ℕ → List (Result Envelope)
  unfolding read_frame
  read_loop zero bytes = []
  read_loop (suc fuel) bytes = elim (read_frame bytes) [
    | ok (some e, rest) ↦ ok e ∷ read_loop fuel rest
    | ok (none, rest) ↦ []
    | err error ↦ err error ∷ []
  ]
