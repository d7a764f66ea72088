-- ===== src/Framing/Ends.antt =====
-- How reading ends: each frame takes bytes, and a prefix that is cut short.
use kide.Base.{
  ℕ, zero, suc, ◌+◌, ◌*◌, ◌^◌, ◌≤◌, ◌<◌, ◌≡◌, refl, ap, ◌∙◌, List, [], ◌∷◌, ◌++◌, Option, none,
  some,
}
use kide.Base.{eqb, arith, length, length-drop, length-append, drop, if◌then◌else◌, inl, inr, ◌⊎◌}
use kide.Framing.{
  Message, Result, ok, err, ok_or, decode_error, unexpected_eof, length_mismatch, FrameError, ◌>>=◌,
}
use kide.Framing.{get_from, scan, or_group, read_prefix, read_exact, prefix_length}
use kide.Framing.Varint.{or_group_more}
use kide.Framing.{decode, read_frame, read_loop}

read_prefix_rest :
    (bytes prefix : List ℕ) (last : ℕ) (p rest : List ℕ)
    → read_prefix bytes prefix last ≡ ok (p, rest)
    → length rest ≤ length bytes
unfolding read_prefix
read_prefix_rest [] prefix last p rest h = ground arith
read_prefix_rest (b ∷ bytes) prefix last p rest h =
    ground (arith, read_prefix_rest bytes (prefix ++ (b ∷ [])) b p rest)

read_exact_rest :
    (bytes : List ℕ) (n : ℕ) (p rest : List ℕ)
    → read_exact bytes n ≡ ok (p, rest)
    → length rest ≤ length bytes
unfolding read_exact
read_exact_rest bytes n p rest h = ground (arith, length-drop n bytes)

module _ {ℓ κ} {A : Type ℓ} {B : Type κ} where
  ok_of_bind :
      (r : Result A) (f : A → Result B) (b : B)
      → (r >>= f) ≡ ok b
      → (a : A) × (r ≡ ok a) × (f a ≡ ok b)
  ok_of_bind (ok a) f b h = (a, refl, h)
  ok_of_bind (err e) f b h = ground arith

module _ (m : Message) where
  open m use {Envelope, encode_to_vec, decode_payload}

  -- A frame that is read takes at least one byte off the stream.
  pub read_frame_takes :
      (bytes rest : List ℕ) (e : Envelope)
      → read_frame m bytes ≡ ok (some e, rest)
      → length rest < length bytes
  unfolding read_frame
  read_frame_takes [] rest e h = ground arith
  read_frame_takes (first ∷ bytes) rest e h =
      let ((prefix, behind), hp, h1) =
        ok_of_bind (read_prefix bytes (first ∷ []) first) _ (some e, rest) h in
      let ((payload, left), he, h2) =
        ok_of_bind (read_exact behind (prefix_length prefix 0 0)) _ (some e, rest) h1 in
      let shorter = read_prefix_rest bytes (first ∷ []) first prefix behind hp in
      let shorter' = read_exact_rest behind (prefix_length prefix 0 0) payload left he in
      let same : left ≡ rest = ground (arith, h2) in rw (← same) (omega arith)

  frame_cases :
      (r : Result (Option Envelope × List ℕ))
      → ((e : Envelope) × (rest : List ℕ) × (r ≡ ok (some e, rest)))
        ⊎ ((rest : List ℕ) × (r ≡ ok (none, rest)))
        ⊎ ((error : FrameError) × (r ≡ err error))
  frame_cases (ok (some e, rest)) = inl (e, rest, refl)
  frame_cases (ok (none, rest)) = inr (inl (rest, refl))
  frame_cases (err error) = inr (inr (error, refl))

  -- The reader thread's loop needs one round for each byte and one more: any two bounds above the
  -- number of bytes give the same frames.
  pub read_loop_enough :
      (f g : ℕ) (bytes : List ℕ)
      → length bytes < f
      → length bytes < g
      → read_loop m f bytes ≡ read_loop m g bytes
  unfolding read_loop
  read_loop_enough zero g bytes hf hg = absurd (omega arith)
  read_loop_enough (suc f) zero bytes hf hg = absurd (omega arith)
  read_loop_enough (suc f) (suc g) bytes hf hg = elim (frame_cases (read_frame m bytes)) [
    | inl (e, rest, h) ↦
        let shorter = read_frame_takes bytes rest e h in
        let tail = read_loop_enough f g rest (omega arith) (omega arith) in
        rw (h, read_loop) (ap (λ frames. ok e ∷ frames) tail)
    | inr (inl (rest, h)) ↦ rw (h, read_loop) refl
    | inr (inr (error, h)) ↦ rw (h, read_loop) refl
  ]

abbrev pub unterminated : ℕ → List ℕ
unterminated zero = []
unterminated (suc n) = 0x80 ∷ unterminated n

length-unterminated : (n : ℕ) → length (unterminated n) ≡ n
length-unterminated zero = refl
length-unterminated (suc n) = ap suc (length-unterminated n)

power_pos : (s : ℕ) → 0 < 2 ^ s
power_pos zero = omega arith
power_pos (suc s) = omega (arith, power_pos s)

no_groups : (s : ℕ) → or_group 0 0x80 s ≡ 0
no_groups s = or_group_more 0 0 s (omega arith) (power_pos s) (omega arith) ∙ omega arith

scan-unterminated :
    (n s offset : ℕ) → s + 7 * n < 64 → scan (unterminated n) 0 s offset ≡ ok (0, offset + n)
unfolding scan
scan-unterminated zero s offset h = ground arith
scan-unterminated (suc n) s offset h =
    rw (no_groups s) (ground (arith, scan-unterminated n (s + 7) (offset + 1) (omega arith)))

scan-all : (n : ℕ) → 7 * n < 64 → scan (unterminated n) 0 0 0 ≡ ok (0, n)
scan-all n h = scan-unterminated n 0 0 (omega arith) ∙ ground arith

read_prefix-unterminated :
    (n : ℕ) (prefix : List ℕ)
    → length prefix + n < 10
    → read_prefix (unterminated n) prefix 0x80 ≡ err unexpected_eof
unfolding read_prefix
read_prefix-unterminated zero prefix h = ground arith
read_prefix-unterminated (suc n) prefix h =
    ground
      (arith, read_prefix-unterminated n (prefix ++ (0x80 ∷ [])), length-append prefix (0x80 ∷ []))

drop-unterminated : (n : ℕ) → drop n (unterminated n) ≡ []
drop-unterminated zero = refl
drop-unterminated (suc n) = drop-unterminated n

get_from-unterminated : (n : ℕ) → get_from (unterminated n) n ≡ ok []
unfolding get_from
get_from-unterminated n = ground (arith, drop-unterminated n, length-unterminated n)

module _ (m : Message) where
  open m use {Envelope, encode_to_vec, decode_payload}

  -- A frame that ends inside its length prefix, after one to nine bytes 0x80: `read_frame` reports
  -- the end of the stream, whereas `decode` takes the frame for one with an empty payload.
  pub unterminated_prefix :
      (n : ℕ)
      → n < 9
      → (read_frame m (unterminated (suc n)) ≡ err unexpected_eof)
        × (decode m (unterminated (suc n)) ≡ ok_or (decode_payload []) decode_error)
  unfolding read_frame decode get_from
  unterminated_prefix n h = (
    rw (read_prefix-unterminated n (0x80 ∷ []) (omega arith)) refl,
    rw (scan-all (suc n) (omega arith)) (
        ap
          (λ r. r >>= λ payload.
            if eqb 0 (length payload)
            then ok_or (decode_payload payload) decode_error
            else err length_mismatch)
          (get_from-unterminated (suc n))),
  )
