-- ===== src/Framing/Prefix.antt =====
-- Both readers of the length prefix take back what `encode` wrote: `scan` of `decode`, and
-- `read_prefix` with `prefix_length` of `read_frame`.
use kide.Base.{
  ℕ, zero, suc, ◌+◌, ◌*◌, ◌/◌, ◌%◌, ◌^◌, ◌≤◌, ◌<◌, ◌≡◌, refl, ap, ◌∙◌, List, [], ◌∷◌, ◌++◌,
}
use kide.Base.{arith, length, length-append, append_assoc, ltb, Bool-cases, inl, inr}
use kide.Base.Bits.{high_bit}
use kide.Framing.{scan, read_prefix, prefix_length, Result, ok, err, unexpected_eof}
use kide.Framing.Varint.{varint, or_group_last, or_group_more, group_fits, groups}

scan_last :
    (w acc s offset : ℕ) (rest : List ℕ)
    → w < 128
    → acc < 2 ^ s
    → acc + w * 2 ^ s < 2 ^ 64
    → scan (w ∷ rest) acc s offset ≡ ok (acc + w * 2 ^ s, offset + 1)
unfolding scan
scan_last w acc s offset rest hw ha hf =
    rw (or_group_last w acc s hw ha hf, high_bit w (omega arith)) (ground arith)

scan_more :
    (g acc s offset : ℕ) (rest : List ℕ)
    → g < 128
    → s + 7 < 64
    → acc < 2 ^ s
    → g * 2 ^ s < 2 ^ 64
    → scan ((g + 128) ∷ rest) acc s offset ≡ scan rest (acc + g * 2 ^ s) (s + 7) (offset + 1)
unfolding scan
scan_more g acc s offset rest hg hs ha hf =
    rw (or_group_more g acc s hg ha hf, high_bit (g + 128) (omega arith)) (ground arith)

-- `scan` stops behind the prefix, with the length in it.
pub scan-varint :
    (k v acc s offset : ℕ) (rest : List ℕ)
    → v < 128 ^ suc k
    → s + 7 * k < 64
    → acc < 2 ^ s
    → acc + v * 2 ^ s < 2 ^ 64
    → scan (varint k v ++ rest) acc s offset ≡ ok (acc + v * 2 ^ s, offset + length (varint k v))
unfolding varint
scan-varint zero v acc s offset rest h hs ha hf = scan_last v acc s offset rest h ha hf
scan-varint (suc k) v acc s offset rest h hs ha hf = elim (Bool-cases (ltb v 128)) [
  | inl small ↦ rw small (scan_last v acc s offset rest (ground arith) ha hf)
  | inr big ↦
      let g = v % 128 in
      let v' = v / 128 in
      let low : g * 2 ^ s < 2 ^ 64 = omega (arith, groups v s) in
      let all_fit : acc + g * 2 ^ s + v' * 2 ^ (s + 7) < 2 ^ 64 = omega (arith, groups v s) in
      let step : scan ((g + 128) ∷ (varint k v' ++ rest)) acc s offset
          ≡ scan (varint k v' ++ rest) (acc + g * 2 ^ s) (s + 7) (offset + 1) =
        scan_more g acc s offset (varint k v' ++ rest) (omega arith) (omega arith) ha low in
      let tail =
        scan-varint k v' (acc + g * 2 ^ s) (s + 7) (offset + 1) rest (omega arith) (omega arith)
          (group_fits acc g s ha (omega arith)) all_fit in
      rw big (step ∙ tail ∙ ground (arith, groups v s))
]

pub scan_frame :
    (v : ℕ) (rest : List ℕ)
    → v < 2 ^ 64
    → scan (varint 9 v ++ rest) 0 0 0 ≡ ok (v, length (varint 9 v))
scan_frame v rest h =
    scan-varint 9 v 0 0 0 rest (omega arith) (omega arith) (omega arith) (omega arith)
    ∙ ground arith

prefix_length-varint_at :
    (k v index s acc : ℕ)
    → s ≡ index * 7
    → v < 128 ^ suc k
    → s + 7 * k < 64
    → acc < 2 ^ s
    → acc + v * 2 ^ s < 2 ^ 64
    → prefix_length (varint k v) index acc ≡ acc + v * 2 ^ s
unfolding varint prefix_length
prefix_length-varint_at zero v index s acc e h hs ha hf = rw (← e) (or_group_last v acc s h ha hf)
prefix_length-varint_at (suc k) v index s acc e h hs ha hf = elim (Bool-cases (ltb v 128)) [
  | inl small ↦ rw (small, ← e) (or_group_last v acc s (ground arith) ha hf)
  | inr big ↦
      let g = v % 128 in
      let v' = v / 128 in
      let low : g * 2 ^ s < 2 ^ 64 = omega (arith, groups v s) in
      let all_fit : acc + g * 2 ^ s + v' * 2 ^ (s + 7) < 2 ^ 64 = omega (arith, groups v s) in
      let tail =
        prefix_length-varint_at k v' (index + 1) (s + 7) (acc + g * 2 ^ s) (omega arith)
          (omega arith) (omega arith) (group_fits acc g s ha (omega arith)) all_fit in
      let step : prefix_length ((g + 128) ∷ varint k v') index acc
          ≡ prefix_length (varint k v') (index + 1) (acc + g * 2 ^ s) =
        ap (prefix_length (varint k v') (index + 1))
          (rw (← e) (or_group_more g acc s (omega arith) ha low)) in
      rw big (step ∙ tail ∙ omega (arith, groups v s))
]

pub prefix_length-varint : (v : ℕ) → v < 2 ^ 64 → prefix_length (varint 9 v) 0 0 ≡ v
prefix_length-varint v h =
    prefix_length-varint_at 9 v 0 0 0 refl (omega arith) (omega arith) (omega arith) (omega arith)
    ∙ omega arith

-- The next byte of the prefix, or the end of the stream.
abbrev pub read_more : List ℕ → List ℕ → Result (List ℕ × List ℕ)
read_more prefix [] = err unexpected_eof
read_more prefix (byte ∷ bytes) = read_prefix bytes (prefix ++ (byte ∷ [])) byte

read_prefix_last :
    (bytes prefix : List ℕ) (last : ℕ)
    → last < 128
    → read_prefix bytes prefix last ≡ ok (prefix, bytes)
unfolding read_prefix
read_prefix_last [] prefix last h = rw (high_bit last (omega arith)) (ground arith)
read_prefix_last (b ∷ bytes) prefix last h = rw (high_bit last (omega arith)) (ground arith)

read_prefix_more :
    (bytes prefix : List ℕ) (last : ℕ)
    → 128 ≤ last
    → last < 256
    → length prefix < 10
    → read_prefix bytes prefix last ≡ read_more prefix bytes
unfolding read_prefix
read_prefix_more [] prefix last h h' hp = rw (high_bit last h') (ground arith)
read_prefix_more (b ∷ bytes) prefix last h h' hp = rw (high_bit last h') (ground arith)

pub read_more-varint :
    (k v : ℕ) (prefix rest : List ℕ)
    → v < 128 ^ suc k
    → length prefix + k < 10
    → read_more prefix (varint k v ++ rest) ≡ ok (prefix ++ varint k v, rest)
unfolding varint
read_more-varint zero v prefix rest h hp = read_prefix_last rest (prefix ++ (v ∷ [])) v h
read_more-varint (suc k) v prefix rest h hp = elim (Bool-cases (ltb v 128)) [
  | inl small ↦ rw small (read_prefix_last rest (prefix ++ (v ∷ [])) v (ground arith))
  | inr big ↦
      let longer : List ℕ = prefix ++ ((v % 128 + 128) ∷ []) in
      let count = length-append prefix ((v % 128 + 128) ∷ []) in
      rw big (
        read_prefix_more (varint k (v / 128) ++ rest) longer (v % 128 + 128) (omega arith)
          (omega arith) (omega arith)
        ∙ read_more-varint k (v / 128) longer rest (omega arith) (omega arith)
        ∙ rw (append_assoc prefix ((v % 128 + 128) ∷ []) (varint k (v / 128))))
]
