-- ===== src/Locations/RoundTrip.antt =====
-- From a place to an offset and back: `byte_offset` and `position_at`.
use kide.Base.{
  ℕ, ◌+◌, ◌-◌, ◌<◌, ◌^◌, ◌≡◌, ◌≢◌, refl, sym, ap, ◌∙◌, Text, List, [], ◌∷◌, ◌++◌, Option,
  Option-cases, Bool-cases, inl, inr, none, some, true, false, eqb, ltb, ◌||◌, ◌%◌, length, take,
  drop, length-append, append_assoc, append-nil, take-append, drop-append, arith,
}
use kide.Base.Results.{ok, err}
use kide.Canonical.{TextPosition}
use kide.Locations.{
  invalid_coordinate, out_of_range, starts_char, is_boundary, char_count, split_inclusive,
  find_line, strip_newline, column_offset, find_offset, byte_offset, newline_count, line_start,
  position_at,
}
use kide.Locations.Lines.{
  newline_count-length, char_count-length, Lines, split_inclusive-Lines, newline_count-append,
  line_start-append, line_start-ended, column_offset-place, strip_newline_plain,
  strip_newline_ended, line_start-joined,
}

-- Where a line that was found stands in the text.
data IsPlace (text : Text) (target index prefix : ℕ) : Option (ℕ × Text) → Type 0 where
  nowhere : IsPlace text target index prefix none
  here :
      (before line after : Text) {p : ℕ} {l : Text}
      → text ≡ before ++ (line ++ after)
      → strip_newline l ≡ line
      → prefix + length before ≡ p
      → newline_count before + index + 1 ≡ target
      → line_start before ≡ length before
      → newline_count line ≡ 0
      → is_boundary after ≡ true
      → IsPlace text target index prefix (some (p, l))

shift :
    (body rest : Text) (target index prefix : ℕ)
    → newline_count body ≡ 0
    → {found : Option (ℕ × Text)}
    → IsPlace rest target (index + 1) (prefix + length (body ++ (10 ∷ []))) found
    → IsPlace (body ++ (10 ∷ rest)) target index prefix found
unfolding newline_count
shift body rest target index prefix plain nowhere = nowhere
shift body rest target index prefix plain
      (here before line after same strip place count start none_in boundary) =
    let head = body ++ (10 ∷ []) in
    let joined : body ++ (10 ∷ rest) ≡ (head ++ before) ++ (line ++ after) =
      sym (append_assoc body (10 ∷ []) rest)
      ∙ ap (λ t. head ++ t) same
      ∙ sym (append_assoc head before (line ++ after)) in
    let size = length-append head before in
    let lines = newline_count-append head before in
    let ends = newline_count-append body (10 ∷ []) in
    here (head ++ before) line after joined strip (omega arith) (ground arith)
      (line_start-joined head before (line_start-ended body) start) none_in boundary

find_line-IsPlace :
    {text : Text} {lines : List Text}
    → Lines text lines
    → (target index prefix : ℕ)
    → IsPlace text target index prefix (find_line target index prefix lines)
unfolding find_line line_start newline_count is_boundary starts_char
find_line-IsPlace Lines.done target index prefix = nowhere
find_line-IsPlace (Lines.last c body plain) target index prefix =
    elim (Bool-cases (eqb (index + 1) target)) [
      | inl this ↦ rw this (
          here [] (c ∷ body) [] (sym (append-nil (c ∷ body))) (strip_newline_plain (c ∷ body) plain)
            (omega arith) (ground arith) refl plain refl)
      | inr other ↦ rw other nowhere
    ]
find_line-IsPlace (Lines.ended body rest plain lines) target index prefix =
    elim (Bool-cases (eqb (index + 1) target)) [
      | inl this ↦ rw this (
          here [] body (10 ∷ rest) refl (strip_newline_ended body plain) (omega arith)
            (ground arith) refl plain refl)
      | inr other ↦ rw other (
          shift body rest target index prefix plain
            (find_line-IsPlace lines target (index + 1) (prefix + length (body ++ (10 ∷ [])))))
    ]

newline_count-prefix : (a b : Text) → newline_count (a ++ b) ≡ 0 → newline_count a ≡ 0
newline_count-prefix a b plain = omega (arith, newline_count-append a b)

is_boundary-append :
    (b after : Text)
    → is_boundary b ≡ true
    → is_boundary after ≡ true
    → is_boundary (b ++ after) ≡ true
unfolding is_boundary
is_boundary-append [] after hb ha = ha
is_boundary-append (c ∷ b) after hb ha = hb

-- The place of an offset behind whole lines and a part of one.
position_at_place :
    (text before a b after : Text)
    → text ≡ before ++ ((a ++ b) ++ after)
    → length text < 2 ^ 32
    → line_start before ≡ length before
    → newline_count a ≡ 0
    → is_boundary (b ++ after) ≡ true
    → position_at text (length before + length a)
      ≡ some (record { line = newline_count before + 1; column = char_count a + 1 })
unfolding position_at
position_at_place text before a b after same small start plain boundary =
    let split : text ≡ (before ++ a) ++ (b ++ after) =
      same
      ∙ ap (λ t. before ++ t) (append_assoc a b after)
      ∙ sym (append_assoc before a (b ++ after)) in
    let size = length-append before a in
    let whole = length-append (before ++ a) (b ++ after) in
    let total : length text ≡ length ((before ++ a) ++ (b ++ after)) = ap length split in
    let taken : take (length before + length a) text ≡ before ++ a =
      ap (take (length before + length a)) split
      ∙ take-append (length before + length a) (before ++ a) (b ++ after) size in
    let left : drop (length before + length a) text ≡ b ++ after =
      ap (drop (length before + length a)) split
      ∙ drop-append (length before + length a) (before ++ a) (b ++ after) size in
    let inside : ltb (length text) (length before + length a) ≡ false = ground arith in
    let starts : line_start (before ++ a) ≡ length before =
      line_start-append before a plain ∙ start in
    let column : drop (length before) (before ++ a) ≡ a =
      drop-append (length before) before a refl in
    let lines : newline_count (before ++ a) % 2 ^ 32 ≡ newline_count before =
      omega (arith, newline_count-append before a, newline_count-length before) in
    let columns : char_count a % 2 ^ 32 ≡ char_count a = omega (arith, char_count-length a) in
    rw (inside, left, boundary, taken, starts, column, lines, columns) refl

found_place :
    (text : Text) (line column k : ℕ) {p : ℕ} {l : Text}
    → length text < 2 ^ 32
    → column ≢ 0
    → IsPlace text line 0 0 (some (p, l))
    → column_offset (column - 1) (strip_newline l) ≡ some k
    → position_at text (p + k) ≡ some (record { line = line; column = column })
found_place text line column k {p} small positive
      (here before body after same strip place count start plain boundary) located =
    let (a, b, parts, size, chars, bound) =
      column_offset-place (column - 1) body k
        (ap (column_offset (column - 1)) (sym strip) ∙ located) in
    let split : text ≡ before ++ ((a ++ b) ++ after) =
      same ∙ ap (λ t. before ++ (t ++ after)) parts in
    let first : newline_count a ≡ 0 =
      newline_count-prefix a b (ap newline_count (sym parts) ∙ plain) in
    let offset : p + k ≡ length before + length a = omega arith in
    let row : newline_count before + 1 ≡ line = omega arith in
    let col : char_count a + 1 ≡ column = omega arith in
    rw offset (
      position_at_place text before a b after split small start first
        (is_boundary-append b after bound boundary)
      ∙ ap some (rw (row, col) refl))

find_offset-place :
    (text : Text) (position : TextPosition) (offset : ℕ)
    → length text < 2 ^ 32
    → position.column ≢ 0
    → find_offset text position ≡ ok offset
    → position_at text offset ≡ some position
unfolding find_offset
find_offset-place text position offset small positive found =
    elim (Option-cases (find_line position.line 0 0 (split_inclusive text))) [
      | inl absent ↦
          let refused : find_offset text position ≡ err out_of_range = rw absent refl in absurd cc
      | inr ((p, l), there) ↦
          elim (Option-cases (column_offset (position.column - 1) (strip_newline l))) [
            | inl absent ↦
                let refused : find_offset text position ≡ err out_of_range =
                  rw (there, absent) refl in
                absurd cc
            | inr (k, located) ↦
                let place : IsPlace text position.line 0 0 (some (p, l)) =
                  rw (sym there)
                    (find_line-IsPlace (split_inclusive-Lines text) position.line 0 0) in
                let same : p + k ≡ offset =
                  let computed : find_offset text position ≡ ok (p + k) =
                    rw (there, located) refl in
                  cc in
                rw (sym same)
                  (found_place text position.line position.column k small positive place located)
          ]
    ]

-- If `byte_offset` finds an offset for a place in a text of fewer than 2 ^ 32 bytes, `position_at`
-- gives that place for the offset.
pub position_at-byte_offset :
    (text : Text) (position : TextPosition) (offset : ℕ)
    → length text < 2 ^ 32
    → byte_offset text position ≡ ok offset
    → position_at text offset ≡ some position
unfolding byte_offset
position_at-byte_offset text position offset small found =
    elim (Bool-cases (eqb position.line 0 || eqb position.column 0)) [
      | inl refused ↦
          let error : byte_offset text position ≡ err invalid_coordinate = rw refused refl in
          absurd cc
      | inr stated ↦
          find_offset-place text position offset small (ground arith) (rw stated at found)
    ]
