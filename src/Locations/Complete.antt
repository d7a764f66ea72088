-- ===== src/Locations/Complete.antt =====
-- From an offset to its place and back: `position_at` and `byte_offset`.
use kide.Base.{
  ℕ, ◌+◌, ◌-◌, ◌<◌, ◌≤◌, ◌^◌, ◌%◌, ◌≡◌, refl, sym, ap, ◌∙◌, Text, List, [], ◌∷◌, ◌++◌, Bool-cases,
  inl, inr, none, some, true, false, eqb, ltb, ◌||◌, length, take, drop, length-append,
  append_assoc, append-nil, take-append, drop-append, drop-add-append, Option-cases,
  take-append-drop, length-take, length-drop, arith,
}
use kide.Base.Results.{ok}
use kide.Canonical.{TextPosition}
use kide.Locations.{
  starts_char, is_boundary, char_count, split_inclusive, find_line, strip_newline, nth_char,
  column_offset, find_offset, byte_offset, newline_count, rfind, after_newline, line_start,
  position_at,
}
use kide.Locations.Lines.{
  newline_count-length, char_count-length, Lines, split_inclusive-Lines, newline_count-append,
  line_start-ended, rfind_plain, char_count-append, strip_newline_plain, strip_newline_ended,
  rfind-joined,
}

nth_char-boundary :
    (a : Text) (c : ℕ) (b : Text) (offset : ℕ)
    → starts_char c ≡ true
    → nth_char (char_count a) offset (a ++ (c ∷ b)) ≡ some (offset + length a)
unfolding nth_char char_count
nth_char-boundary [] c b offset starts = rw starts (ap some (omega arith))
nth_char-boundary (d ∷ a) c b offset starts = elim (Bool-cases (starts_char d)) [
  | inl here ↦
      let more : eqb (1 + char_count a) 0 ≡ false = ground arith in
      let less : 1 + char_count a - 1 ≡ char_count a = omega arith in
      rw (here, more, less, nth_char-boundary a c b (offset + 1) starts) (ap some (omega arith))
  | inr inside ↦
      let same : 0 + char_count a ≡ char_count a = omega arith in
      rw (inside, same, nth_char-boundary a c b (offset + 1) starts) (ap some (omega arith))
]

char_count-boundary :
    (a : Text) (c : ℕ) (b : Text)
    → starts_char c ≡ true
    → eqb (char_count a) (char_count (a ++ (c ∷ b))) ≡ false
unfolding char_count
char_count-boundary a c b starts =
    let total = char_count-append a (c ∷ b) in
    let one : char_count (c ∷ b) ≡ 1 + char_count b = rw starts refl in ground arith

column_offset-boundary :
    (a b : Text) → is_boundary b ≡ true → column_offset (char_count a) (a ++ b) ≡ some (length a)
unfolding column_offset is_boundary
column_offset-boundary a [] bound =
    let whole : eqb (char_count a) (char_count a) ≡ true = ground arith in
    rw (append-nil a, whole) refl
column_offset-boundary a (c ∷ b) bound =
    rw (char_count-boundary a c b bound, nth_char-boundary a c b 0 bound) (ap some (omega arith))

boundary_front : (b after : Text) → is_boundary (b ++ after) ≡ true → is_boundary b ≡ true
unfolding is_boundary
boundary_front [] after bound = refl
boundary_front (c ∷ b) after bound = bound

-- What `find_line` and `column_offset` make of the place behind a text.
record IsFound (x : Text) (lines : List Text) (index prefix : ℕ) : Type 0 where
  start : ℕ
  line : Text
  column : ℕ
  line_found : find_line (newline_count x + 1 + index) index prefix lines ≡ some (start, line)
  column_found :
      column_offset (char_count (drop (line_start x) x)) (strip_newline line) ≡ some column
  offset_found : start + column ≡ prefix + length x

first_line :
    (a b line : Text) (lines : List Text) (index prefix : ℕ)
    → newline_count a ≡ 0
    → is_boundary b ≡ true
    → strip_newline line ≡ a ++ b
    → IsFound a (line ∷ lines) index prefix
unfolding find_line line_start after_newline
first_line a b line lines index prefix plain bound strip =
    let this : eqb (index + 1) (newline_count a + 1 + index) ≡ true = ground arith in
    record {
      start = prefix;
      line = line;
      column = length a;
      line_found = rw this refl;
      column_found = rw (rfind_plain a plain, strip) (column_offset-boundary a b bound);
      offset_found = refl;
    }

rfind_absent : (a b : Text) → rfind b ≡ none → rfind (a ++ b) ≡ rfind a
unfolding rfind
rfind_absent [] b absent = absent
rfind_absent (c ∷ a) b absent = rw (rfind_absent a b absent) refl

-- Whole lines in front of a text leave its last line as it is.
last_line :
    (head x : Text)
    → line_start head ≡ length head
    → drop (line_start (head ++ x)) (head ++ x) ≡ drop (line_start x) x
unfolding line_start after_newline
last_line head x ends = elim (Option-cases (rfind x)) [
  | inl absent ↦
      rw (rfind_absent head x absent, ends, absent) (drop-append (length head) head x refl)
  | inr (i, found) ↦
      let place : length head + i + 1 ≡ length head + (i + 1) = omega arith in
      rw (rfind-joined head x i found, found, place)
        (drop-add-append (length head) (i + 1) head x refl)
]

later_line :
    (head x : Text) (lines : List Text) (index prefix : ℕ)
    → newline_count head ≡ 1
    → line_start head ≡ length head
    → IsFound x lines (index + 1) (prefix + length head)
    → IsFound (head ++ x) (head ∷ lines) index prefix
unfolding find_line
later_line head x lines index prefix one ends found =
    let target : newline_count (head ++ x) + 1 + index ≡ newline_count x + 1 + (index + 1) =
      omega (arith, newline_count-append head x) in
    let other : eqb (index + 1) (newline_count x + 1 + (index + 1)) ≡ false = ground arith in
    let size = length-append head x in
    let place = found.offset_found in
    record {
      start = found.start;
      line = found.line;
      column = found.column;
      line_found =
          ap (λ t. find_line t index prefix (head ∷ lines)) target ∙ rw other found.line_found;
      column_found = rw (last_line head x ends) found.column_found;
      offset_found = omega arith;
    }

place-IsFound :
    {text : Text} {lines : List Text}
    → Lines text lines
    → (offset index prefix : ℕ) → offset < length text
    → is_boundary (drop offset text) ≡ true
    → IsFound (take offset text) lines index prefix
unfolding newline_count
place-IsFound Lines.done offset index prefix inside bound = absurd (omega arith)
place-IsFound (Lines.last c body plain) offset index prefix inside bound =
    let line = c ∷ body in
    let parts = take-append-drop offset line in
    let first : newline_count (take offset line) ≡ 0 =
      omega (
        arith,
        newline_count-append (take offset line) (drop offset line),
        ap newline_count parts,
      ) in
    first_line (take offset line) (drop offset line) line [] index prefix first bound
      (strip_newline_plain line plain ∙ sym parts)
place-IsFound (Lines.ended body rest {lines} plain later) offset index prefix inside bound =
    elim (Bool-cases (ltb (length body) offset)) [
      | inl behind ↦
          let head = body ++ (10 ∷ []) in
          let o = offset - length head in
          let far : length head ≡ length body + 1 = length-append body (10 ∷ []) in
          let whole = length-append body (10 ∷ rest) in
          let split : body ++ (10 ∷ rest) ≡ (head ++ take o rest) ++ drop o rest =
            sym (append_assoc body (10 ∷ []) rest)
            ∙ ap (λ t. head ++ t) (sym (take-append-drop o rest))
            ∙ sym (append_assoc head (take o rest) (drop o rest)) in
          let near : o < length rest = ground arith in
          let size : length (head ++ take o rest) ≡ offset =
            ground (arith, length-append head (take o rest), length-take o rest) in
          let taken : take offset (body ++ (10 ∷ rest)) ≡ head ++ take o rest =
            ap (take offset) split ∙ take-append offset (head ++ take o rest) (drop o rest) size in
          let left : drop offset (body ++ (10 ∷ rest)) ≡ drop o rest =
            ap (drop offset) split ∙ drop-append offset (head ++ take o rest) (drop o rest) size in
          let one : newline_count head ≡ 1 = omega (arith, newline_count-append body (10 ∷ [])) in
          rw taken (
            later_line head (take o rest) lines index prefix one (line_start-ended body) (
              place-IsFound later o (index + 1) (prefix + length head) near
                (ap is_boundary (sym left) ∙ bound)))
      | inr within ↦
          let a = take offset body in
          let b = drop offset body in
          let parts = take-append-drop offset body in
          let size : length a ≡ offset = length-take offset body (ground arith) in
          let split : body ++ (10 ∷ rest) ≡ a ++ (b ++ (10 ∷ rest)) =
            ap (λ t. t ++ (10 ∷ rest)) (sym parts) ∙ append_assoc a b (10 ∷ rest) in
          let taken : take offset (body ++ (10 ∷ rest)) ≡ a =
            ap (take offset) split ∙ take-append offset a (b ++ (10 ∷ rest)) size in
          let left : drop offset (body ++ (10 ∷ rest)) ≡ b ++ (10 ∷ rest) =
            ap (drop offset) split ∙ drop-append offset a (b ++ (10 ∷ rest)) size in
          let first : newline_count a ≡ 0 =
            omega (arith, newline_count-append a b, ap newline_count parts) in
          rw taken (
            first_line a b (body ++ (10 ∷ [])) lines index prefix first
              (boundary_front b (10 ∷ rest) (ap is_boundary (sym left) ∙ bound))
              (strip_newline_ended body plain ∙ sym parts))
    ]

abbrev place_behind : Text → TextPosition
place_behind x = record {
  line = newline_count x + 1;
  column = char_count (drop (line_start x) x) + 1;
}

position_at_boundary :
    (text : Text) (offset : ℕ)
    → length text < 2 ^ 32
    → offset ≤ length text
    → is_boundary (drop offset text) ≡ true
    → position_at text offset ≡ some (place_behind (take offset text))
unfolding position_at
position_at_boundary text offset small inside bound =
    let x = take offset text in
    let size = length-take offset text inside in
    let here : ltb (length text) offset ≡ false = ground arith in
    let lines : newline_count x % 2 ^ 32 ≡ newline_count x =
      omega (arith, newline_count-length x) in
    let columns : char_count (drop (line_start x) x) % 2 ^ 32 ≡ char_count (drop (line_start x) x) =
      omega (arith, char_count-length (drop (line_start x) x), length-drop (line_start x) x) in
    rw (here, bound, lines, columns) refl

position_at_inside :
    (text : Text) (offset : ℕ)
    → is_boundary (drop offset text) ≡ false
    → position_at text offset ≡ none
unfolding position_at
position_at_inside text offset inside = ground arith

find_offset_found :
    (text x : Text)
    → IsFound x (split_inclusive text) 0 0
    → byte_offset text (place_behind x) ≡ ok (length x)
unfolding byte_offset find_offset
find_offset_found text x found =
    let stated : (eqb (newline_count x + 1) 0 || eqb (char_count (drop (line_start x) x) + 1) 0)
        ≡ false =
      ground arith in
    let target : newline_count x + 1 ≡ newline_count x + 1 + 0 = omega arith in
    let column : char_count (drop (line_start x) x) + 1 - 1 ≡ char_count (drop (line_start x) x) =
      omega arith in
    let there : find_line (newline_count x + 1) 0 0 (split_inclusive text)
        ≡ some (found.start, found.line) =
      ap (λ t. find_line t 0 0 (split_inclusive text)) target ∙ found.line_found in
    let sum = found.offset_found in
    rw (stated, there, column, found.column_found) (ap ok (omega arith))

-- In a text of fewer than 2 ^ 32 bytes, `byte_offset` finds an offset in front of the end of the text
-- by the place that `position_at` gives for it.
pub byte_offset-position_at :
    (text : Text) (offset : ℕ) (position : TextPosition)
    → length text < 2 ^ 32
    → offset < length text
    → position_at text offset ≡ some position
    → byte_offset text position ≡ ok offset
byte_offset-position_at text offset position small inside place =
    let size : length (take offset text) ≡ offset = length-take offset text (omega arith) in
    elim (Bool-cases (is_boundary (drop offset text))) [
      | inl bound ↦
          let there = position_at_boundary text offset small (omega arith) bound in
          let same : place_behind (take offset text) ≡ position = cc in
          ap (byte_offset text) (sym same)
          ∙ find_offset_found text (take offset text)
              (place-IsFound (split_inclusive-Lines text) offset 0 0 inside bound)
          ∙ ap ok size
      | inr inside_char ↦ let nowhere = position_at_inside text offset inside_char in absurd cc
    ]
