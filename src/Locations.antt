-- ===== src/Locations.antt =====
-- Places in a source text: `byte_offset` of crates/kide-core/src/query_resolver.rs and `position_at`
-- of crates/kide-core/src/text_index.rs. A text is its bytes in UTF-8, and a character is the byte
-- that starts it with the continuation bytes behind it.
pub mod Complete
pub mod Lines
pub mod RoundTrip
use kide.Base.{
  ℕ, ◌+◌, ◌-◌, ◌%◌, ◌^◌, Text, List, [], ◌∷◌, Option, none, some, Bool, true, false, not, ◌||◌,
  if◌then◌else◌, eqb, ltb, leb, length, take, drop,
}
use kide.Base.Results.{Result, ok, err, ◌>>=◌, ok_or}
use kide.Canonical.{TextPosition}

pub data LocationError : Type 0 where
  invalid_coordinate : LocationError
  out_of_range : LocationError

unfoldable pub newline : ℕ → Bool
newline c = eqb c 10

unfoldable pub starts_char : ℕ → Bool
starts_char c = ltb c 128 || leb 192 c

-- `is_char_boundary` at the front of what follows.
unfoldable pub is_boundary : Text → Bool
unfolding starts_char
is_boundary [] = true
is_boundary (c ∷ rest) = starts_char c

-- `chars().count()`
unfoldable pub char_count : Text → ℕ
unfolding starts_char
char_count [] = 0
char_count (c ∷ rest) = (if starts_char c then 1 else 0) + char_count rest

unfoldable pub push_front : ℕ → List Text → List Text
push_front c [] = (c ∷ []) ∷ []
push_front c (line ∷ lines) = (c ∷ line) ∷ lines

-- `split_inclusive('\n')`: a newline ends its line, and no empty line is left behind the last one.
unfoldable pub split_inclusive : Text → List Text
unfolding newline push_front
split_inclusive [] = []
split_inclusive (c ∷ rest) =
    let lines = split_inclusive rest in if newline c then (c ∷ []) ∷ lines else push_front c lines

-- The `find_map` over the enumerated lines, with the bytes of those before.
unfoldable pub find_line : ℕ → ℕ → ℕ → List Text → Option (ℕ × Text)
find_line target index prefix_bytes [] = none
find_line target index prefix_bytes (line ∷ lines) =
    let later = find_line target (index + 1) (prefix_bytes + length line) lines in
    if eqb (index + 1) target then some (prefix_bytes, line) else later

unfoldable pub strip_newline : Text → Text
unfolding newline
strip_newline [] = []
strip_newline (c ∷ []) = if newline c then [] else c ∷ []
strip_newline (c ∷ d ∷ rest) = c ∷ strip_newline (d ∷ rest)

-- `char_indices().nth(n)`, from an offset on.
unfoldable pub nth_char : ℕ → ℕ → Text → Option ℕ
unfolding starts_char
nth_char n offset [] = none
nth_char n offset (c ∷ rest) =
    let same = nth_char n (offset + 1) rest in
    let next = nth_char (n - 1) (offset + 1) rest in
    if not (starts_char c) then same else if eqb n 0 then some offset else next

unfoldable pub column_offset : ℕ → Text → Option ℕ
unfolding char_count nth_char
column_offset scalar_offset line =
    if eqb scalar_offset (char_count line)
    then some (length line)
    else nth_char scalar_offset 0 line

unfoldable pub find_offset : Text → TextPosition → Result ℕ LocationError
unfolding split_inclusive find_line strip_newline column_offset
find_offset text position = do
  found ← ok_or (find_line position.line 0 0 (split_inclusive text)) out_of_range
  column ← ok_or (column_offset (position.column - 1) (strip_newline found.1)) out_of_range
  ok (found.0 + column)

unfoldable pub byte_offset : Text → TextPosition → Result ℕ LocationError
unfolding find_offset
byte_offset text position =
    if eqb position.line 0 || eqb position.column 0
    then err invalid_coordinate
    else find_offset text position

unfoldable pub newline_count : Text → ℕ
unfolding newline
newline_count [] = 0
newline_count (c ∷ rest) = (if newline c then 1 else 0) + newline_count rest

-- `rfind('\n')`
unfoldable pub rfind : Text → Option ℕ
unfolding newline
rfind [] = none
rfind (c ∷ rest) = elim (rfind rest) [
  | none ↦ if newline c then some 0 else none
  | some index ↦ some (index + 1)
]

unfoldable pub after_newline : Option ℕ → ℕ
after_newline none = 0
after_newline (some index) = index + 1

unfoldable pub line_start : Text → ℕ
unfolding rfind after_newline
line_start prefix = after_newline (rfind prefix)

-- The counts are cut to 32 bits before one is added, as `as u32` does; the sum is not cut again,
-- which only a count of 2 ^ 32 - 1 would need.
unfoldable pub position_at : Text → ℕ → Option TextPosition
unfolding is_boundary newline_count line_start char_count
position_at text offset =
    let prefix = take offset text in
    if ltb (length text) offset || not (is_boundary (drop offset text))
    then none
    else some (record {
      line = newline_count prefix % 2 ^ 32 + 1;
      column = char_count (drop (line_start prefix) prefix) % 2 ^ 32 + 1;
    })
