-- ===== src/Locations/Lines.antt =====
-- The lines of a text and the places in a line: `split_inclusive`, `rfind` and `char_indices`.
use kide.Base.{
  ◌≤◌, ℕ, ◌+◌, ◌-◌, ◌≡◌, refl, sym, ap, ◌∙◌, Text, List, [], ◌∷◌, ◌++◌, Option-cases, Bool-cases,
  inl, inr, none, some, true, false, eqb, length, length-append, append-nil, arith,
}
use kide.Locations.{
  newline, starts_char, is_boundary, char_count, push_front, split_inclusive, strip_newline,
  nth_char, column_offset, newline_count, rfind, after_newline, line_start,
}

pub data Lines : Text → List Text → Type 0 where
  done : Lines [] []
  last : (c : ℕ) (body : Text) → newline_count (c ∷ body) ≡ 0 → Lines (c ∷ body) ((c ∷ body) ∷ [])
  ended :
      (body rest : Text) {lines : List Text}
      → newline_count body ≡ 0
      → Lines rest lines
      → Lines (body ++ (10 ∷ rest)) ((body ++ (10 ∷ [])) ∷ lines)

longer :
    (c : ℕ) {text : Text} {lines : List Text}
    → newline c ≡ false
    → Lines text lines
    → Lines (c ∷ text) (push_front c lines)
unfolding push_front newline_count
longer c plain done = last c [] (rw plain refl)
longer c plain (last d body none_in) = last c (d ∷ body) (rw plain (ground arith))
longer c plain (ended body rest none_in lines) =
    ended (c ∷ body) rest (rw plain (ground arith)) lines

pub split_inclusive-Lines : (text : Text) → Lines text (split_inclusive text)
unfolding split_inclusive newline newline_count
split_inclusive-Lines [] = done
split_inclusive-Lines (c ∷ rest) = elim (Bool-cases (newline c)) [
  | inl is_end ↦
      let ten : c ≡ 10 = ground arith in
      rw (is_end, ten) (ended [] rest refl (split_inclusive-Lines rest))
  | inr plain ↦ rw plain (longer c plain (split_inclusive-Lines rest))
]

pub newline_count-append : (a b : Text) → newline_count (a ++ b) ≡ newline_count a + newline_count b
unfolding newline_count
newline_count-append [] b = omega arith
newline_count-append (c ∷ a) b = ground (arith, newline_count-append a b)

pub rfind_plain : (b : Text) → newline_count b ≡ 0 → rfind b ≡ none
unfolding rfind newline_count
rfind_plain [] h = refl
rfind_plain (c ∷ b) h = elim (Bool-cases (newline c)) [
  | inl is_end ↦ absurd (ground arith)
  | inr plain ↦ rw (rfind_plain b (ground arith), plain) refl
]

rfind-append : (a b : Text) → newline_count b ≡ 0 → rfind (a ++ b) ≡ rfind a
unfolding rfind
rfind-append [] b h = rfind_plain b h
rfind-append (c ∷ a) b h = rw (rfind-append a b h) refl

pub line_start-append : (a b : Text) → newline_count b ≡ 0 → line_start (a ++ b) ≡ line_start a
unfolding line_start
line_start-append a b h = rw (rfind-append a b h) refl

pub rfind-ended : (a : Text) → rfind (a ++ (10 ∷ [])) ≡ some (length a)
unfolding rfind newline
rfind-ended [] = refl
rfind-ended (c ∷ a) = rw (rfind-ended a) (ap some (omega arith))

pub line_start-ended : (a : Text) → line_start (a ++ (10 ∷ [])) ≡ length (a ++ (10 ∷ []))
unfolding line_start after_newline
line_start-ended a = rw (rfind-ended a) (omega (arith, length-append a (10 ∷ [])))

pub char_count-append : (a b : Text) → char_count (a ++ b) ≡ char_count a + char_count b
unfolding char_count
char_count-append [] b = omega arith
char_count-append (c ∷ a) b = ground (arith, char_count-append a b)

nth_char-place :
    (n offset : ℕ) (line : Text) (k : ℕ)
    → nth_char n offset line ≡ some k
    → (a b : Text) × (line ≡ a ++ b)
      × (offset + length a ≡ k)
      × (char_count a ≡ n)
      × (is_boundary b ≡ true)
unfolding nth_char char_count is_boundary starts_char
nth_char-place n offset [] k found = absurd (ground arith)
nth_char-place n offset (c ∷ rest) k found = elim (Bool-cases (starts_char c)) [
  | inl starts ↦ elim (Bool-cases (eqb n 0)) [
    | inl zero_left ↦
        let here : offset ≡ k = ground arith in
        ([], c ∷ rest, refl, ground arith, ground arith, starts)
    | inr more ↦
        let (a, b, same, place, count, boundary) =
          nth_char-place (n - 1) (offset + 1) rest k (ground arith) in
        (c ∷ a, b, ap (λ t. c ∷ t) same, ground arith, ground arith, boundary)
  ]
  | inr inside ↦
      let (a, b, same, place, count, boundary) =
        nth_char-place n (offset + 1) rest k (ground arith) in
      (c ∷ a, b, ap (λ t. c ∷ t) same, ground arith, ground arith, boundary)
]

pub column_offset-place :
    (n : ℕ) (line : Text) (k : ℕ)
    → column_offset n line ≡ some k
    → (a b : Text) × (line ≡ a ++ b) × (length a ≡ k) × (char_count a ≡ n) × (is_boundary b ≡ true)
unfolding column_offset is_boundary
column_offset-place n line k found = elim (Bool-cases (eqb n (char_count line))) [
  | inl at_end ↦ (line, [], sym (append-nil line), ground arith, ground arith, refl)
  | inr before ↦
      let (a, b, same, place, count, boundary) = nth_char-place n 0 line k (ground arith) in
      (a, b, same, omega arith, count, boundary)
]

pub strip_newline_plain : (line : Text) → newline_count line ≡ 0 → strip_newline line ≡ line
unfolding strip_newline newline_count
strip_newline_plain [] plain = refl
strip_newline_plain (c ∷ []) plain = ground arith
strip_newline_plain (c ∷ d ∷ rest) plain =
    ap (λ t. c ∷ t) (strip_newline_plain (d ∷ rest) (ground arith))

pub strip_newline_ended :
    (body : Text) → newline_count body ≡ 0 → strip_newline (body ++ (10 ∷ [])) ≡ body
unfolding strip_newline newline_count newline
strip_newline_ended [] plain = refl
strip_newline_ended (c ∷ []) plain = refl
strip_newline_ended (c ∷ d ∷ rest) plain =
    ap (λ t. c ∷ t) (strip_newline_ended (d ∷ rest) (ground arith))

pub rfind-joined : (a b : Text) (i : ℕ) → rfind b ≡ some i → rfind (a ++ b) ≡ some (length a + i)
unfolding rfind
rfind-joined [] b i found = found ∙ ap some (omega arith)
rfind-joined (c ∷ a) b i found = rw (rfind-joined a b i found) (ap some (omega arith))

pub line_start-joined :
    (a b : Text)
    → line_start a ≡ length a
    → line_start b ≡ length b
    → line_start (a ++ b) ≡ length (a ++ b)
unfolding line_start after_newline newline_count
line_start-joined a [] ha hb = line_start-append a [] refl ∙ omega (arith, length-append a [])
line_start-joined a (d ∷ b) ha hb = elim (Option-cases (rfind (d ∷ b))) [
  | inl absent ↦
      let nowhere : after_newline (rfind (d ∷ b)) ≡ 0 = rw absent refl in absurd (omega arith)
  | inr (i, found) ↦
      let place : after_newline (rfind (d ∷ b)) ≡ i + 1 = rw found refl in
      rw (rfind-joined a (d ∷ b) i found) (omega (arith, length-append a (d ∷ b)))
]

pub newline_count-length : (text : Text) → newline_count text ≤ length text
unfolding newline_count
newline_count-length [] = omega arith
newline_count-length (c ∷ text) = ground (arith, newline_count-length text)

pub char_count-length : (text : Text) → char_count text ≤ length text
unfolding char_count
char_count-length [] = omega arith
char_count-length (c ∷ text) = ground (arith, char_count-length text)
