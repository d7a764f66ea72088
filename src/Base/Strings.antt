-- ===== src/Base/Strings.antt =====
-- A Rust `String` as its UTF-8 bytes: `==` and the order compare bytes.
use Prim.Native.Nat.{ℕ}
use Prim.Native.Char.{code}
use Prim.Native.String.{String}
use mathlib.Core.List.{List, [], ◌∷◌}
use native.Mathlib.Decide.{ℕ_discrete}
use kide.Base.Equality.{Eq}
use kide.Base.Order.{Ord, nat_ord, list_ord}

abbrev pub Text : Type 0
Text = List ℕ

-- The bytes of an ASCII literal.
abbrev pub utf8 : String → Text
utf8 String.[] = []
utf8 (String.◌∷◌ c s) = code c ∷ utf8 s

text_dec : Discrete Text
text_dec = hlevel ℕ_discrete

-- Shut in proofs, where a split on `s == t` yields the equation or its negation.
instance unfoldable pub text_eq : Eq Text
unfolding text_dec
text_eq = record { dec = text_dec }

instance unfoldable pub text_ord : Ord Text
unfolding list_ord nat_ord
text_ord = list_ord
