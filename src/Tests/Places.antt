-- ===== src/Tests/Places.antt =====
-- Places in a text of two lines with a character of two bytes.
use kide.Base.{◌≡◌, refl, Text, [], ◌∷◌, some, arith}
use kide.Base.Results.{ok}
use kide.Canonical.{TextPosition}
use kide.Locations.{byte_offset, position_at}
use kide.Locations.Complete.{byte_offset-position_at}
use kide.Locations.RoundTrip.{position_at-byte_offset}

-- The lines `a`, e with an acute accent, and `b`.
abbrev text : Text
text = 97 ∷ 195 ∷ 169 ∷ 10 ∷ 98 ∷ []

abbrev place : TextPosition
place = record { line = 1; column = 3 }

found : byte_offset text place ≡ ok 3
unfolding byte_offset
found = refl

position_at-byte_offset_example : position_at text 3 ≡ some place
position_at-byte_offset_example = position_at-byte_offset text place 3 (omega arith) found

byte_offset-position_at_example : byte_offset text place ≡ ok 3
byte_offset-position_at_example =
    byte_offset-position_at text 3 place (omega arith) (omega arith)
      (position_at-byte_offset text place 3 (omega arith) found)
