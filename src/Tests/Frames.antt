-- ===== src/Tests/Frames.antt =====
-- Framing, with a message that is its own encoding.
use kide.Base.{ℕ, suc, ◌<◌, ◌^◌, ◌≡◌, refl, List, [], ◌∷◌, ◌++◌, map, some, arith, length}
use kide.Framing.{Message, IsLawful, encode, decode, read_frame, read_loop, ok, err, ok_or}
use kide.Framing.{unexpected_eof, decode_error}
use kide.Framing.RoundTrip.{decode-encode, read_frame-encode, write_all}
use kide.Framing.RoundTrip.{read_loop-write_all}
use kide.Framing.Ends.{read_loop_enough, unterminated, unterminated_prefix}

abbrev echo : Message
echo = record {
  Envelope = List ℕ;
  encode_to_vec = λ bytes. bytes;
  decode_payload = λ bytes. some bytes;
}

echo-IsLawful : IsLawful echo
echo-IsLawful = record { decode-encode = λ e. refl }

abbrev hello : List ℕ
hello = 104 ∷ 105 ∷ []

hello_fits : length hello < 2 ^ 64
hello_fits = omega arith

decode-encode_example : decode echo (encode echo hello) ≡ ok hello
decode-encode_example = decode-encode echo hello echo-IsLawful hello_fits

read_frame-encode_example : read_frame echo (encode echo hello ++ 7 ∷ []) ≡ ok (some hello, 7 ∷ [])
read_frame-encode_example = read_frame-encode echo hello (7 ∷ []) echo-IsLawful hello_fits

read_loop-write_all_example :
    read_loop echo
      (suc (length (write_all echo [] (hello ∷ [] ∷ []))))
      (write_all echo [] (hello ∷ [] ∷ []))
    ≡ map ok (hello ∷ [] ∷ [])
read_loop-write_all_example =
    read_loop-write_all echo (hello ∷ [] ∷ []) echo-IsLawful (hello_fits, (omega arith, tt))

read_loop_enough_example :
    read_loop echo 4 (2 ∷ 104 ∷ 105 ∷ []) ≡ read_loop echo 9 (2 ∷ 104 ∷ 105 ∷ [])
read_loop_enough_example =
    read_loop_enough echo 4 9 (2 ∷ 104 ∷ 105 ∷ []) (omega arith) (omega arith)

unterminated_prefix_example :
    (read_frame echo (unterminated 3) ≡ err unexpected_eof)
    × (decode echo (unterminated 3) ≡ ok_or (echo.decode_payload []) decode_error)
unterminated_prefix_example = unterminated_prefix echo 2 (omega arith)
