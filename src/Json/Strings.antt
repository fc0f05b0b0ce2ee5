-- ===== src/Json/Strings.antt =====
-- The string reader of cpp/include/ma2a/wire_parse.hpp on what canonical.hpp prints.
use Prim.Native.String.{String}
use ma2a.Base.{
  ℕ, zero, suc, ◌/◌, ◌%◌, ◌≤◌, ◌<◌, ◌≡◌, ap, Bytes, codes, length, length-append, bytes_eq_refl, [],
  ◌∷◌, ◌++◌, append_assoc, append-nil, ok, arith,
}
use ma2a.Json.{quote, hex_char, hex4, escape_char, escape, json_string, key_text}
use ma2a.Json.Reader.{
  append_utf8, hex_digit, expect, unicode_unit, code_point, unicode_escape, unicode_char,
  escape_sequence, read_escape, string_loop, string, key,
}

pub hex_digit-hex_char : (d : ℕ) → d < 16 → hex_digit (hex_char d) ≡ ok d
unfolding hex_digit hex_char
hex_digit-hex_char d h = ground arith

pub unicode_unit-hex4 :
    (n : ℕ) (rest : Bytes) → n < 65536 → unicode_unit (hex4 n ++ rest) ≡ ok (n, rest)
unfolding unicode_unit hex4
unicode_unit-hex4 n rest h =
    rw
      (
        hex_digit-hex_char (n / 4096 % 16) (omega arith),
        hex_digit-hex_char (n / 256 % 16) (omega arith),
        hex_digit-hex_char (n / 16 % 16) (omega arith),
        hex_digit-hex_char (n % 16) (omega arith),
      )
      (ap (λ m. ok (m, rest)) (omega arith))

pub code_point_basic : (n : ℕ) (rest : Bytes) → n < 0xd800 → code_point n rest ≡ ok (n, rest)
unfolding code_point
code_point_basic n rest h = ground arith

append_utf8_ascii : (out : Bytes) (n : ℕ) → n < 128 → append_utf8 out n ≡ ok (out ++ n ∷ [])
unfolding append_utf8
append_utf8_ascii out n h = ground arith

-- The escape `\u00..` of a control character is read back.
unicode_char-hex4 :
    (ch : ℕ) (rest out : Bytes)
    → ch < 32
    → unicode_char (hex4 ch ++ rest) out ≡ ok (out ++ ch ∷ [], rest)
unfolding unicode_char unicode_escape
unicode_char-hex4 ch rest out h = rw (
  unicode_unit-hex4 ch rest (omega arith),
  code_point_basic ch rest (omega arith),
  append_utf8_ascii out ch (omega arith),
)

-- One round of the reader undoes one round of the printer.
string_loop-escape_char :
    (fuel ch : ℕ) (rest out : Bytes)
    → string_loop (suc fuel) (escape_char ch ++ rest) out ≡ string_loop fuel rest (out ++ ch ∷ [])
unfolding string_loop escape_char read_escape escape_sequence
string_loop-escape_char fuel ch rest out = ground (arith, unicode_char-hex4 ch rest out)

string_loop-escape :
    (fuel : ℕ) (s rest out : Bytes)
    → length s < fuel
    → string_loop fuel (escape s ++ quote ∷ rest) out ≡ ok (out ++ s, rest)
unfolding escape
string_loop-escape zero s rest out h = absurd (omega arith)
string_loop-escape (suc fuel) [] rest out h = unfold string_loop in rw append-nil
string_loop-escape (suc fuel) (ch ∷ s) rest out h =
    rw (append_assoc, string_loop-escape_char)
      (rw (string_loop-escape fuel s rest (out ++ ch ∷ []) (omega arith), append_assoc))

length-escape_char_pos : (ch : ℕ) → 0 < length (escape_char ch)
unfolding escape_char
length-escape_char_pos ch = ground arith

length-le-escape : (s : Bytes) → length s ≤ length (escape s)
unfolding escape
length-le-escape [] = omega arith
length-le-escape (ch ∷ s) = omega (
  arith,
  length-append (escape_char ch) (escape s),
  length-escape_char_pos ch,
  length-le-escape s,
)

-- A printed string is read back, whatever bytes it holds and whatever follows it.
pub string-json_string : (s rest : Bytes) → string (json_string s ++ rest) ≡ ok (s, rest)
unfolding string json_string expect
string-json_string s rest = rw append_assoc (
    string_loop-escape (suc (length (escape s ++ quote ∷ rest))) s rest []
      (omega (arith, length-append (escape s) (quote ∷ rest), length-le-escape s)))

key_text-json_string :
    (k : String) (rest : Bytes)
    → escape (codes k) ≡ codes k
    → key_text k ++ rest ≡ json_string (codes k) ++ b':' ∷ rest
unfolding key_text json_string
key_text-json_string k rest plain = rw plain (simp append_assoc)

-- A printed key that needs no escape is accepted by `key`.
pub key-key_text :
    (k : String) (rest : Bytes)
    → escape (codes k) ≡ codes k
    → key (codes k) (key_text k ++ rest) ≡ ok (tt, rest)
unfolding key expect
key-key_text k rest plain =
    rw
      (key_text-json_string k rest plain, string-json_string (codes k) (b':' ∷ rest), bytes_eq_refl)
