-- ===== src/Python/Strings.antt =====
-- The string reader of cpp/include/ma2a/wire_parse.hpp on what `json.dumps` of the Python reference
-- prints.
use native.Mathlib.Decide.{dec_lt}
use ma2a.Base.{
  ℕ, zero, suc, ◌+◌, ◌-◌, ◌/◌, ◌%◌, ◌≤◌, ◌<◌, ◌≡◌, inl, inr, ap, ◌∙◌, All, Bytes, length,
  length-append, [], ◌∷◌, ◌++◌, append_assoc, append-nil, ok, arith,
}
use ma2a.Json.{quote, backslash, hex4}
use ma2a.Json.Reader.{
  append_utf8, expect, low_surrogate_mark, low_surrogate, code_point, unicode_escape, unicode_char,
  escape_sequence, read_escape, string_loop, string,
}
use ma2a.Json.Strings.{unicode_unit-hex4, code_point_basic}
use ma2a.Python.{Text, IsScalar, utf8_char, utf8, unit_escape, ascii_char, ascii_escape, dumps_text}

append_utf8-utf8_char :
    (out : Bytes) (cp : ℕ) → IsScalar cp → append_utf8 out cp ≡ ok (out ++ utf8_char cp)
unfolding append_utf8 utf8_char
append_utf8-utf8_char out cp h = ground arith

code_point_high : (n : ℕ) (rest : Bytes) → 0xe000 ≤ n → code_point n rest ≡ ok (n, rest)
unfolding code_point
code_point_high n rest h = ground arith

code_point_scalar : (n : ℕ) (rest : Bytes) → IsScalar n → code_point n rest ≡ ok (n, rest)
code_point_scalar n rest (inl h) = code_point_basic n rest h
code_point_scalar n rest (inr (h, k)) = code_point_high n rest h

-- One escape of four digits.
unicode_char-unit :
    (cp : ℕ) (rest out : Bytes)
    → IsScalar cp
    → cp < 65536
    → unicode_char (hex4 cp ++ rest) out ≡ ok (out ++ utf8_char cp, rest)
unfolding unicode_char unicode_escape
unicode_char-unit cp rest out h small =
    rw
      (unicode_unit-hex4 cp rest small, code_point_scalar cp rest h, append_utf8-utf8_char out cp h)

low_surrogate-unit_escape :
    (k : ℕ) (rest : Bytes)
    → k < 0x100000
    → low_surrogate (0xd800 + k / 1024 % 1024) (unit_escape (0xdc00 + k % 1024) ++ rest)
      ≡ ok (0x10000 + k, rest)
unfolding low_surrogate low_surrogate_mark
low_surrogate-unit_escape k rest h =
    rw (unicode_unit-hex4 (0xdc00 + k % 1024) rest (omega arith)) (ground arith)

code_point_pair :
    (k : ℕ) (rest : Bytes)
    → k < 0x100000
    → code_point (0xd800 + k / 1024 % 1024) (unit_escape (0xdc00 + k % 1024) ++ rest)
      ≡ ok (0x10000 + k, rest)
unfolding code_point
code_point_pair k rest h = ground (arith, low_surrogate-unit_escape k rest h)

-- A surrogate pair.
unicode_char-pair :
    (k : ℕ) (rest out : Bytes)
    → k < 0x100000
    → unicode_char
        (hex4 (0xd800 + k / 1024 % 1024) ++ (unit_escape (0xdc00 + k % 1024) ++ rest))
        out
      ≡ ok (out ++ utf8_char (0x10000 + k), rest)
unfolding unicode_char unicode_escape
unicode_char-pair k rest out h = rw (
  unicode_unit-hex4 (0xd800 + k / 1024 % 1024) (unit_escape (0xdc00 + k % 1024) ++ rest)
      (omega arith),
  code_point_pair k rest h,
  append_utf8-utf8_char out (0x10000 + k) (inr (omega arith, omega arith)),
)

ascii_char_large :
    (cp : ℕ)
    → 0x10000 ≤ cp
    → ascii_char cp
      ≡ unit_escape (0xd800 + (cp - 0x10000) / 1024 % 1024)
        ++ unit_escape (0xdc00 + (cp - 0x10000) % 1024)
unfolding ascii_char
ascii_char_large cp h = ground arith

-- One round of the reader, on an escape that begins with `\u`.
string_loop-unit :
    (fuel : ℕ) (s t out out' : Bytes)
    → unicode_char s out ≡ ok (out', t)
    → string_loop (suc fuel) (backslash ∷ b'u' ∷ s) out ≡ string_loop fuel t out'
unfolding string_loop read_escape escape_sequence
string_loop-unit fuel s t out out' h = rw h

string_loop-pair :
    (fuel cp : ℕ) (rest out : Bytes)
    → 0x10000 ≤ cp
    → cp < 0x110000
    → string_loop (suc fuel) (ascii_char cp ++ rest) out
      ≡ string_loop fuel rest (out ++ utf8_char cp)
unfolding hex4
string_loop-pair fuel cp rest out lo hi =
    let k = cp - 0x10000 in
    let same : 0x10000 + k ≡ cp = omega arith in
    let read = unicode_char-pair k rest out (omega arith) in
    rw (ascii_char_large cp lo) (
      string_loop-unit fuel
        (hex4 (0xd800 + k / 1024 % 1024) ++ (unit_escape (0xdc00 + k % 1024) ++ rest)) rest out
        (out ++ utf8_char cp) (read ∙ ap (λ n. ok (out ++ utf8_char n, rest)) same))

string_loop-small :
    (fuel cp : ℕ) (rest out : Bytes)
    → IsScalar cp
    → cp < 0x10000
    → string_loop (suc fuel) (ascii_char cp ++ rest) out
      ≡ string_loop fuel rest (out ++ utf8_char cp)
unfolding string_loop ascii_char read_escape escape_sequence utf8_char
string_loop-small fuel cp rest out h small = ground (arith, unicode_char-unit cp rest out h small)

string_loop-ascii_char :
    (fuel cp : ℕ) (rest out : Bytes)
    → IsScalar cp
    → string_loop (suc fuel) (ascii_char cp ++ rest) out
      ≡ string_loop fuel rest (out ++ utf8_char cp)
string_loop-ascii_char fuel cp rest out h = elim (dec_lt cp 0x10000) [
  | yes small ↦ string_loop-small fuel cp rest out h small
  | no large ↦ string_loop-pair fuel cp rest out (omega arith) (scalar_lt cp h)
]
  where
    scalar_lt : (cp : ℕ) → IsScalar cp → cp < 0x110000
    scalar_lt cp (inl h) = omega arith
    scalar_lt cp (inr (h, k)) = k

string_loop-ascii_escape :
    (fuel : ℕ) (t : Text) (rest out : Bytes)
    → All IsScalar t
    → length t < fuel
    → string_loop fuel (ascii_escape t ++ quote ∷ rest) out ≡ ok (out ++ utf8 t, rest)
unfolding ascii_escape utf8
string_loop-ascii_escape zero t rest out all h = absurd (omega arith)
string_loop-ascii_escape (suc fuel) [] rest out all h = unfold string_loop in rw append-nil
string_loop-ascii_escape (suc fuel) (cp ∷ t) rest out (scalar, all) h =
    rw
      (
        append_assoc (ascii_char cp) (ascii_escape t) (quote ∷ rest),
        string_loop-ascii_char fuel cp (ascii_escape t ++ quote ∷ rest) out scalar,
      )
      (string_loop-ascii_escape fuel t rest (out ++ utf8_char cp) all (omega arith)
        ∙ rw append_assoc)

length-ascii_char_pos : (cp : ℕ) → 0 < length (ascii_char cp)
unfolding ascii_char
length-ascii_char_pos cp = ground arith

length-le-ascii_escape : (t : Text) → length t ≤ length (ascii_escape t)
unfolding ascii_escape
length-le-ascii_escape [] = omega arith
length-le-ascii_escape (cp ∷ t) = omega (
  arith,
  length-append (ascii_char cp) (ascii_escape t),
  length-ascii_char_pos cp,
  length-le-ascii_escape t,
)

-- A string that `json.dumps` of the Python reference prints, with every character outside ASCII
-- escaped, in a surrogate pair where it needs one, is read as the string's UTF-8, and what follows
-- is left. The string holds no surrogates of its own.
pub string-dumps_text :
    (t : Text) (rest : Bytes) → All IsScalar t → string (dumps_text t ++ rest) ≡ ok (utf8 t, rest)
unfolding string dumps_text expect
string-dumps_text t rest all = rw append_assoc (
    string_loop-ascii_escape (suc (length (ascii_escape t ++ quote ∷ rest))) t rest [] all
      (omega (arith, length-append (ascii_escape t) (quote ∷ rest), length-le-ascii_escape t)))
