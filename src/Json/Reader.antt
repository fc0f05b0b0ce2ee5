-- ===== src/Json/Reader.antt =====
-- cpp/include/ma2a/wire_parse.hpp: `append_utf8`, `hex_digit` and the class `FlatJsonReader`. The
-- reader's state (`json_` and `pos_`) is the text that is left, `json_.substr(pos_)`.
use ma2a.Base.{
  ℕ, zero, suc, ◌+◌, ◌-◌, ◌*◌, ◌/◌, ◌%◌, Bool, true, false, ◌&&◌, not, Bytes, length, bytes_eq, [],
  ◌∷◌, ◌++◌, ltb, leb, ◌==◌, if◌then◌else◌, Result, ok, throw, undefined, unfinished, ◌>>=◌, ◌>>◌,
  throw_if, invalid_code_point, invalid_unicode_escape, unexpected_token, unexpected_key,
  invalid_control_character, truncated_escape, missing_low_surrogate, invalid_low_surrogate,
  unexpected_low_surrogate, unsupported_escape, unterminated_string, missing_integer,
  invalid_integer, truncated_unicode_escape,
}
use ma2a.Base.Int.{ℤ, pos, int64_max, negate}

-- A method of the reader returns its value and the text that is left.
abbrev pub Read {ℓ} : Type ℓ → Type ℓ
Read A = Result (A × Bytes)

-- `0x80 | (x & 0x3f)`
abbrev continuation : ℕ → ℕ
continuation x = 0x80 + x % 64

-- The bytes that `append_utf8` pushes. The masks select disjoint bits, so `|` is `+`.
unfoldable pub append_utf8 : Bytes → ℕ → Result Bytes
append_utf8 out cp =
    if leb cp 0x7f
    then ok (out ++ cp ∷ [])
    else if leb cp 0x7ff
    then ok (out ++ (0xc0 + cp / 64) ∷ continuation cp ∷ [])
    else if leb cp 0xffff
    then ok (out ++ (0xe0 + cp / 4096) ∷ continuation (cp / 64) ∷ continuation cp ∷ [])
    else if leb cp 0x10ffff
    then ok (
        out
        ++ (0xf0 + cp / 262144)
          ∷ continuation (cp / 4096)
          ∷ continuation (cp / 64)
          ∷ continuation cp
          ∷ [])
    else throw invalid_code_point

unfoldable pub hex_digit : ℕ → Result ℕ
hex_digit ch =
    if leb b'0' ch && leb ch b'9'
    then ok (ch - b'0')
    else if leb b'a' ch && leb ch b'f'
    then ok (10 + (ch - b'a'))
    else if leb b'A' ch && leb ch b'F'
    then ok (10 + (ch - b'A'))
    else throw invalid_unicode_escape

-- `expect(ch)`
unfoldable pub expect : ℕ → Bytes → Read (Unit {0})
expect ch [] = throw unexpected_token
expect ch (c ∷ s) = if c == ch then ok (tt, s) else throw unexpected_token

-- `unicode_unit()`: four hexadecimal digits. `value << 4 | d` is `value * 16 + d`.
unfoldable pub unicode_unit : Bytes → Read ℕ
unicode_unit (a ∷ b ∷ c ∷ d ∷ s) = do
  x ← hex_digit a
  y ← hex_digit b
  z ← hex_digit c
  w ← hex_digit d
  ok (((x * 16 + y) * 16 + z) * 16 + w, s)
unicode_unit _ = throw truncated_unicode_escape

-- The `\u` that must follow a high surrogate.
unfoldable pub low_surrogate_mark : Bytes → Read (Unit {0})
low_surrogate_mark (a ∷ b ∷ s) =
    if (a == b'\\') && (b == b'u') then ok (tt, s) else throw missing_low_surrogate
low_surrogate_mark _ = throw missing_low_surrogate

-- The second half of a surrogate pair, and the code point of both.
unfoldable pub low_surrogate : ℕ → Bytes → Read ℕ
low_surrogate first s = do
  (_, s₁) ← low_surrogate_mark s
  (second, s₂) ← unicode_unit s₁
  throw_if (not (leb 0xdc00 second && leb second 0xdfff)) invalid_low_surrogate
  ok (0x10000 + (first - 0xd800) * 1024 + (second - 0xdc00), s₂)

-- The code point that the escaped unit `first` begins.
unfoldable pub code_point : ℕ → Bytes → Read ℕ
code_point first s =
    if leb 0xd800 first && leb first 0xdbff
    then low_surrogate first s
    else if leb 0xdc00 first && leb first 0xdfff
    then throw unexpected_low_surrogate
    else ok (first, s)

-- The `case 'u'` of `string()`, after the `u`: the code point.
unfoldable pub unicode_escape : Bytes → Read ℕ
unicode_escape s = do (first, s₁) ← unicode_unit s; code_point first s₁

-- `append_utf8(out, cp)` at the code point that is read.
unfoldable pub unicode_char : Bytes → Bytes → Read Bytes
unicode_char s out = do (cp, s₁) ← unicode_escape s; out' ← append_utf8 out cp; ok (out', s₁)

-- The `switch (esc)` of `string()`: the new `out` and the text that is left.
unfoldable pub escape_sequence : ℕ → Bytes → Bytes → Read Bytes
escape_sequence esc s out =
    if esc == b'"'
    then ok (out ++ b'"' ∷ [], s)
    else if esc == b'\\'
    then ok (out ++ b'\\' ∷ [], s)
    else if esc == b'/'
    then ok (out ++ b'/' ∷ [], s)
    else if esc == b'b'
    then ok (out ++ 8 ∷ [], s)
    else if esc == b'f'
    then ok (out ++ 12 ∷ [], s)
    else if esc == b'n'
    then ok (out ++ 10 ∷ [], s)
    else if esc == b'r'
    then ok (out ++ 13 ∷ [], s)
    else if esc == b't'
    then ok (out ++ 9 ∷ [], s)
    else if esc == b'u'
    then unicode_char s out
    else throw unsupported_escape

-- What follows a backslash.
unfoldable pub read_escape : Bytes → Bytes → Read Bytes
read_escape [] out = throw truncated_escape
read_escape (esc ∷ s) out = escape_sequence esc s out

-- The loop of `string()`. A round consumes a byte at least, so the length of the text is fuel
-- enough.
unfoldable pub string_loop : ℕ → Bytes → Bytes → Read Bytes
string_loop zero s out = unfinished
string_loop (suc fuel) [] out = throw unterminated_string
string_loop (suc fuel) (ch ∷ s) out =
    let plain = string_loop fuel s (out ++ ch ∷ []) in
    let escaped = (do (out', s') ← read_escape s out; string_loop fuel s' out') in
    if ch == b'"'
    then ok (out, s)
    else if ch == b'\\'
    then escaped
    else if ltb ch 0x20
    then throw invalid_control_character
    else plain

-- `string()`
unfoldable pub string : Bytes → Read Bytes
string s = do (_, s₁) ← expect b'"' s; string_loop (suc (length s₁)) s₁ []

-- `key(expected)`
unfoldable pub key : Bytes → Bytes → Read (Unit {0})
key expected s = do
  (actual, s₁) ← string s
  throw_if (not (bytes_eq actual expected)) unexpected_key
  expect b':' s₁

abbrev pub is_digit : ℕ → Bool
is_digit c = leb b'0' c && leb c b'9'

-- The digit loop of `integer()`. `value * 10 + digit` is signed: past `INT64_MAX` its behaviour is
-- undefined.
unfoldable pub integer_loop : Bytes → ℕ → Read ℕ
integer_loop [] value = ok (value, [])
integer_loop (c ∷ s) value =
    let value' = value * 10 + (c - b'0') in
    let rest = integer_loop s value' in
    if is_digit c then (if leb value' int64_max then rest else undefined) else ok (value, c ∷ s)

-- `integer()` behind the sign: at least one digit.
unfoldable pub magnitude : Bytes → Read ℕ
magnitude [] = throw invalid_integer
magnitude (c ∷ s) = if is_digit c then integer_loop (c ∷ s) 0 else throw invalid_integer

-- `integer()`
unfoldable pub integer : Bytes → Read ℤ
integer [] = throw missing_integer
integer (c ∷ s) =
    if c == b'-'
    then (do (value, s₁) ← magnitude s; ok (negate value, s₁))
    else (do (value, s₁) ← magnitude (c ∷ s); ok (pos value, s₁))

-- `done()`
abbrev pub done : Bytes → Bool
done [] = true
done (c ∷ s) = false
