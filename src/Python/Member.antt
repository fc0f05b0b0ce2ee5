-- ===== src/Python/Member.antt =====
-- The members of a dictionary that `json.dumps` prints for the Python reference, in the readers of
-- cpp/include/ma2a/wire_parse.hpp.
use Prim.Native.String.{String}
use ma2a.Base.{
  ℕ, ◌+◌, ◌-◌, ◌/◌, ◌%◌, ◌≡◌, ◌&&◌, Bytes, codes, [], ◌∷◌, ◌++◌, append_assoc, ok, ltb, leb, ◌==◌,
  All,
}
use ma2a.Json.{◌<<◌, escape, comma, key_text, quote, backslash, hex4}
use ma2a.Json.Reader.{expect}
use ma2a.Json.Strings.{key-key_text}
use ma2a.Wire.Parse.{read_string, string_field}
use ma2a.Wire.Scan.{
  Neutral, Neutral-quotes, Quoted, Quoted-append, Quoted-char, Quoted-pair, Quoted-hex4, Quoted-nil,
  if_lem,
}
use ma2a.Python.{Text, IsScalar, unit_escape, utf8, ascii_char, ascii_escape, dumps_text}
use ma2a.Python.Strings.{string-dumps_text}

Quoted-unit_escape : (n : ℕ) → Quoted (unit_escape n)
Quoted-unit_escape n =
    Quoted-append (backslash ∷ b'u' ∷ []) (hex4 n) (Quoted-pair b'u') (Quoted-hex4 n)

Quoted-ascii_char : (cp : ℕ) → Quoted (ascii_char cp)
unfolding ascii_char
Quoted-ascii_char cp = if_lem Quoted (cp == quote) (Quoted-pair quote) λ h.
    if_lem Quoted (cp == backslash) (Quoted-pair backslash) λ k.
      if_lem Quoted (cp == 10) (Quoted-pair b'n') λ _.
        if_lem Quoted (cp == 13) (Quoted-pair b'r') λ _.
          if_lem Quoted (cp == 9) (Quoted-pair b't') λ _.
            if_lem Quoted (cp == 12) (Quoted-pair b'f') λ _.
              if_lem Quoted (cp == 8) (Quoted-pair b'b') λ _.
                if_lem Quoted (leb b' ' cp && leb cp b'~') (Quoted-char cp h k) λ _.
                  if_lem Quoted (ltb cp 0x10000) (Quoted-unit_escape cp) λ _.
                    Quoted-append (unit_escape _) (unit_escape _)
                      (Quoted-unit_escape (0xd800 + (cp - 0x10000) / 1024 % 1024))
                      (Quoted-unit_escape (0xdc00 + (cp - 0x10000) % 1024))

Quoted-ascii_escape : (t : Text) → Quoted (ascii_escape t)
unfolding ascii_escape
Quoted-ascii_escape [] = Quoted-nil
Quoted-ascii_escape (cp ∷ t) =
    Quoted-append (ascii_char cp) (ascii_escape t) (Quoted-ascii_char cp) (Quoted-ascii_escape t)

pub Neutral-dumps_text : (t : Text) → Neutral (dumps_text t)
unfolding dumps_text
Neutral-dumps_text t = Neutral-quotes (ascii_escape t) (Quoted-ascii_escape t)

-- A member of a dictionary whose value is a `str`.
abbrev pub text_member : String → Text → Bytes
text_member k t = key_text k ++ dumps_text t

pub read_string-text_member :
    (k : String) (v : Text) (t : Bytes)
    → escape (codes k) ≡ codes k
    → All IsScalar v
    → read_string (codes k) (text_member k v ++ t) ≡ ok (utf8 v, t)
unfolding read_string
read_string-text_member k v t plain h =
    rw (append_assoc (key_text k) (dumps_text v) t, key-key_text k _ plain, string-dumps_text v t h)

pub string_field-text_member :
    (k : String) (v : Text) (t : Bytes)
    → escape (codes k) ≡ codes k
    → All IsScalar v
    → string_field (codes k) (text_member k v << comma << t) ≡ ok (utf8 v, t)
unfolding string_field expect
string_field-text_member k v t plain h = rw (read_string-text_member k v (comma ++ t) plain h)
