-- ===== src/Python/Plain.antt =====
-- The strings of `json_string` in cpp/include/ma2a/wire.hpp and of `json.dumps` in Python, character by
-- character.
use Prim.Native.String.{String}
use native.Mathlib.Decide.{dec_lt}
use ma2a.Base.{
  is_empty, ℕ, zero, suc, ◌+◌, ◌-◌, ◌/◌, ◌%◌, ◌≤◌, ◌<◌, ◌≡◌, refl, subst, All, Bytes, List, [], ◌∷◌,
  ◌++◌, ltb, ltb→lt, Bool-cases, inl, inr, arith,
}
use ma2a.Base.Int.{ℤ, pos, negsuc}
use ma2a.Json.{
  ◌<<◌, quote, hex_char, hex4, escape_char, escape, json_string, digits, decimal, key_text,
}
use ma2a.Wire.{string_member, int_member}
use ma2a.Python.{Text, utf8_char, utf8, unit_escape, ascii_char, ascii_escape, dumps_text}
use ma2a.Python.Member.{text_member}

-- The characters that both print without `\u`, but for the control characters.
abbrev pub IsPlain : List ℕ → Type 0
IsPlain = All λ (cp : ℕ). cp < 0x7f

pub IsPlain-append : (s t : List ℕ) → IsPlain s → IsPlain t → IsPlain (s ++ t)
IsPlain-append [] t p q = q
IsPlain-append (c ∷ s) t (h, p) q = (h, IsPlain-append s t p q)

pub append-IsPlain : (s t : List ℕ) → IsPlain (s ++ t) → IsPlain s × IsPlain t
append-IsPlain [] t q = (tt, q)
append-IsPlain (c ∷ s) t (h, q) = let (p, r) = append-IsPlain s t q in ((h, p), r)

-- One character.

ascii_char-plain : (cp : ℕ) → cp < 0x7f → ascii_char cp ≡ escape_char cp
unfolding ascii_char escape_char
ascii_char-plain cp h = ground arith

pub utf8_char-plain : (cp : ℕ) → cp < 0x7f → utf8_char cp ≡ cp ∷ []
unfolding utf8_char
utf8_char-plain cp h = ground arith

pub is_empty-utf8 : (t : Text) → is_empty (utf8 t) ≡ is_empty t
unfolding utf8 utf8_char
is_empty-utf8 [] = refl
is_empty-utf8 (cp ∷ t) = ground arith

pub utf8-plain : (t : Text) → IsPlain t → utf8 t ≡ t
unfolding utf8
utf8-plain [] p = refl
utf8-plain (cp ∷ t) (h, p) = rw (utf8_char-plain cp h, utf8-plain t p)

ascii_escape-plain : (t : Text) → IsPlain t → ascii_escape t ≡ escape (utf8 t)
unfolding ascii_escape utf8 escape
ascii_escape-plain [] p = refl
ascii_escape-plain (cp ∷ t) (h, p) =
    rw (utf8_char-plain cp h, ascii_char-plain cp h, ascii_escape-plain t p)

pub dumps_text-plain : (t : Text) → IsPlain t → dumps_text t ≡ json_string (utf8 t)
unfolding dumps_text json_string
dumps_text-plain t p = rw (ascii_escape-plain t p)

-- What Python prints is plain.

hex_char-lt : (d : ℕ) → d < 16 → hex_char d < 0x7f
unfolding hex_char
hex_char-lt d h = ground arith

unit_escape-IsPlain : (n : ℕ) → IsPlain (unit_escape n)
unfolding hex4
unit_escape-IsPlain n = omega (
  arith,
  hex_char-lt (n / 4096 % 16),
  hex_char-lt (n / 256 % 16),
  hex_char-lt (n / 16 % 16),
  hex_char-lt (n % 16),
)

ascii_char-IsPlain : (cp : ℕ) → IsPlain (ascii_char cp)
unfolding ascii_char
ascii_char-IsPlain cp = ground (
  arith,
  unit_escape-IsPlain cp,
  IsPlain-append (unit_escape (0xd800 + (cp - 0x10000) / 1024 % 1024))
      (unit_escape (0xdc00 + (cp - 0x10000) % 1024))
      (unit_escape-IsPlain (0xd800 + (cp - 0x10000) / 1024 % 1024))
      (unit_escape-IsPlain (0xdc00 + (cp - 0x10000) % 1024)),
)

ascii_escape-IsPlain : (t : Text) → IsPlain (ascii_escape t)
unfolding ascii_escape
ascii_escape-IsPlain [] = tt
ascii_escape-IsPlain (cp ∷ t) =
    IsPlain-append (ascii_char cp) (ascii_escape t) (ascii_char-IsPlain cp) (ascii_escape-IsPlain t)

pub dumps_text-IsPlain : (t : Text) → IsPlain (dumps_text t)
unfolding dumps_text
dumps_text-IsPlain t = (
  omega arith,
  IsPlain-append (ascii_escape t) (quote ∷ []) (ascii_escape-IsPlain t) (omega arith),
)

digits-IsPlain : (fuel n : ℕ) (out : Bytes) → IsPlain out → IsPlain (digits fuel n out)
unfolding digits
digits-IsPlain zero n out p = p
digits-IsPlain (suc fuel) n out p = elim (Bool-cases (ltb n 10)) [
  | inl small ↦ rw small (let h = ltb→lt n 10 small in (omega arith, p))
  | inr large ↦ rw large (digits-IsPlain fuel (n / 10) _ (omega arith, p))
]

decimal-IsPlain : (z : ℤ) → IsPlain (decimal z)
unfolding decimal
decimal-IsPlain (pos n) = digits-IsPlain 19 n [] tt
decimal-IsPlain (negsuc n) = (omega arith, digits-IsPlain 19 (suc n) [] tt)

-- What C++ prints is plain only if the text is.

escape_char_high : (b : ℕ) → 0x7f ≤ b → escape_char b ≡ b ∷ []
unfolding escape_char
escape_char_high b h = ground arith

escape-IsPlain_cons : (b : ℕ) (s : Bytes) → IsPlain (escape (b ∷ s)) → b < 0x7f
unfolding escape
escape-IsPlain_cons b s p = elim (dec_lt b 0x7f) [
  | yes h ↦ h
  | no h ↦ absurd (
      let (q, _) = append-IsPlain (escape_char b) (escape s) p in
      let high : IsPlain (b ∷ []) = subst IsPlain (escape_char_high b (omega arith)) q in
      omega arith)
]

escape-utf8_char_inv : (cp : ℕ) (s : Bytes) → IsPlain (escape (utf8_char cp ++ s)) → cp < 0x7f
unfolding utf8_char
escape-utf8_char_inv cp s p = ground (
  arith,
  escape-IsPlain_cons cp s,
  escape-IsPlain_cons (0xc0 + cp / 64) ((0x80 + cp % 64) ∷ s),
  escape-IsPlain_cons (0xe0 + cp / 4096) ((0x80 + cp / 64 % 64) ∷ (0x80 + cp % 64) ∷ s),
  escape-IsPlain_cons (0xf0 + cp / 262144)
      ((0x80 + cp / 4096 % 64) ∷ (0x80 + cp / 64 % 64) ∷ (0x80 + cp % 64) ∷ s),
)

escape-utf8_inv : (t : Text) → IsPlain (escape (utf8 t)) → IsPlain t
unfolding utf8
escape-utf8_inv [] p = tt
escape-utf8_inv (cp ∷ t) p =
    let h = escape-utf8_char_inv cp (utf8 t) p in
    let q : IsPlain (escape (cp ∷ utf8 t)) =
      subst (λ s. IsPlain (escape (s ++ utf8 t))) (utf8_char-plain cp h) p in
    (
      h,
      escape-utf8_inv t (unfold escape in (append-IsPlain (escape_char cp) (escape (utf8 t)) q).1),
    )

pub json_string-utf8_inv : (t : Text) → IsPlain (json_string (utf8 t)) → IsPlain t
unfolding json_string
json_string-utf8_inv t (_, p) =
    escape-utf8_inv t (append-IsPlain (escape (utf8 t)) (quote ∷ []) p).0

-- A member, as each of the two prints it.

abbrev pub utf8_member : String → Text → Bytes
utf8_member k t = string_member k (utf8 t)

pub text_member-plain : (k : String) (t : Text) → IsPlain t → text_member k t ≡ utf8_member k t
text_member-plain k t p = rw (dumps_text-plain t p)

pub text_member-IsPlain :
    (k : String) (t : Text) (rest : Bytes)
    → IsPlain (key_text k)
    → IsPlain rest
    → IsPlain (text_member k t << rest)
text_member-IsPlain k t rest p q =
    IsPlain-append (text_member k t) rest
      (IsPlain-append (key_text k) (dumps_text t) p (dumps_text-IsPlain t)) q

pub utf8_member_inv :
    (k : String) (t : Text) (rest : Bytes)
    → IsPlain (utf8_member k t << rest)
    → IsPlain t × IsPlain rest
utf8_member_inv k t rest p =
    let (member, q) = append-IsPlain (utf8_member k t) rest p in
    (json_string-utf8_inv t (append-IsPlain (key_text k) (json_string (utf8 t)) member).1, q)

pub int_member-IsPlain :
    (k : String) (z : ℤ) (rest : Bytes)
    → IsPlain (key_text k)
    → IsPlain rest
    → IsPlain (int_member k z << rest)
int_member-IsPlain k z rest p q =
    IsPlain-append (int_member k z) rest
      (IsPlain-append (key_text k) (decimal z) p (decimal-IsPlain z)) q

pub int_member_inv :
    (k : String) (z : ℤ) (rest : Bytes) → IsPlain (int_member k z << rest) → IsPlain rest
int_member_inv k z rest p = (append-IsPlain (int_member k z) rest p).1
