-- ===== src/Json/Total.antt =====
-- The reader of cpp/include/ma2a/wire_parse.hpp on arbitrary text, valid or not.
use ma2a.Base.{
  ℕ, zero, suc, ◌≤◌, ◌<◌, ◌≢◌, refl, Bool, true, false, ◌&&◌, not, Bytes, length, [], ◌∷◌, ◌++◌,
  ◌==◌, ltb, leb, if◌then◌else◌, Result, ok, throw, undefined, unfinished, Exception, ◌>>=◌, ◌>>◌,
  throw_if, bytes_eq, unexpected_key, arith,
}
use ma2a.Json.Reader.{
  Read, append_utf8, hex_digit, expect, unicode_unit, low_surrogate_mark, low_surrogate, code_point,
  unicode_escape, unicode_char, escape_sequence, read_escape, string_loop, string, key, is_digit,
  integer_loop, magnitude, integer,
}

-- A read that comes to an end, and leaves at most `n` bytes if it returns.
pub data Within {ℓ} {A : Type ℓ} (n : ℕ) : Read A → Type ℓ where
  returns : (a : A) (s : Bytes) → length s ≤ n → Within n (ok (a, s))
  throws : (e : Exception) → Within n (throw e)
  overflows : Within n undefined

pub Within-ne-unfinished {ℓ} : {A : Type ℓ} {n : ℕ} {m : Read A} → Within n m → m ≢ unfinished
Within-ne-unfinished (returns a s h) = λ p. cc
Within-ne-unfinished (throws e) = λ p. cc
Within-ne-unfinished overflows = λ p. cc

pub Within-mono {ℓ} : {A : Type ℓ} {n k : ℕ} {m : Read A} → n ≤ k → Within n m → Within k m
Within-mono h (returns a s l) = returns a s (omega arith)
Within-mono h (throws e) = throws e
Within-mono h overflows = overflows

module _ {ℓ κ} {A : Type ℓ} {B : Type κ} where
  pub Within-bind :
      {n k : ℕ} {m : Read A}
      → Within n m
      → (f : A × Bytes → Read B) → ((a : A) (s : Bytes) → length s ≤ n → Within k (f (a, s)))
      → Within k (m >>= f)
  Within-bind (returns a s h) f r = r a s h
  Within-bind (throws e) f r = throws e
  Within-bind overflows f r = overflows

  -- The same after a step that does not read.
  Within-after :
      {k : ℕ} (m : Result A) {f : A → Read B}
      → m ≢ unfinished
      → ((a : A) → Within k (f a))
      → Within k (m >>= f)
  Within-after (ok a) h r = r a
  Within-after (throw e) h r = throws e
  Within-after undefined h r = overflows
  Within-after unfinished h r = absurd (h refl)

pub Within-throw_if {ℓ} :
    {A : Type ℓ} {n : ℕ} (b : Bool) (e : Exception) {m : Read A}
    → Within n m
    → Within n (throw_if b e >> m)
Within-throw_if true e h = throws e
Within-throw_if false e h = h

pub Within-if {ℓ} :
    {A : Type ℓ} {n : ℕ} (b : Bool) {x y : Read A}
    → Within n x
    → Within n y
    → Within n (if b then x else y)
Within-if true h k = h
Within-if false h k = k

pub expect-Within : (ch n : ℕ) (s : Bytes) → length s ≤ suc n → Within n (expect ch s)
unfolding expect
expect-Within ch n [] h = throws _
expect-Within ch n (c ∷ s) h = Within-if (c == ch) (returns tt s (omega arith)) (throws _)

hex_digit-ne-unfinished : (c : ℕ) → hex_digit c ≢ unfinished
unfolding hex_digit
hex_digit-ne-unfinished c = ground arith

unicode_unit-Within : (s : Bytes) → Within (length s) (unicode_unit s)
unfolding unicode_unit
unicode_unit-Within (a ∷ b ∷ c ∷ d ∷ s) =
    Within-after (hex_digit a) (hex_digit-ne-unfinished a) λ x.
      Within-after (hex_digit b) (hex_digit-ne-unfinished b) λ y.
        Within-after (hex_digit c) (hex_digit-ne-unfinished c)
          λ z. Within-after (hex_digit d) (hex_digit-ne-unfinished d) λ w. returns _ s (omega arith)
unicode_unit-Within _ = throws _

low_surrogate_mark-Within : (s : Bytes) → Within (length s) (low_surrogate_mark s)
unfolding low_surrogate_mark
low_surrogate_mark-Within (a ∷ b ∷ s) =
    Within-if ((a == b'\\') && (b == b'u')) (returns tt s (omega arith)) (throws _)
low_surrogate_mark-Within _ = throws _

low_surrogate-Within : (first : ℕ) (s : Bytes) → Within (length s) (low_surrogate first s)
unfolding low_surrogate
low_surrogate-Within first s = Within-bind (low_surrogate_mark-Within s) _ λ _ s₁ h₁.
    Within-bind (unicode_unit-Within s₁) _ λ second s₂ h₂.
      Within-throw_if (not (leb 0xdc00 second && leb second 0xdfff)) _ (returns _ s₂ (omega arith))

code_point-Within : (first : ℕ) (s : Bytes) → Within (length s) (code_point first s)
unfolding code_point
code_point-Within first s =
    Within-if (leb 0xd800 first && leb first 0xdbff) (low_surrogate-Within first s)
      (Within-if (leb 0xdc00 first && leb first 0xdfff) (throws _) (returns first s (omega arith)))

unicode_escape-Within : (s : Bytes) → Within (length s) (unicode_escape s)
unfolding unicode_escape
unicode_escape-Within s =
    Within-bind (unicode_unit-Within s) _ λ first s₁ h. Within-mono h (code_point-Within first s₁)

append_utf8-ne-unfinished : (out : Bytes) (cp : ℕ) → append_utf8 out cp ≢ unfinished
unfolding append_utf8
append_utf8-ne-unfinished out cp = ground arith

unicode_char-Within : (s out : Bytes) → Within (length s) (unicode_char s out)
unfolding unicode_char
unicode_char-Within s out = Within-bind (unicode_escape-Within s) _ λ cp s₁ h.
    Within-after (append_utf8 out cp) (append_utf8-ne-unfinished out cp) λ out'. returns out' s₁ h

escape_sequence-Within : (esc : ℕ) (s out : Bytes) → Within (length s) (escape_sequence esc s out)
unfolding escape_sequence
escape_sequence-Within esc s out = Within-if (esc == b'"') (here _) (
    Within-if (esc == b'\\') (here _) (
      Within-if (esc == b'/') (here _) (
        Within-if (esc == b'b') (here _) (
          Within-if (esc == b'f') (here _) (
            Within-if (esc == b'n') (here _) (
              Within-if (esc == b'r') (here _) (
                Within-if (esc == b't') (here _)
                  (Within-if (esc == b'u') (unicode_char-Within s out) (throws _)))))))))
  where
    here : (out' : Bytes) → Within (length s) (ok (out', s))
    here out' = returns out' s (omega arith)

read_escape-Within : (s out : Bytes) → Within (length s) (read_escape s out)
unfolding read_escape
read_escape-Within [] out = throws _
read_escape-Within (esc ∷ s) out = Within-mono (omega arith) (escape_sequence-Within esc s out)

string_loop-Within :
    (fuel : ℕ) (s out : Bytes) → length s < fuel → Within (length s) (string_loop fuel s out)
unfolding string_loop
string_loop-Within zero s out h = absurd (omega arith)
string_loop-Within (suc fuel) [] out h = throws _
string_loop-Within (suc fuel) (ch ∷ s) out h =
    Within-if (ch == b'"') (returns out s (omega arith)) (
      Within-if (ch == b'\\')
        (Within-bind (read_escape-Within s out) _
          λ out' s' h'. Within-mono (omega arith) (string_loop-Within fuel s' out' (omega arith)))
        (Within-if (ltb ch 0x20) (throws _)
          (Within-mono (omega arith) (string_loop-Within fuel s (out ++ ch ∷ []) (omega arith)))))

pub string-Within : (s : Bytes) → Within (length s) (string s)
unfolding string
string-Within s =
    Within-bind (expect-Within b'"' (length s) s (omega arith)) _
      λ _ s₁ h. Within-mono h (string_loop-Within (suc (length s₁)) s₁ [] (omega arith))

pub key-Within : (expected s : Bytes) → Within (length s) (key expected s)
unfolding key
key-Within expected s = Within-bind (string-Within s) _ λ actual s₁ h.
    Within-throw_if (not (bytes_eq actual expected)) unexpected_key
      (expect-Within b':' (length s) s₁ (omega arith))

integer_loop-Within : (s : Bytes) (value : ℕ) → Within (length s) (integer_loop s value)
unfolding integer_loop
integer_loop-Within [] value = returns value [] (omega arith)
integer_loop-Within (c ∷ s) value =
    Within-if (is_digit c)
      (Within-if _ (Within-mono (omega arith) (integer_loop-Within s _)) overflows)
      (returns value (c ∷ s) (omega arith))

magnitude-Within : (s : Bytes) → Within (length s) (magnitude s)
unfolding magnitude
magnitude-Within [] = throws _
magnitude-Within (c ∷ s) = Within-if (is_digit c) (integer_loop-Within (c ∷ s) 0) (throws _)

pub integer-Within : (s : Bytes) → Within (length s) (integer s)
unfolding integer
integer-Within [] = throws _
integer-Within (c ∷ s) =
    Within-if (c == b'-')
      (Within-bind (magnitude-Within s) _ λ value s₁ h. returns _ s₁ (omega arith))
      (Within-bind (magnitude-Within (c ∷ s)) _ λ value s₁ h. returns _ s₁ h)
