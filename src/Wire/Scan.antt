-- ===== src/Wire/Scan.antt =====
-- The loop of `split_envelope` in cpp/include/ma2a/wire_parse.hpp on printed members.
use Prim.Native.String.{String}
use ma2a.Base.{
  ℕ, zero, suc, ◌+◌, ◌/◌, ◌%◌, ◌<◌, ◌≡◌, refl, Bool, true, false, Bytes, codes, [], ◌∷◌, ◌++◌,
  append_assoc, append-nil, if◌then◌else◌, Bool-cases, inl, inr, ltb→lt, subst, ap, ltb, ◌==◌,
  arith,
}
use ma2a.Base.Int.{ℤ, pos, negsuc}
use ma2a.Json.{
  quote, backslash, hex_char, hex4, escape_char, escape, json_string, digits, decimal, key_text,
}
use ma2a.Wire.Parse.{Scan, scan, scan_char, scan_string_char}

abbrev pub outside : ℕ → Scan
outside d = record { in_string = false; escaped = false; depth = suc d }

abbrev inside : ℕ → Scan
inside d = record { in_string = true; escaped = false; depth = suc d }

-- A text that the loop passes over.
abbrev pub Neutral : Bytes → Type 0
Neutral t =
    (d : ℕ) (rest taken : Bytes)
    → scan (t ++ rest) (outside d) taken ≡ scan rest (outside d) (taken ++ t)

-- The same inside a string.
abbrev pub Quoted : Bytes → Type 0
Quoted t =
    (d : ℕ) (rest taken : Bytes)
    → scan (t ++ rest) (inside d) taken ≡ scan rest (inside d) (taken ++ t)

pub Neutral-append : (s t : Bytes) → Neutral s → Neutral t → Neutral (s ++ t)
Neutral-append s t hs ht d rest taken = rw (append_assoc s t rest, hs, ht, append_assoc)

pub Quoted-append : (s t : Bytes) → Quoted s → Quoted t → Quoted (s ++ t)
Quoted-append s t hs ht d rest taken = rw (append_assoc s t rest, hs, ht, append_assoc)

pub Quoted-char : (ch : ℕ) → (ch == quote) ≡ false → (ch == backslash) ≡ false → Quoted (ch ∷ [])
unfolding scan scan_char scan_string_char
Quoted-char ch h k d rest taken = rw (h, k)

pub Quoted-pair : (ch : ℕ) → Quoted (backslash ∷ ch ∷ [])
unfolding scan scan_char scan_string_char
Quoted-pair ch d rest taken = rw append_assoc

hex_char_plain :
    (d : ℕ) → d < 16 → ((hex_char d == quote) ≡ false) × ((hex_char d == backslash) ≡ false)
unfolding hex_char
hex_char_plain d h = ground arith

Quoted-hex_char : (d : ℕ) → d < 16 → Quoted (hex_char d ∷ [])
Quoted-hex_char d h = let (p, q) = hex_char_plain d h in Quoted-char (hex_char d) p q

pub Quoted-hex4 : (n : ℕ) → Quoted (hex4 n)
unfolding hex4
Quoted-hex4 n = Quoted-append (hex_char (n / 4096 % 16) ∷ []) _ (Quoted-hex_char _ (omega arith)) (
    Quoted-append (hex_char (n / 256 % 16) ∷ []) _ (Quoted-hex_char _ (omega arith)) (
      Quoted-append (hex_char (n / 16 % 16) ∷ []) _ (Quoted-hex_char _ (omega arith))
        (Quoted-hex_char _ (omega arith))))

-- A text chosen by a test has what both of its branches have.
pub if_lem {ℓ κ} :
    {A : Type ℓ} (P : A → Type κ) (b : Bool) {x y : A}
    → P x
    → (b ≡ false → P y)
    → P (if b then x else y)
if_lem P true h k = h
if_lem P false h k = k refl

Quoted-escape_char : (ch : ℕ) → Quoted (escape_char ch)
unfolding escape_char
Quoted-escape_char ch = if_lem Quoted (ch == quote) (Quoted-pair quote) λ h.
    if_lem Quoted (ch == backslash) (Quoted-pair backslash) λ k.
      if_lem Quoted (ch == 8) (Quoted-pair b'b') λ _.
        if_lem Quoted (ch == 12) (Quoted-pair b'f') λ _.
          if_lem Quoted (ch == 10) (Quoted-pair b'n') λ _.
            if_lem Quoted (ch == 13) (Quoted-pair b'r') λ _.
              if_lem Quoted (ch == 9) (Quoted-pair b't') λ _.
                if_lem Quoted (ltb ch 0x20)
                  (Quoted-append (backslash ∷ b'u' ∷ []) (hex4 ch) (Quoted-pair b'u')
                    (Quoted-hex4 ch))
                  λ _. Quoted-char ch h k

pub Quoted-nil : Quoted []
Quoted-nil d rest taken = rw append-nil

Quoted-escape : (s : Bytes) → Quoted (escape s)
unfolding escape
Quoted-escape [] = Quoted-nil
Quoted-escape (ch ∷ s) =
    Quoted-append (escape_char ch) (escape s) (Quoted-escape_char ch) (Quoted-escape s)

-- A quoted text between two quotes is neutral.
pub Neutral-quotes : (t : Bytes) → Quoted t → Neutral (quote ∷ (t ++ quote ∷ []))
unfolding scan scan_char scan_string_char
Neutral-quotes t h d rest taken =
    rw (append_assoc t (quote ∷ []) rest, h d (quote ∷ rest) (taken ++ quote ∷ []))
      (simp append_assoc)

pub Neutral-json_string : (s : Bytes) → Neutral (json_string s)
unfolding json_string
Neutral-json_string s = Neutral-quotes (escape s) (Quoted-escape s)

-- A byte that is no quote and no brace.
pub Neutral-char :
    (ch : ℕ)
    → (ch == quote) ≡ false
    → (ch == b'{') ≡ false
    → (ch == b'}') ≡ false
    → Neutral (ch ∷ [])
unfolding scan scan_char
Neutral-char ch h k l d rest taken = ground arith

Neutral-digit : (n : ℕ) → n < 10 → Neutral ((b'0' + n) ∷ [])
Neutral-digit n h = Neutral-char (b'0' + n) (ground arith) (ground arith) (ground arith)

Neutral-digits : (fuel n : ℕ) (out : Bytes) → Neutral out → Neutral (digits fuel n out)
unfolding digits
Neutral-digits zero n out h = h
Neutral-digits (suc fuel) n out h = elim (Bool-cases (ltb n 10)) [
  | inl small ↦
      rw small (Neutral-append ((b'0' + n) ∷ []) out (Neutral-digit n (ltb→lt n 10 small)) h)
  | inr large ↦ rw large (
      Neutral-digits fuel (n / 10) _
        (Neutral-append ((b'0' + n % 10) ∷ []) out (Neutral-digit (n % 10) (omega arith)) h))
]

pub Neutral-decimal : (z : ℤ) → Neutral (decimal z)
unfolding decimal
Neutral-decimal (pos n) = Neutral-digits 19 n [] (λ d rest taken. rw append-nil)
Neutral-decimal (negsuc n) =
    Neutral-append (b'-' ∷ []) (digits 19 (suc n) []) (Neutral-char b'-' refl refl refl)
      (Neutral-digits 19 (suc n) [] (λ d rest taken. rw append-nil))

pub Neutral-key_text : (k : String) → escape (codes k) ≡ codes k → Neutral (key_text k)
unfolding key_text
Neutral-key_text k plain =
    let quoted : Neutral (quote ∷ (codes k ++ quote ∷ [])) =
      Neutral-quotes (codes k) (subst Quoted plain (Quoted-escape (codes k))) in
    let colon : Neutral (b':' ∷ []) = Neutral-char b':' refl refl refl in
    subst Neutral (ap (λ t. quote ∷ t) (append_assoc (codes k) (quote ∷ []) (b':' ∷ [])))
      (Neutral-append _ _ quoted colon)
