-- ===== src/Python/Decoding.antt =====
-- Two strings of the Python reference that have the same UTF-8.
use ma2a.Base.{ℕ, ◌<◌, ◌≡◌, refl, sym, ◌≢◌, All, Bytes, [], ◌∷◌, ◌++◌, arith}
use ma2a.Python.{Text, IsScalar, utf8_char, utf8}

scalar-lt : (c : ℕ) → IsScalar c → c < 0x110000
scalar-lt c h = omega arith

utf8_char-ne-nil : (c : ℕ) (s : Bytes) → utf8_char c ++ s ≢ []
unfolding utf8_char
utf8_char-ne-nil c s h = ground arith

utf8_char-injective :
    (c d : ℕ) (s t : Bytes)
    → c < 0x110000
    → d < 0x110000
    → utf8_char c ++ s ≡ utf8_char d ++ t
    → (c ≡ d) × (s ≡ t)
unfolding utf8_char
utf8_char-injective c d s t hc hd h = ground arith

pub utf8-injective : (s t : Text) → All IsScalar s → All IsScalar t → utf8 s ≡ utf8 t → s ≡ t
unfolding utf8
utf8-injective [] [] hs ht h = refl
utf8-injective [] (d ∷ t) hs ht h = absurd (utf8_char-ne-nil d (utf8 t) (sym h))
utf8-injective (c ∷ s) [] hs ht h = absurd (utf8_char-ne-nil c (utf8 s) h)
utf8-injective (c ∷ s) (d ∷ t) (hc, hs) (hd, ht) h =
    let (same, rest) =
      utf8_char-injective c d (utf8 s) (utf8 t) (scalar-lt c hc) (scalar-lt d hd) h in
    cc (utf8-injective s t hs ht rest)
