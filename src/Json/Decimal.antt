-- ===== src/Json/Decimal.antt =====
-- The integer reader of cpp/include/ma2a/wire_parse.hpp on what `std::ostream` prints.
use native.Mathlib.Nat.{pow-suc}
use native.Mathlib.Decide.{dec_le}
use ma2a.Base.{
  leb, ap, if◌then◌else◌, ◌>>=◌, ℕ, zero, suc, ◌+◌, ◌/◌, ◌%◌, ◌^◌, ◌≤◌, ◌<◌, ◌≡◌, refl, Bool, true,
  false, Bytes, [], ◌∷◌, ◌++◌, ok, undefined, arith,
}
use ma2a.Base.Int.{ℤ, pos, negsuc, int64_max, IsInt64}
use ma2a.Json.{digits, decimal}
use ma2a.Json.Reader.{Read, is_digit, integer_loop, magnitude, integer}

-- A text that begins with a digit.
abbrev pub starts_digit : Bytes → Bool
starts_digit [] = false
starts_digit (c ∷ s) = is_digit c

digits-append :
    (fuel n : ℕ) (out rest : Bytes) → digits fuel n out ++ rest ≡ digits fuel n (out ++ rest)
unfolding digits
digits-append zero n out rest = refl
digits-append (suc fuel) n out rest =
    ground (arith, digits-append fuel (n / 10) ((b'0' + n % 10) ∷ out) rest)

starts_digit-digits :
    (fuel n : ℕ) (out : Bytes) → starts_digit out ≡ true → starts_digit (digits fuel n out) ≡ true
unfolding digits
starts_digit-digits zero n out h = h
starts_digit-digits (suc fuel) n out h =
    ground (arith, starts_digit-digits fuel (n / 10) ((b'0' + n % 10) ∷ out))

starts_digit-digits-suc : (fuel n : ℕ) (out : Bytes) → starts_digit (digits (suc fuel) n out) ≡ true
unfolding digits
starts_digit-digits-suc fuel n out =
    ground (arith, starts_digit-digits fuel (n / 10) ((b'0' + n % 10) ∷ out))

tenth-lt-pow : (fuel n : ℕ) → n < 10 ^ suc fuel → n / 10 < 10 ^ fuel
tenth-lt-pow fuel n h = omega (arith, pow-suc 10 fuel)

integer_loop-digit :
    (n : ℕ) (out : Bytes)
    → n ≤ int64_max
    → integer_loop ((b'0' + n % 10) ∷ out) (n / 10) ≡ integer_loop out n
unfolding integer_loop
integer_loop-digit n out h = ground arith

integer_loop-digit_small :
    (n : ℕ) (out : Bytes) → n < 10 → integer_loop ((b'0' + n) ∷ out) 0 ≡ integer_loop out n
unfolding integer_loop
integer_loop-digit_small n out h = ground arith

integer_loop-digits :
    (fuel n : ℕ) (out : Bytes)
    → n < 10 ^ fuel
    → n ≤ int64_max
    → integer_loop (digits fuel n out) 0 ≡ integer_loop out n
unfolding digits
integer_loop-digits zero n out h fits = ap (integer_loop out) (omega arith)
integer_loop-digits (suc fuel) n out h fits = ground (
  arith,
  integer_loop-digit_small n out,
  integer_loop-digits fuel (n / 10) ((b'0' + n % 10) ∷ out) (tenth-lt-pow fuel n h),
  integer_loop-digit n out fits,
)

integer_loop-digit_overflow :
    (n : ℕ) (out : Bytes)
    → int64_max < n
    → integer_loop ((b'0' + n % 10) ∷ out) (n / 10) ≡ undefined
unfolding integer_loop
integer_loop-digit_overflow n out h = ground arith

integer_loop-digits_overflow :
    (fuel n : ℕ) (out : Bytes)
    → n < 10 ^ fuel
    → int64_max < n
    → integer_loop (digits fuel n out) 0 ≡ undefined
unfolding digits
integer_loop-digits_overflow zero n out h big = absurd (omega arith)
integer_loop-digits_overflow (suc fuel) n out h big = elim (dec_le (n / 10) int64_max) [
  | yes p ↦ ground (
    arith,
    integer_loop-digits fuel (n / 10) ((b'0' + n % 10) ∷ out) (tenth-lt-pow fuel n h) p,
    integer_loop-digit_overflow n out big,
  )
  | no p ↦ ground (
    arith,
    integer_loop-digits_overflow fuel (n / 10) ((b'0' + n % 10) ∷ out) (tenth-lt-pow fuel n h),
  )
]

magnitude-integer_loop : (s : Bytes) → starts_digit s ≡ true → magnitude s ≡ integer_loop s 0
unfolding magnitude
magnitude-integer_loop [] h = cc
magnitude-integer_loop (c ∷ s) h = rw h

integer-magnitude :
    (s : Bytes)
    → starts_digit s ≡ true
    → integer s ≡ (do (value, s₁) ← magnitude s; ok (pos value, s₁))
unfolding integer
integer-magnitude [] h = cc
integer-magnitude (c ∷ s) h = ground arith

integer_loop_end :
    (rest : Bytes) (n : ℕ) → starts_digit rest ≡ false → integer_loop rest n ≡ ok (n, rest)
unfolding integer_loop
integer_loop_end [] n h = refl
integer_loop_end (c ∷ s) n h = rw h

-- The magnitude that is read off a print of at most nineteen digits.
magnitude-digits :
    (n : ℕ) (rest : Bytes)
    → n < 10 ^ 19
    → starts_digit rest ≡ false
    → magnitude (digits 19 n rest) ≡ (if leb n int64_max then ok (n, rest) else undefined)
magnitude-digits n rest h stops = elim (dec_le n int64_max) [
  | yes p ↦
      rw
        (
          magnitude-integer_loop _ (starts_digit-digits-suc 18 n rest),
          integer_loop-digits 19 n rest h p,
          integer_loop_end rest n stops,
        )
        (ground arith)
  | no p ↦
      rw
        (
          magnitude-integer_loop _ (starts_digit-digits-suc 18 n rest),
          integer_loop-digits_overflow 19 n rest h (omega arith),
        )
        (ground arith)
]

-- What the reader makes of a printed integer: `-(n + 1)` is negated from `n + 1`, which is out of
-- range at `INT64_MIN`.
abbrev pub reread : ℤ → Bytes → Read ℤ
reread (pos n) rest = ok (pos n, rest)
reread (negsuc n) rest = if leb (suc n) int64_max then ok (negsuc n, rest) else undefined

-- A printed `std::int64_t` is read back, but for `INT64_MIN`, at which the reader overflows.
pub integer-decimal :
    (z : ℤ) (rest : Bytes)
    → IsInt64 z
    → starts_digit rest ≡ false
    → integer (decimal z ++ rest) ≡ reread z rest
unfolding decimal
integer-decimal (pos n) rest h stops =
    rw
      (
        digits-append 19 n [] rest,
        integer-magnitude _ (starts_digit-digits-suc 18 n rest),
        magnitude-digits n rest (omega arith) stops,
      )
      (ground arith)
integer-decimal (negsuc n) rest h stops =
    unfold integer in
    rw (digits-append 19 (suc n) [] rest, magnitude-digits (suc n) rest (omega arith) stops)
      (ground arith)
