-- ===== src/Json.antt =====
-- cpp/include/ma2a/canonical.hpp, the text layer: a JSON string, and what `std::ostream` prints for
-- an integer. The reader of the same texts is in the children.
pub mod Reader
pub mod Strings
pub mod Decimal
pub mod Total
use Prim.Native.String.{String}
use ma2a.Base.{ℕ, zero, suc, ◌+◌, ◌/◌, ◌%◌, Bytes, codes, [], ◌∷◌, ◌++◌, ltb, ◌==◌, if◌then◌else◌}
use ma2a.Base.Int.{ℤ, pos, negsuc}

-- `out << a << b`
infixr 20 ◌<<◌
abbrev pub ◌<<◌ : Bytes → Bytes → Bytes
a << b = a ++ b

abbrev pub quote : ℕ
quote = b'"'

abbrev pub backslash : ℕ
backslash = b'\\'

-- A digit of `std::hex`.
unfoldable pub hex_char : ℕ → ℕ
hex_char d = if ltb d 10 then b'0' + d else 87 + d

-- `std::hex << std::setw(4) << std::setfill('0') << n`, of at most four digits
unfoldable pub hex4 : ℕ → Bytes
hex4 n =
    hex_char (n / 4096 % 16)
    ∷ hex_char (n / 256 % 16)
    ∷ hex_char (n / 16 % 16)
    ∷ hex_char (n % 16)
    ∷ []

-- What one round of the loop of `json_string` prints.
unfoldable pub escape_char : ℕ → Bytes
escape_char ch =
    if ch == quote
    then backslash ∷ quote ∷ []
    else if ch == backslash
    then backslash ∷ backslash ∷ []
    else if ch == 8
    then backslash ∷ b'b' ∷ []
    else if ch == 12
    then backslash ∷ b'f' ∷ []
    else if ch == 10
    then backslash ∷ b'n' ∷ []
    else if ch == 13
    then backslash ∷ b'r' ∷ []
    else if ch == 9
    then backslash ∷ b't' ∷ []
    else if ltb ch 0x20
    then backslash ∷ b'u' ∷ hex4 ch
    else ch ∷ []

-- The loop of `json_string`.
unfoldable pub escape : Bytes → Bytes
escape [] = []
escape (ch ∷ value) = escape_char ch ++ escape value

unfoldable pub json_string : Bytes → Bytes
json_string value = quote ∷ (escape value ++ quote ∷ [])

-- The decimal digits of `n` in front of `out`, at most `fuel` of them.
unfoldable pub digits : ℕ → ℕ → Bytes → Bytes
digits zero n out = out
digits (suc fuel) n out =
    let rest = digits fuel (n / 10) ((b'0' + n % 10) ∷ out) in
    if ltb n 10 then (b'0' + n) ∷ out else rest

-- `out << value` of an `std::int64_t`, which has at most 19 digits.
unfoldable pub decimal : ℤ → Bytes
decimal (pos n) = digits 19 n []
decimal (negsuc n) = b'-' ∷ digits 19 (suc n) []

-- The literal `"key":` in front of a member of an object.
unfoldable pub key_text : String → Bytes
key_text k = quote ∷ (codes k ++ quote ∷ b':' ∷ [])

abbrev pub comma : Bytes
comma = b',' ∷ []
