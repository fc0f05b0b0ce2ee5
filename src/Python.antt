-- ===== src/Python.antt =====
-- reference/python/ma2a: the part of the Python reference that makes and reads the messages of the
-- C++ library. This file has `canonical_json` of auth.py, with `json.dumps` of Python's standard
-- library as it is called: keys sorted, no spaces, and every character outside ASCII escaped. A
-- `str` is the list of its code points.
pub mod Packages
pub mod Messages
pub mod Strings
pub mod Member
pub mod Envelope
pub mod Plain
pub mod Results
pub mod Requests
pub mod Job
pub mod Agreement
pub mod Signing
pub mod Served
pub mod Verified
pub mod Order
pub mod Decoding
pub mod Notices
pub mod Capability
pub mod Conflict
pub mod Values
pub mod Delta
pub mod Routes
pub mod Auth
use Prim.Native.String.{String}
use ma2a.Base.{
  ℕ, zero, suc, ◌+◌, ◌-◌, ◌/◌, ◌%◌, ◌<◌, ◌≤◌, ◌⊎◌, Bool, true, false, ◌&&◌, Bytes, codes, List, [],
  ◌∷◌, ◌++◌, ltb, leb, ◌==◌, if◌then◌else◌,
}
use ma2a.Base.Int.{ℤ}
use ma2a.Json.{quote, backslash, hex4, decimal}

abbrev pub Text : Type 0
Text = List ℕ

-- The code points that UTF-8 has bytes for: all but the surrogates.
abbrev pub IsScalar : ℕ → Type 0
IsScalar cp = (cp < 0xd800) ⊎ ((0xe000 ≤ cp) × (cp < 0x110000))

-- `str.encode("utf-8")` of one character
unfoldable pub utf8_char : ℕ → Bytes
utf8_char cp =
    if ltb cp 0x80
    then cp ∷ []
    else if ltb cp 0x800
    then (0xc0 + cp / 64) ∷ (0x80 + cp % 64) ∷ []
    else if ltb cp 0x10000
    then (0xe0 + cp / 4096) ∷ (0x80 + cp / 64 % 64) ∷ (0x80 + cp % 64) ∷ []
    else (0xf0 + cp / 262144)
      ∷ (0x80 + cp / 4096 % 64)
      ∷ (0x80 + cp / 64 % 64)
      ∷ (0x80 + cp % 64)
      ∷ []

unfoldable pub utf8 : Text → Bytes
utf8 [] = []
utf8 (cp ∷ text) = utf8_char cp ++ utf8 text

-- An escape of one UTF-16 unit.
abbrev pub unit_escape : ℕ → Bytes
unit_escape n = backslash ∷ b'u' ∷ hex4 n

-- A character in a string, with `ensure_ascii`.
unfoldable pub ascii_char : ℕ → Bytes
ascii_char cp =
    if cp == quote
    then backslash ∷ quote ∷ []
    else if cp == backslash
    then backslash ∷ backslash ∷ []
    else if cp == 10
    then backslash ∷ b'n' ∷ []
    else if cp == 13
    then backslash ∷ b'r' ∷ []
    else if cp == 9
    then backslash ∷ b't' ∷ []
    else if cp == 12
    then backslash ∷ b'f' ∷ []
    else if cp == 8
    then backslash ∷ b'b' ∷ []
    else if leb b' ' cp && leb cp b'~'
    then cp ∷ []
    else if ltb cp 0x10000
    then unit_escape cp
    else unit_escape (0xd800 + (cp - 0x10000) / 1024 % 1024)
      ++ unit_escape (0xdc00 + (cp - 0x10000) % 1024)

unfoldable pub ascii_escape : Text → Bytes
ascii_escape [] = []
ascii_escape (cp ∷ text) = ascii_char cp ++ ascii_escape text

unfoldable pub dumps_text : Text → Bytes
dumps_text text = quote ∷ (ascii_escape text ++ quote ∷ [])

-- What is printed: `None`, a `bool`, an `int`, a `float` by its `repr`, a `str`, a `list`, and a `dict` with such keys.
mutual
  pub data Value : Type 0 where
    null : Value
    boolean : Bool → Value
    number : ℤ → Value
    float : Bytes → Value
    text : Text → Value
    array : Items → Value
    dict : Members → Value

  pub data Items : Type 0 where
    nil : Items
    item : Value → Items → Items

  pub data Members : Type 0 where
    end : Members
    member : String → Value → Members → Members

-- `<` on `str`
unfoldable pub text_lt : Text → Text → Bool
text_lt [] [] = false
text_lt [] (d ∷ t) = true
text_lt (c ∷ s) [] = false
text_lt (c ∷ s) (d ∷ t) = if ltb c d then true else if ltb d c then false else text_lt s t

-- The members, each a key and the text of its value, in the order of their keys.
unfoldable pub insert_member : String → Bytes → List (String × Bytes) → List (String × Bytes)
insert_member k v [] = (k, v) ∷ []
insert_member k v ((j, w) ∷ members) =
    if text_lt (codes k) (codes j)
    then (k, v) ∷ (j, w) ∷ members
    else (j, w) ∷ insert_member k v members

unfoldable pub sort_members : List (String × Bytes) → List (String × Bytes)
sort_members [] = []
sort_members ((k, v) ∷ members) = insert_member k v (sort_members members)

unfoldable pub join_members : List (String × Bytes) → Bytes
join_members [] = []
join_members ((k, v) ∷ []) = dumps_text (codes k) ++ b':' ∷ v
join_members ((k, v) ∷ m ∷ members) =
    dumps_text (codes k) ++ b':' ∷ (v ++ b',' ∷ join_members (m ∷ members))

unfoldable pub join_items : List Bytes → Bytes
join_items [] = []
join_items (v ∷ []) = v
join_items (v ∷ w ∷ items) = v ++ b',' ∷ join_items (w ∷ items)

-- `json.dumps(value, sort_keys=True, separators=(",", ":")).encode("utf-8")`
unfoldable mutual
  pub dumps : Value → Bytes
  dumps null = codes "null"
  dumps (boolean b) = if b then codes "true" else codes "false"
  dumps (number z) = decimal z
  dumps (float f) = f
  dumps (text t) = dumps_text t
  dumps (array items) = b'[' ∷ (join_items (dumps_items items) ++ b']' ∷ [])
  dumps (dict members) = b'{' ∷ (join_members (sort_members (dumps_members members)) ++ b'}' ∷ [])

  pub dumps_items : Items → List Bytes
  dumps_items nil = []
  dumps_items (item v items) = dumps v ∷ dumps_items items

  pub dumps_members : Members → List (String × Bytes)
  dumps_members end = []
  dumps_members (member k v members) = (k, dumps v) ∷ dumps_members members

unfoldable pub canonical_json : Members → Bytes
canonical_json value = dumps (dict value)
