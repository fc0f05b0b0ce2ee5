-- ===== src/Python/Values.antt =====
-- The values that `json.loads` returns, and what Python does with them where their types are not
-- tested first. A call that raises is `none`.
use ma2a.Base.{
  ℕ, Bool, true, false, not, ◌&&◌, ◌||◌, Bytes, bytes_eq, is_empty, ltb, leb, List, [], ◌∷◌, Option,
  none, some, if◌then◌else◌,
}
use ma2a.Base.Int.{ℤ, pos, negsuc}
use ma2a.Python.{Text, utf8}
use ma2a.Python.Auth.{contains}

mutual
  -- A `float` is named by its `repr`.
  pub data JsonValue : Type 0 where
    null_value : JsonValue
    bool_value : Bool → JsonValue
    int_value : ℤ → JsonValue
    float_value : Text → JsonValue
    text_value : Text → JsonValue
    list_value : JsonItems → JsonValue
    dict_value : JsonMembers → JsonValue

  pub data JsonItems : Type 0 where
    no_items : JsonItems
    item : JsonValue → JsonItems → JsonItems

  -- The keys of a `dict` are distinct.
  pub data JsonMembers : Type 0 where
    no_members : JsonMembers
    entry : Text → JsonValue → JsonMembers → JsonMembers

-- The parts of Python that are not modelled: `data.decode("utf-8")`, `json.loads(text)`,
-- `int(value)`, `f"{value}"` for a value that is no text, and the comparisons of a float with zero.
pub record Builtins : Type 0 where
  pub decode : Bytes → Option Text
  pub loads : Text → Option JsonValue
  pub int : JsonValue → Option ℤ
  pub format : JsonValue → Text
  pub is_negative_float : Text → Bool
  pub is_zero_float : Text → Bool

infixl 5 ◌>>=◌ ◌>>◌
abbrev pub ◌>>=◌ {ℓ κ} : {A : Type ℓ} {B : Type κ} → Option A → (A → Option B) → Option B
none >>= f = none
some a >>= f = f a

abbrev pub ◌>>◌ {ℓ} : {B : Type ℓ} → Option (Unit {0}) → Option B → Option B
m >> k = m >>= λ _. k

-- `if not b: raise ...`
abbrev pub require : Bool → Option (Unit {0})
require true = some tt
require false = none

abbrev is_surrogate : ℕ → Bool
is_surrogate cp = leb 0xd800 cp && ltb cp 0xe000

unfoldable pub has_surrogate : Text → Bool
has_surrogate [] = false
has_surrogate (cp ∷ text) = is_surrogate cp || has_surrogate text

-- `text.encode("utf-8")`
unfoldable pub encode_utf8 : Text → Option Bytes
encode_utf8 text = if has_surrogate text then none else some (utf8 text)

-- The text that a value is, for what is done with texts alone.
unfoldable pub as_text : JsonValue → Option Text
as_text (text_value text) = some text
as_text _ = none

-- `value == text`
unfoldable pub equals_text : JsonValue → Text → Bool
equals_text (text_value t) text = bytes_eq t text
equals_text _ text = false

-- `value in texts`, for a set of texts: a list and a `dict` have no hash
unfoldable pub is_in : List Text → JsonValue → Option Bool
is_in texts (text_value t) = some (contains texts t)
is_in texts (list_value _) = none
is_in texts (dict_value _) = none
is_in texts _ = some false

unfoldable pub get_member : JsonMembers → Text → Option JsonValue
get_member no_members key = none
get_member (entry k v members) key = if bytes_eq k key then some v else get_member members key

unfoldable pub member_keys : JsonMembers → List Text
member_keys no_members = []
member_keys (entry k v members) = k ∷ member_keys members

unfoldable pub is_subset : List Text → List Text → Bool
is_subset [] texts = true
is_subset (t ∷ ts) texts = contains texts t && is_subset ts texts

-- `value[key]`, for a text `key`
unfoldable pub get_key : JsonValue → Text → Option JsonValue
get_key (dict_value members) key = get_member members key
get_key _ key = none

module _ (builtins : Builtins) where
  open builtins use {format, is_negative_float, is_zero_float}

  -- `value < 0`
  unfoldable pub is_negative : JsonValue → Option Bool
  is_negative (bool_value _) = some false
  is_negative (int_value (pos n)) = some false
  is_negative (int_value (negsuc n)) = some true
  is_negative (float_value f) = some (is_negative_float f)
  is_negative _ = none

  -- `not value`
  unfoldable pub is_falsy : JsonValue → Bool
  is_falsy null_value = true
  is_falsy (bool_value b) = not b
  is_falsy (int_value (pos n)) = leb n 0
  is_falsy (int_value (negsuc n)) = false
  is_falsy (float_value f) = is_zero_float f
  is_falsy (text_value t) = is_empty t
  is_falsy (list_value no_items) = true
  is_falsy (list_value (item _ _)) = false
  is_falsy (dict_value no_members) = true
  is_falsy (dict_value (entry _ _ _)) = false

  -- `f"{value}"`
  unfoldable pub format_value : JsonValue → Text
  format_value (text_value t) = t
  format_value v = format v
