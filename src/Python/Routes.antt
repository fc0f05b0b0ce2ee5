-- ===== src/Python/Routes.antt =====
-- `ResolutiveRouteMemory` of reference/python/ma2a/rm_bridge.py and its `resolve`; `import_delta` is
-- in Routes/Import. The case and the white space of Unicode and SHA-256 are parameters. No text that
-- is resolved holds a surrogate. An imported route may have a value of any type as its key and its
-- result; a key that is no text is left out of `by_condition`, since nothing looks it up.
pub mod Import
pub mod Recall
pub mod Used
pub mod Again
use mathlib.Core.List.{reverse}
use ma2a.Base.{
  ℕ, ◌+◌, Bool, true, false, not, Bytes, codes, bytes_eq, is_empty, List, [], ◌∷◌, ◌++◌, Option,
  none, some, if◌then◌else◌,
}
use ma2a.Base.Int.{ℤ, pos}
use ma2a.Python.{Text, utf8}
use ma2a.Python.Values.{JsonValue, text_value}

pub record Platform : Type 0 where
  -- `str.lower`
  pub lower : Text → Text
  -- what `str.strip` and `str.split` take off
  pub is_space : ℕ → Bool
  -- `hashlib.sha256(data).hexdigest()`
  pub sha256 : Bytes → Text

pub record RouteRecord : Type 0 where
  pub trajectory_address : Text
  pub condition_key : JsonValue
  pub result : JsonValue
  pub version : ℤ
  pub scope : Text

pub record RouteMemory : Type 0 where
  pub by_condition : List (Text × Text)
  pub by_address : List (Text × RouteRecord)
  pub external_resolution_calls : ℕ

-- `__init__`
abbrev pub new_memory : RouteMemory
new_memory = record { by_condition = []; by_address = []; external_resolution_calls = 0 }

-- `d.get(key)` and `d[key] = value`
unfoldable pub get_item {ℓ} : {V : Type ℓ} → List (Text × V) → Text → Option V
get_item [] key = none
get_item ((k, v) ∷ items) key = if bytes_eq k key then some v else get_item items key

unfoldable pub set_item {ℓ} : {V : Type ℓ} → List (Text × V) → Text → V → List (Text × V)
set_item [] key value = (key, value) ∷ []
set_item ((k, v) ∷ items) key value =
    if bytes_eq k key then (k, value) ∷ items else (k, v) ∷ set_item items key value

module _ (platform : Platform) where
  open platform use {lower, is_space, sha256}

  unfoldable pub strip_start : Text → Text
  strip_start [] = []
  strip_start (c ∷ t) = let rest = strip_start t in if is_space c then rest else c ∷ t

  -- `str.strip()`
  unfoldable pub strip : Text → Text
  strip t = reverse (strip_start (reverse (strip_start t)))

  -- `str.split()`, with the word that is being read
  unfoldable pub split_words : Text → Text → List Text
  split_words word [] = if is_empty word then [] else word ∷ []
  split_words word (c ∷ t) =
      let spaced = split_words [] t in
      let read = split_words (word ++ c ∷ []) t in
      if is_space c then (if is_empty word then spaced else word ∷ spaced) else read

  -- `" ".join(words)`
  unfoldable pub join_words : List Text → Text
  join_words [] = []
  join_words (w ∷ []) = w
  join_words (w ∷ v ∷ words) = w ++ b' ' ∷ join_words (v ∷ words)

  unfoldable pub condition_key : Text → Text
  condition_key condition = sha256 (utf8 (join_words (split_words [] (lower (strip condition)))))

  unfoldable pub derive_address : Text → Text → Text
  derive_address key result =
      codes "rm:" ++ sha256 (utf8 (codes "rm-route-v1|" ++ (key ++ b'|' ∷ result)))

  -- `validator is not None and not validator(result)`
  unfoldable pub is_rejected : Option (Text → Bool) → Text → Bool
  is_rejected none result = false
  is_rejected (some validator) result = not (validator result)

  -- What a call returns, `none` for an exception.
  abbrev pub Answer : Type 0
  Answer = Option (JsonValue × Bool × Text)

  -- The known route of an address.
  unfoldable pub recall : RouteMemory → Text → RouteMemory × Answer
  recall m address = elim (get_item m.by_address address) [
    | none ↦ (m, none)
    | some route ↦ (m, some (route.result, true, route.trajectory_address))
  ]

  -- The route of what the external resolver found, under a key.
  abbrev pub new_route : Text → Text → RouteRecord
  new_route key result = record {
    trajectory_address = derive_address key result;
    condition_key = text_value key;
    result = text_value result;
    version = pos 1;
    scope = codes "shared";
  }

  unfoldable pub register : RouteMemory → Text → Text → RouteMemory × Answer
  register m key result =
      let address = derive_address key result in
      (
        record m {
          by_condition = set_item m.by_condition key address;
          by_address = set_item m.by_address address (new_route key result);
        },
        some (text_value result, false, address),
      )

  -- The external resolver, which may raise.
  unfoldable pub resolve_external :
      RouteMemory → Text → (Text → Option Text) → Option (Text → Bool) → RouteMemory × Answer
  resolve_external m condition external_resolver validator =
      let counted = record m { external_resolution_calls = m.external_resolution_calls + 1 } in
      elim (external_resolver condition) [
        | none ↦ (counted, none)
        | some result ↦
            if is_rejected validator result
            then (counted, none)
            else register counted (condition_key condition) result
      ]

  unfoldable pub resolve :
      RouteMemory → Text → Option (Text → Option Text) → Option (Text → Bool) → RouteMemory × Answer
  resolve m condition external_resolver validator =
      elim (get_item m.by_condition (condition_key condition)) [
        | some address ↦ recall m address
        | none ↦ elim external_resolver [
          | none ↦ (m, none)
          | some f ↦ resolve_external m condition f validator
        ]
      ]
