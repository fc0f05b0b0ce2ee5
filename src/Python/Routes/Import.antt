-- ===== src/Python/Routes/Import.antt =====
-- `import_delta` of reference/python/ma2a/rm_bridge.py, which stores a route of another node.
use ma2a.Base.{not, Bytes, codes, List, [], ◌∷◌, Option, none, some}
use ma2a.Python.{Text}
use ma2a.Python.Values.{
  JsonValue, text_value, list_value, dict_value, Builtins, ◌>>=◌, ◌>>◌, require, as_text,
  has_surrogate, encode_utf8, equals_text, is_in, get_key, format_value,
}
use ma2a.Python.Delta.{decode_reference_delta}
use ma2a.Python.Routes.{Platform, RouteRecord, RouteMemory, set_item, derive_address}

-- `self._by_condition[key] = address`: a list and a `dict` have no hash.
unfoldable pub set_condition : RouteMemory → JsonValue → Text → Option RouteMemory
set_condition m (text_value key) address =
    some (record m { by_condition = set_item m.by_condition key address })
set_condition m (list_value _) address = none
set_condition m (dict_value _) address = none
set_condition m _ address = some m

-- The two writes: the first stays when the second raises.
unfoldable pub store : RouteMemory → RouteRecord → RouteMemory × Option RouteRecord
store m r =
    let addressed = record m { by_address = set_item m.by_address r.trajectory_address r } in
    elim (set_condition addressed r.condition_key r.trajectory_address) [
      | none ↦ (addressed, none)
      | some linked ↦ (linked, some r)
    ]

abbrev pub shared_scopes : List Text
shared_scopes = codes "shared" ∷ codes "global" ∷ []

module _ (platform : Platform) (builtins : Builtins) where
  open platform use {sha256}
  open builtins use {loads, int}

  -- `derive_address` of values that `json.loads` returned, which may hold surrogates
  unfoldable pub derive_address_value : JsonValue → JsonValue → Option Text
  derive_address_value key result = do
    require (not (has_surrogate (format_value builtins key)))
    require (not (has_surrogate (format_value builtins result)))
    some (derive_address platform (format_value builtins key) (format_value builtins result))

  -- `import_delta` up to its writes. The address and the scope of the delta are texts by then.
  unfoldable pub accept_delta : Bytes → Option RouteRecord
  accept_delta encoded = do
    delta ← decode_reference_delta builtins encoded
    payload ← as_text delta.payload_or_reference
    payload_bytes ← encode_utf8 payload
    require (equals_text delta.integrity_digest (sha256 payload_bytes))
    eligible ← is_in shared_scopes delta.scope
    require eligible
    raw ← loads payload
    condition_key ← get_key raw (codes "condition_key")
    result ← get_key raw (codes "result")
    version_value ← get_key raw (codes "version")
    version ← int version_value
    expected_address ← derive_address_value condition_key result
    require (equals_text delta.trajectory_address expected_address)
    scope ← as_text delta.scope
    some (record {
      trajectory_address = expected_address;
      condition_key = condition_key;
      result = result;
      version = version;
      scope = scope;
    })

  unfoldable pub import_delta : RouteMemory → Bytes → RouteMemory × Option RouteRecord
  import_delta m encoded = elim (accept_delta encoded) [ none ↦ (m, none) | some r ↦ store m r ]
