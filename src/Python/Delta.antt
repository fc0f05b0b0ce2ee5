-- ===== src/Python/Delta.antt =====
-- `ReferenceDelta` of reference/python/ma2a/wire.py, and how it is decoded. Its fields are values of
-- any type, as `json.loads` returned them. An exception is `none`.
use ma2a.Base.{
  ◌*◌, not, ◌&&◌, Bytes, codes, length, leb, ℕ, List, [], ◌∷◌, Option, none, some, Bool,
}
use ma2a.Python.{Text}
use ma2a.Python.Values.{
  JsonValue, dict_value, JsonMembers, Builtins, ◌>>=◌, ◌>>◌, require, is_in, get_member,
  member_keys, is_subset, is_negative, is_falsy,
}

pub record ReferenceDelta : Type 0 where
  pub protocol_version : JsonValue
  pub message_id : JsonValue
  pub sender_id : JsonValue
  pub organization_id : JsonValue
  pub trajectory_address : JsonValue
  pub base_version : JsonValue
  pub new_version : JsonValue
  pub operation : JsonValue
  pub scope : JsonValue
  pub payload_or_reference : JsonValue
  pub integrity_digest : JsonValue
  pub logical_clock : JsonValue
  pub signature : JsonValue

abbrev pub allowed_operations : List Text
allowed_operations =
    codes "SET" ∷ codes "PATCH" ∷ codes "DELETE" ∷ codes "LINK" ∷ codes "TOMBSTONE" ∷ []

abbrev pub allowed_scopes : List Text
allowed_scopes = codes "private" ∷ codes "user" ∷ codes "shared" ∷ codes "global" ∷ []

abbrev pub max_reference_delta_bytes : ℕ
max_reference_delta_bytes = 64 * 1024

abbrev pub required_fields : List Text
required_fields =
    codes "protocol_version"
    ∷ codes "message_id"
    ∷ codes "sender_id"
    ∷ codes "organization_id"
    ∷ codes "trajectory_address"
    ∷ codes "base_version"
    ∷ codes "new_version"
    ∷ codes "operation"
    ∷ codes "scope"
    ∷ codes "payload_or_reference"
    ∷ codes "integrity_digest"
    ∷ codes "logical_clock"
    ∷ codes "signature"
    ∷ []

-- `isinstance(raw, dict)`
unfoldable pub as_dict : JsonValue → Option JsonMembers
as_dict (dict_value members) = some members
as_dict _ = none

-- `set(raw) == required`
unfoldable pub has_required : JsonMembers → Bool
has_required members =
    is_subset (member_keys members) required_fields
    && is_subset required_fields (member_keys members)

-- `ReferenceDelta(**raw)`
unfoldable pub read_delta : JsonMembers → Option ReferenceDelta
read_delta members = do
  protocol_version ← get_member members (codes "protocol_version")
  message_id ← get_member members (codes "message_id")
  sender_id ← get_member members (codes "sender_id")
  organization_id ← get_member members (codes "organization_id")
  trajectory_address ← get_member members (codes "trajectory_address")
  base_version ← get_member members (codes "base_version")
  new_version ← get_member members (codes "new_version")
  operation ← get_member members (codes "operation")
  scope ← get_member members (codes "scope")
  payload_or_reference ← get_member members (codes "payload_or_reference")
  integrity_digest ← get_member members (codes "integrity_digest")
  logical_clock ← get_member members (codes "logical_clock")
  signature ← get_member members (codes "signature")
  some (record {
    protocol_version = protocol_version;
    message_id = message_id;
    sender_id = sender_id;
    organization_id = organization_id;
    trajectory_address = trajectory_address;
    base_version = base_version;
    new_version = new_version;
    operation = operation;
    scope = scope;
    payload_or_reference = payload_or_reference;
    integrity_digest = integrity_digest;
    logical_clock = logical_clock;
    signature = signature;
  })

module _ (builtins : Builtins) where
  open builtins use {decode, loads}

  unfoldable pub validate_delta : ReferenceDelta → Option (Unit {0})
  validate_delta delta = do
    known ← is_in allowed_operations delta.operation
    require known
    allowed ← is_in allowed_scopes delta.scope
    require allowed
    negative_base ← is_negative builtins delta.base_version
    require (not negative_base)
    negative_new ← is_negative builtins delta.new_version
    require (not negative_new)
    negative_clock ← is_negative builtins delta.logical_clock
    require (not negative_clock)
    require (not (is_falsy builtins delta.message_id))
    require (not (is_falsy builtins delta.sender_id))
    require (not (is_falsy builtins delta.organization_id))
    require (not (is_falsy builtins delta.trajectory_address))

  unfoldable pub decode_reference_delta : Bytes → Option ReferenceDelta
  decode_reference_delta encoded = do
    require (leb (length encoded) max_reference_delta_bytes)
    text ← decode encoded
    raw ← loads text
    members ← as_dict raw
    require (has_required members)
    delta ← read_delta members
    validate_delta delta
    some delta
