-- ===== src/Python/Capability.antt =====
-- `CapabilityAdvertisement` of reference/python/ma2a/capability.py. Python's `float` is a
-- parameter.
pub mod Signed
use ma2a.Base.{
  Bool, true, false, not, ◌&&◌, ◌||◌, Bytes, codes, bytes_eq, is_empty, List, [], ◌∷◌, Option, none,
  some, if◌then◌else◌, Result, ok, ◌>>◌, throw_if, missing_capability_field, negative_sequence,
  invalid_window, capability_outside_window, negative_capacity, load_out_of_range, scopes_empty,
  invalid_scope, unsupported_algorithm,
}
use ma2a.Base.Int.{ℤ, is_negative, leb_ℤ}
use ma2a.Python.{Text, Members, number, boolean, float, text, array, end, member, canonical_json}
use ma2a.Python.Messages.{optional_text}
use ma2a.Python.Packages.{Cryptography, verify_text, unless_raised}
use ma2a.Python.Auth.{contains, sorted_set, text_items}

-- `float`: its comparisons, the two constants, and what `json.dumps` prints of one
pub record Floats : Type 1 where
  pub Float : Type 0
  pub lt : Float → Float → Bool
  pub le : Float → Float → Bool
  pub zero_float : Float
  pub one_float : Float
  pub repr : Float → Bytes

-- `_ALLOWED_SCOPES`
abbrev pub allowed_scopes : List Text
allowed_scopes = codes "LOCAL_ONLY" ∷ codes "PRIVATE" ∷ codes "ORGANIZATION" ∷ codes "PUBLIC" ∷ []

-- `any(scope not in _ALLOWED_SCOPES for scope in scopes)`
unfoldable pub has_unknown : List Text → Bool
has_unknown [] = false
has_unknown (scope ∷ scopes) = not (contains allowed_scopes scope) || has_unknown scopes

module _ (fl : Floats) where
  open fl use {Float}

  pub record CapabilityAdvertisement : Type 0 where
    pub protocol_version : Text
    pub message_id : Text
    pub node_id : Text
    pub organization_id : Option Text
    pub sequence : ℤ
    pub issued_at : ℤ
    pub expires_at : ℤ
    pub available : Bool
    pub compute_capacity : Float
    pub current_load : Float
    pub models : List Text
    pub memory_domains : List Text
    pub supported_scopes : List Text
    pub signature_algorithm : Text
    pub signature : Text

  -- `CapabilityAdvertisement.unsigned_payload`
  unfoldable pub unsigned_advertisement : CapabilityAdvertisement → Members
  unsigned_advertisement a = member "protocol_version" (text a.protocol_version) (
      member "message_id" (text a.message_id) (
        member "node_id" (text a.node_id) (
          member "organization_id" (optional_text a.organization_id) (
            member "sequence" (number a.sequence) (
              member "issued_at" (number a.issued_at) (
                member "expires_at" (number a.expires_at) (
                  member "available" (boolean a.available) (
                    member "compute_capacity" (float (fl.repr a.compute_capacity)) (
                      member "current_load" (float (fl.repr a.current_load)) (
                        member "models" (array (text_items a.models)) (
                          member "memory_domains" (array (text_items a.memory_domains)) (
                            member "supported_scopes" (array (text_items a.supported_scopes)) (
                              member "signature_algorithm" (text a.signature_algorithm)
                                end)))))))))))))

  -- `now is not None and not issued_at <= int(now) <= expires_at`
  unfoldable pub is_expired : CapabilityAdvertisement → Option ℤ → Bool
  is_expired a none = false
  is_expired a (some now) = not (leb_ℤ a.issued_at now && leb_ℤ now a.expires_at)

  -- `CapabilityAdvertisement.validate`
  unfoldable pub validate_advertisement : CapabilityAdvertisement → Option ℤ → Result (Unit {0})
  validate_advertisement a now = do
    throw_if (is_empty a.protocol_version || is_empty a.message_id || is_empty a.node_id)
        missing_capability_field
    throw_if (is_negative a.sequence) negative_sequence
    throw_if (is_negative a.issued_at || leb_ℤ a.expires_at a.issued_at) invalid_window
    throw_if (is_expired a now) capability_outside_window
    throw_if (fl.lt a.compute_capacity fl.zero_float) negative_capacity
    throw_if (not (fl.le fl.zero_float a.current_load && fl.le a.current_load fl.one_float))
        load_out_of_range
    throw_if (is_empty a.supported_scopes) scopes_empty
    throw_if (has_unknown a.supported_scopes) invalid_scope
    throw_if (not (bytes_eq a.signature_algorithm (codes "Ed25519"))) unsupported_algorithm

  -- What `sign_capability_advertisement` signs.
  unfoldable pub normalized : CapabilityAdvertisement → CapabilityAdvertisement
  normalized a = record a {
    models = sorted_set a.models;
    memory_domains = sorted_set a.memory_domains;
    supported_scopes = sorted_set a.supported_scopes;
    signature_algorithm = codes "Ed25519";
    signature = [];
  }

  module _ (py : Cryptography) where
    unfoldable pub sign_advertisement :
        CapabilityAdvertisement → py.PrivateKey → Result CapabilityAdvertisement
    sign_advertisement a private_key = do
      validate_advertisement a none
      let unsigned = normalized a
      let signature = py.sign private_key (canonical_json (unsigned_advertisement unsigned))
      ok (record unsigned { signature = py.urlsafe_b64encode signature })

    unfoldable pub verify_advertisement : CapabilityAdvertisement → py.PublicKey → Option ℤ → Bool
    verify_advertisement a public_key now = unless_raised (validate_advertisement a now) (
        if is_empty a.signature
        then false
        else verify_text py public_key a.signature (canonical_json (unsigned_advertisement a)))
