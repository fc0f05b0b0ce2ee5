-- ===== src/Python/Auth.antt =====
-- reference/python/ma2a/auth.py: certificates, challenges and what both sign. The random texts of
-- `secrets` are arguments.
pub mod Keys
pub mod Certificates
pub mod Sets
pub mod Issuing
pub mod Binding
pub mod Handshake
use ma2a.Base.{
  Bool, true, false, not, ◌&&◌, ◌||◌, ◌==◌, Bytes, bytes_eq, codes, List, [], ◌∷◌, Option, none,
  some, if◌then◌else◌,
}
use ma2a.Base.Int.{ℤ, pos, leb_ℤ, ◌+ℤ◌}
use ma2a.Python.{
  Text, Items, nil, item, Members, number, text, array, end, member, text_lt, canonical_json,
}
use ma2a.Python.Order.{eq_ℤ}
use ma2a.Python.Packages.{Cryptography, unb64, verify_text}

-- `sorted(set(texts))`
unfoldable pub insert_text : Text → List Text → List Text
insert_text t [] = t ∷ []
insert_text t (u ∷ us) =
    if text_lt t u then t ∷ u ∷ us else if bytes_eq t u then u ∷ us else u ∷ insert_text t us

unfoldable pub sorted_set : List Text → List Text
sorted_set [] = []
sorted_set (t ∷ ts) = insert_text t (sorted_set ts)

-- A list of texts, as a value.
unfoldable pub text_items : List Text → Items
text_items [] = nil
text_items (t ∷ ts) = item (text t) (text_items ts)

-- `t in texts`
unfoldable pub contains : List Text → Text → Bool
contains [] t = false
contains (u ∷ us) t = bytes_eq t u || contains us t

pub record Certificate : Type 0 where
  pub version : ℤ
  pub serial : Text
  pub subject_id : Text
  pub subject_kind : Text
  pub subject_public_key : Text
  pub issuer_id : Text
  pub not_before : ℤ
  pub not_after : ℤ
  pub capabilities : List Text
  pub signature_algorithm : Text
  pub issuer_signature : Text

-- `Certificate.unsigned_payload`
unfoldable pub unsigned_payload : Certificate → Members
unsigned_payload c = member "version" (number c.version) (
    member "serial" (text c.serial) (
      member "subject_id" (text c.subject_id) (
        member "subject_kind" (text c.subject_kind) (
          member "subject_public_key" (text c.subject_public_key) (
            member "issuer_id" (text c.issuer_id) (
              member "not_before" (number c.not_before) (
                member "not_after" (number c.not_after) (
                  member "capabilities" (array (text_items c.capabilities))
                    (member "signature_algorithm" (text c.signature_algorithm) end)))))))))

pub record Challenge : Type 0 where
  pub challenge_id : Text
  pub client_nonce : Text
  pub server_nonce : Text
  pub organization_id : Text
  pub agent_or_device_id : Text
  pub protocol_version : Text
  pub selected_capabilities : List Text
  pub issued_at : ℤ
  pub expires_at : ℤ

-- The dictionary that `Challenge.transcript` prints.
abbrev pub transcript_dict : Challenge → Members
transcript_dict c = member "challenge_id" (text c.challenge_id) (
    member "client_nonce" (text c.client_nonce) (
      member "server_nonce" (text c.server_nonce) (
        member "organization_id" (text c.organization_id) (
          member "agent_or_device_id" (text c.agent_or_device_id) (
            member "protocol_version" (text c.protocol_version)
              (member "selected_capabilities" (array (text_items c.selected_capabilities)) end))))))

unfoldable pub transcript : Challenge → Bytes
transcript c = canonical_json (transcript_dict c)

-- `none` is the `ValueError` of a lifetime that is not positive.
unfoldable pub make_challenge :
    (challenge_id server_nonce organization_id agent_or_device_id client_nonce
      protocol_version : Text)
    → List Text
    → (now ttl_seconds : ℤ) → Option Challenge
make_challenge challenge_id server_nonce organization_id agent_or_device_id client_nonce
      protocol_version selected_capabilities now ttl_seconds =
    if leb_ℤ ttl_seconds (pos 0)
    then none
    else some (record {
      challenge_id = challenge_id;
      client_nonce = client_nonce;
      server_nonce = server_nonce;
      organization_id = organization_id;
      agent_or_device_id = agent_or_device_id;
      protocol_version = protocol_version;
      selected_capabilities = sorted_set selected_capabilities;
      issued_at = now;
      expires_at = now +ℤ ttl_seconds;
    })

module _ (py : Cryptography) where
  open py use {PrivateKey, PublicKey}

  unfoldable pub issue_certificate :
      (serial issuer_id : Text)
      → PrivateKey
      → (subject_id subject_kind : Text) → PublicKey
      → (not_before not_after : ℤ) → List Text
      → Certificate
  issue_certificate serial issuer_id issuer_private_key subject_id subject_kind subject_public_key
        not_before not_after capabilities =
      let unsigned : Certificate = record {
        version = pos 1;
        serial = serial;
        subject_id = subject_id;
        subject_kind = subject_kind;
        subject_public_key = py.urlsafe_b64encode (py.public_bytes_raw subject_public_key);
        issuer_id = issuer_id;
        not_before = not_before;
        not_after = not_after;
        capabilities = sorted_set capabilities;
        signature_algorithm = codes "Ed25519";
        issuer_signature = [];
      } in
      let signature = py.sign issuer_private_key (canonical_json (unsigned_payload unsigned)) in
      record unsigned { issuer_signature = py.urlsafe_b64encode signature }

  unfoldable pub verify_certificate : Certificate → PublicKey → ℤ → Bool
  verify_certificate cert issuer_public_key now =
      if not (eq_ℤ cert.version (pos 1))
      then false
      else if not (bytes_eq cert.signature_algorithm (codes "Ed25519"))
      then false
      else if not (leb_ℤ cert.not_before now && leb_ℤ now cert.not_after)
      then false
      else verify_text py issuer_public_key cert.issuer_signature
          (canonical_json (unsigned_payload cert))

  -- `Ed25519PublicKey.from_public_bytes(_unb64(public_key))`
  unfoldable pub subject_key : Text → Option PublicKey
  subject_key public_key = elim (unb64 py public_key) [
    | none ↦ none
    | some s ↦ py.from_public_bytes s
  ]

  unfoldable pub sign_challenge : Challenge → PrivateKey → Text
  sign_challenge challenge private_key =
      py.urlsafe_b64encode (py.sign private_key (transcript challenge))
