-- ===== src/Python/Auth/Handshake/Honest.antt =====
-- A handshake of reference/python/ma2a/auth.py in which everyone does its part.
use ma2a.Base.{◌≡◌, refl, sym, ap, ◌∙◌, true, codes, List, [], ◌∷◌, Option, some, arith}
use ma2a.Base.Int.{ℤ, ◌≤ℤ◌, ◌+ℤ◌}
use ma2a.Python.{Text}
use ma2a.Python.Packages.{Cryptography}
use ma2a.Python.Auth.{Challenge, transcript, make_challenge, issue_certificate, sign_challenge}
use ma2a.Python.Auth.Keys.{IsPair, verify_text-sign, subject_key-urlsafe_b64encode}
use ma2a.Python.Auth.Certificates.{Capable, Listed, verify_text_iff}
use ma2a.Python.Auth.Issuing.{Capable-sorted_set, issue_certificate-IsCertified}
use ma2a.Python.Auth.Handshake.{Response, verify}
use ma2a.Python.Auth.Handshake.Accepted.{verify_iff}
use ma2a.Python.Auth.Handshake.Conditions.{IsAuthentic}

make_challenge_inv :
    (challenge_id server_nonce organization_id device_id client_nonce protocol_version : Text)
    (selected : List Text) (issued ttl : ℤ) (c : Challenge)
    → make_challenge challenge_id server_nonce organization_id device_id client_nonce
        protocol_version selected issued ttl
      ≡ some c
    → (c.challenge_id ≡ challenge_id)
      × (c.organization_id ≡ organization_id)
      × (c.agent_or_device_id ≡ device_id)
      × (c.issued_at ≡ issued)
      × (c.expires_at ≡ issued +ℤ ttl)
unfolding make_challenge
make_challenge_inv challenge_id server_nonce organization_id device_id client_nonce protocol_version
      selected issued ttl c h =
    ground arith

-- The keys of the root, of an organization and of a device, each with the private one.
pub record Chain (py : Cryptography) : Type 0 where
  pub root : py.PrivateKey
  pub root_key : py.PublicKey
  pub root_pair : IsPair py root root_key
  pub organization : py.PrivateKey
  pub organization_key : py.PublicKey
  pub organization_pair : IsPair py organization organization_key
  pub device : py.PrivateKey
  pub device_key : py.PublicKey
  pub device_pair : IsPair py device device_key

-- The texts and times of a handshake.
pub record Terms : Type 0 where
  pub challenge_id : Text
  pub server_nonce : Text
  pub client_nonce : Text
  pub protocol_version : Text
  pub root_id : Text
  pub organization_id : Text
  pub device_id : Text
  pub device_kind : Text
  pub organization_serial : Text
  pub device_serial : Text
  pub selected : List Text
  pub organization_capabilities : List Text
  pub device_capabilities : List Text
  pub required : Option Text
  pub organization_from : ℤ
  pub organization_until : ℤ
  pub device_from : ℤ
  pub device_until : ℤ
  pub issued : ℤ
  pub ttl : ℤ
  pub now : ℤ

-- All are of one time, and the device has a role and the capability that is asked for.
pub record IsTimely (t : Terms) : Type 0 where
  pub issued : t.issued ≤ℤ t.now
  pub unexpired : t.now ≤ℤ (t.issued +ℤ t.ttl)
  pub organization_from : t.organization_from ≤ℤ t.now
  pub organization_until : t.now ≤ℤ t.organization_until
  pub device_from : t.device_from ≤ℤ t.now
  pub device_until : t.now ≤ℤ t.device_until
  pub role : Listed t.device_kind (codes "device" ∷ codes "agent" ∷ [])
  pub capable : Capable t.required t.device_capabilities

module _ (py : Cryptography) (keys : Chain py) (t : Terms) where
  abbrev pub issued_challenge : Option Challenge
  issued_challenge =
      make_challenge t.challenge_id t.server_nonce t.organization_id t.device_id t.client_nonce
        t.protocol_version t.selected t.issued t.ttl

  -- What the device and the server hand to the verifier.
  abbrev pub response : Challenge → Response py
  response c = record {
    challenge = c;
    signature = sign_challenge py c keys.device;
    device_certificate =
        issue_certificate py t.device_serial t.organization_id keys.organization t.device_id
          t.device_kind keys.device_key t.device_from t.device_until t.device_capabilities;
    organization_certificate =
        issue_certificate py t.organization_serial t.root_id keys.root t.organization_id
          (codes "organization") keys.organization_key t.organization_from t.organization_until
          t.organization_capabilities;
    root_public_key = keys.root_key;
    organization_status = codes "ACTIVE";
    required_capability = t.required;
    now = t.now;
    device_status = codes "ACTIVE";
  }

  response-IsAuthentic :
      (consumed : List Text) (c : Challenge)
      → issued_challenge ≡ some c
      → IsTimely t
      → ¬ Listed t.challenge_id consumed
      → IsAuthentic py consumed (response c)
  response-IsAuthentic consumed c made timely new =
      let (id, organization, device, issued, expires) =
        make_challenge_inv t.challenge_id t.server_nonce t.organization_id t.device_id
          t.client_nonce t.protocol_version t.selected t.issued t.ttl c made in
      record {
        unused = rw id new;
        issued = rw issued timely.issued;
        unexpired = rw expires timely.unexpired;
        organization_active = refl;
        device_active = refl;
        organization_kind = unfold issue_certificate in refl;
        device_kind = unfold issue_certificate in timely.role;
        organization = unfold issue_certificate in sym organization;
        device = unfold issue_certificate in sym device;
        organization_certified =
            issue_certificate-IsCertified py t.organization_serial t.root_id t.organization_id
              (codes "organization") keys.root keys.root_key keys.organization_key t.now
              t.organization_from t.organization_until t.organization_capabilities keys.root_pair
              timely.organization_from timely.organization_until;
        organization_key = keys.organization_key;
        of_organization =
            unfold issue_certificate in
            subject_key-urlsafe_b64encode py keys.organization keys.organization_key
              keys.organization_pair;
        delegated = unfold issue_certificate in refl;
        device_certified =
            issue_certificate-IsCertified py t.device_serial t.organization_id t.device_id
              t.device_kind keys.organization keys.organization_key keys.device_key t.now
              t.device_from t.device_until t.device_capabilities keys.organization_pair
              timely.device_from timely.device_until;
        capable =
            unfold issue_certificate in
            Capable-sorted_set t.required t.device_capabilities timely.capable;
        device_key = keys.device_key;
        of_device =
            unfold issue_certificate in
            subject_key-urlsafe_b64encode py keys.device keys.device_key keys.device_pair;
        signed = (verify_text_iff py keys.device_key _ _).0 (
            unfold sign_challenge in
            verify_text-sign py keys.device keys.device_key keys.device_pair (transcript c));
      }

  -- The verifier accepts a response to a challenge that `make_challenge` makes, and consumes it, if
  -- it is not consumed; if the root issued the organization's certificate, the organization the
  -- device's one, and the device signed the challenge; if both are active, the time is in that of the
  -- challenge and of the certificates, and the device has a role and the capability that is asked for;
  -- and if the packages do with the keys what they document.
  pub verify-response :
      (consumed : List Text) (c : Challenge)
      → issued_challenge ≡ some c
      → IsTimely t
      → ¬ Listed t.challenge_id consumed
      → verify py consumed (response c) ≡ (t.challenge_id ∷ consumed, (true, codes "ok"))
  verify-response consumed c made timely new =
      (verify_iff py consumed (response c)).1 (response-IsAuthentic consumed c made timely new)
      ∙ ap (λ (i : Text). (i ∷ consumed, (true, codes "ok")))
          (make_challenge_inv t.challenge_id t.server_nonce t.organization_id t.device_id
            t.client_nonce t.protocol_version t.selected t.issued t.ttl c made).0
