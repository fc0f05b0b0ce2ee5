-- ===== src/Python/Auth/Handshake.antt =====
-- `HandshakeVerifier.verify` of reference/python/ma2a/auth.py. The verifier's state is the set of
-- the challenges that are consumed; a verdict is whether the peer is authenticated, and a reason.
pub mod Conditions
pub mod Accepted
pub mod Replay
pub mod Honest
use ma2a.Base.{
  Bool, true, false, not, ◌&&◌, ◌||◌, is_empty, bytes_eq, codes, List, [], ◌∷◌, Option, none, some,
  if◌then◌else◌,
}
use ma2a.Base.Int.{ℤ, leb_ℤ}
use ma2a.Python.{Text}
use ma2a.Python.Packages.{Cryptography, unb64, verify_text}
use ma2a.Python.Auth.{subject_key, contains, Certificate, Challenge, transcript, verify_certificate}

-- `required_capability and required_capability not in capabilities`
unfoldable pub lacks : Option Text → List Text → Bool
lacks none capabilities = false
lacks (some t) capabilities = not (is_empty t) && not (contains capabilities t)

abbrev pub Verdict : Type 0
Verdict = Bool × Text

module _ (py : Cryptography) where
  open py use {PublicKey}

  -- The arguments of `verify`.
  pub record Response : Type 0 where
    pub challenge : Challenge
    pub signature : Text
    pub device_certificate : Certificate
    pub organization_certificate : Certificate
    pub root_public_key : PublicKey
    pub organization_status : Text
    pub required_capability : Option Text
    pub now : ℤ
    pub device_status : Text

  -- The last `try` block.
  unfoldable pub verify_signature : Response → Bool
  verify_signature r = elim (subject_key py r.device_certificate.subject_public_key) [
    | none ↦ false
    | some device_public_key ↦ verify_text py device_public_key r.signature (transcript r.challenge)
  ]

  -- What follows the first `try` block.
  unfoldable pub verify_device : List Text → Response → PublicKey → List Text × Verdict
  verify_device consumed r organization_public_key =
      if not (bytes_eq r.device_certificate.issuer_id r.organization_certificate.subject_id)
      then (consumed, (false, codes "invalid_delegation"))
      else if not (verify_certificate py r.device_certificate organization_public_key r.now)
      then (consumed, (false, codes "invalid_device_certificate"))
      else if lacks r.required_capability r.device_certificate.capabilities
      then (consumed, (false, codes "unauthorized_capability"))
      else if not (verify_signature r)
      then (consumed, (false, codes "invalid_signature"))
      else (r.challenge.challenge_id ∷ consumed, (true, codes "ok"))

  unfoldable pub verify : List Text → Response → List Text × Verdict
  verify consumed r =
      if contains consumed r.challenge.challenge_id
      then (consumed, (false, codes "replay"))
      else if not (leb_ℤ r.challenge.issued_at r.now && leb_ℤ r.now r.challenge.expires_at)
      then (consumed, (false, codes "expired_challenge"))
      else if not (bytes_eq r.organization_status (codes "ACTIVE"))
      then (consumed, (false, codes "inactive_organization"))
      else if not (bytes_eq r.device_status (codes "ACTIVE"))
      then (consumed, (false, codes "inactive_device"))
      else if not (bytes_eq r.organization_certificate.subject_kind (codes "organization"))
      then (consumed, (false, codes "invalid_organization_certificate"))
      else if not (contains (codes "device" ∷ codes "agent" ∷ []) r.device_certificate.subject_kind)
      then (consumed, (false, codes "invalid_device_certificate"))
      else if not (bytes_eq r.organization_certificate.subject_id r.challenge.organization_id)
      then (consumed, (false, codes "organization_mismatch"))
      else if not (bytes_eq r.device_certificate.subject_id r.challenge.agent_or_device_id)
      then (consumed, (false, codes "subject_mismatch"))
      else if not (verify_certificate py r.organization_certificate r.root_public_key r.now)
      then (consumed, (false, codes "invalid_organization_certificate"))
      else elim (subject_key py r.organization_certificate.subject_public_key) [
        | none ↦ (consumed, (false, codes "invalid_organization_certificate"))
        | some organization_public_key ↦ verify_device consumed r organization_public_key
      ]
