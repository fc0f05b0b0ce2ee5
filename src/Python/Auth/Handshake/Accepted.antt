-- ===== src/Python/Auth/Handshake/Accepted.antt =====
-- The responses that a verifier of reference/python/ma2a/auth.py accepts.
use ma2a.Base.{◌≡◌, ◌≢◌, inl, inr, ◌↔◌, true, Option-cases, codes, List, ◌∷◌, none, some, arith}
use ma2a.Python.{Text}
use ma2a.Python.Packages.{Cryptography}
use ma2a.Python.Auth.{subject_key}
use ma2a.Python.Auth.Handshake.Conditions.{
  IsAuthentic, Admits, Delegates, Admits-IsAuthentic, IsAuthentic-Admits, IsAuthentic-Delegates,
}
use ma2a.Python.Auth.Handshake.{Verdict, Response, verify_device, verify}

module _ (py : Cryptography) where
  open py use {PublicKey}

  abbrev taken : List Text → Response py → List Text × Verdict
  taken consumed r = (r.challenge.challenge_id ∷ consumed, (true, codes "ok"))

  verify_device_iff :
      (consumed : List Text) (r : Response py) (key : PublicKey)
      → (verify_device py consumed r key ≡ taken consumed r) ↔ Delegates py r key
  unfolding verify_device
  verify_device_iff consumed r key = ground arith

  verify-Admits :
      (consumed : List Text) (r : Response py) (key : PublicKey)
      → subject_key py r.organization_certificate.subject_public_key ≡ some key
      → (verify py consumed r ≡ taken consumed r) ↔ (Admits py consumed r × Delegates py r key)
  unfolding verify
  verify-Admits consumed r key h = ground (arith, verify_device_iff consumed r key)

  verify_no_key :
      (consumed : List Text) (r : Response py)
      → subject_key py r.organization_certificate.subject_public_key ≡ none
      → verify py consumed r ≢ taken consumed r
  unfolding verify
  verify_no_key consumed r h = ground arith

  -- A verifier accepts a response, and consumes its challenge, exactly when the challenge is not
  -- consumed, its time has begun and is not over, both statuses are `ACTIVE`, the certificates are
  -- of an organization and of a device or an agent and name those of the challenge, the root's key
  -- signed the organization's one, the device's one names the organization as its issuer and the key
  -- of the organization's one signed it, both are of version 1 and of Ed25519 and valid at the time,
  -- the device has the capability that is asked for, if one is, and the key of its certificate signed
  -- the challenge's transcript.
  pub verify_iff :
      (consumed : List Text) (r : Response py)
      → (verify py consumed r ≡ taken consumed r) ↔ IsAuthentic py consumed r
  verify_iff consumed r = (sound, complete)
    where
      sound : verify py consumed r ≡ taken consumed r → IsAuthentic py consumed r
      sound h = elim (Option-cases (subject_key py r.organization_certificate.subject_public_key)) [
        | inl e ↦ absurd (verify_no_key consumed r e h)
        | inr (key, e) ↦
            let (admits, delegates) = (verify-Admits consumed r key e).0 h in
            Admits-IsAuthentic py consumed r key e admits delegates
      ]

      complete : IsAuthentic py consumed r → verify py consumed r ≡ taken consumed r
      complete a =
          (verify-Admits consumed r a.organization_key a.of_organization).1
            (IsAuthentic-Admits py consumed r a, IsAuthentic-Delegates py consumed r a)
