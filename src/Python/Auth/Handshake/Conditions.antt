-- ===== src/Python/Auth/Handshake/Conditions.antt =====
-- What the verifier of reference/python/ma2a/auth.py tests of a response.
use ma2a.Base.{
  ◌≡◌, inl, inr, ◌↔◌, Bool, true, false, Bool-cases, Option-cases, bytes_eq, bytes_eq_iff, codes,
  List, [], ◌∷◌, Option, none, some, arith,
}
use ma2a.Base.Int.{leb_ℤ, ◌≤ℤ◌}
use ma2a.Python.{Text}
use ma2a.Python.Packages.{Cryptography}
use ma2a.Python.Auth.{subject_key, contains, transcript, verify_certificate}
use ma2a.Python.Auth.Certificates.{
  Capable, leb_ℤ_iff, Listed, contains_iff, IsSigned, IsCertified, verify_text_iff,
  verify_certificate_iff,
}
use ma2a.Python.Auth.Handshake.{lacks, Response, verify_signature}

lacks_iff : (o : Option Text) (us : List Text) → (lacks o us ≡ false) ↔ Capable o us
unfolding lacks
lacks_iff none us = ground arith
lacks_iff (some []) us = ground arith
lacks_iff (some (c ∷ t)) us = ground (arith, contains_iff us (c ∷ t))

absurd_test : {b : Bool} → b ≡ false → b ≡ true → ⊥
absurd_test h k = ground arith

module _ (py : Cryptography) where
  open py use {PublicKey}

  subject_signed :
      (r : Response py)
      → (verify_signature py r ≡ true) ↔ (
          (key : PublicKey) × (subject_key py r.device_certificate.subject_public_key ≡ some key)
          × IsSigned py key r.signature (transcript r.challenge))
  unfolding verify_signature
  subject_signed r = (sound, complete)
    where
      sound :
          verify_signature py r ≡ true
          → (key : PublicKey) × (subject_key py r.device_certificate.subject_public_key ≡ some key)
            × IsSigned py key r.signature (transcript r.challenge)
      sound h = elim (Option-cases (subject_key py r.device_certificate.subject_public_key)) [
        | inl e ↦ absurd (ground arith)
        | inr (k, e) ↦
            (k, e, (verify_text_iff py k r.signature (transcript r.challenge)).0 (ground arith))
      ]

      complete :
          (key : PublicKey) × (subject_key py r.device_certificate.subject_public_key ≡ some key)
            × IsSigned py key r.signature (transcript r.challenge)
          → verify_signature py r ≡ true
      complete (k, e, h) =
          rw (e, verify_signature) ((verify_text_iff py k r.signature (transcript r.challenge)).1 h)

  -- What the server must verify of a response.
  pub record IsAuthentic (consumed : List Text) (r : Response py) : Type 0 where
    pub unused : ¬ Listed r.challenge.challenge_id consumed
    pub issued : r.challenge.issued_at ≤ℤ r.now
    pub unexpired : r.now ≤ℤ r.challenge.expires_at
    pub organization_active : r.organization_status ≡ codes "ACTIVE"
    pub device_active : r.device_status ≡ codes "ACTIVE"
    pub organization_kind : r.organization_certificate.subject_kind ≡ codes "organization"
    pub device_kind : Listed r.device_certificate.subject_kind (codes "device" ∷ codes "agent" ∷ [])
    pub organization : r.organization_certificate.subject_id ≡ r.challenge.organization_id
    pub device : r.device_certificate.subject_id ≡ r.challenge.agent_or_device_id
    pub organization_certified : IsCertified py r.root_public_key r.now r.organization_certificate
    pub organization_key : PublicKey
    pub of_organization :
        subject_key py r.organization_certificate.subject_public_key ≡ some organization_key
    pub delegated : r.device_certificate.issuer_id ≡ r.organization_certificate.subject_id
    pub device_certified : IsCertified py organization_key r.now r.device_certificate
    pub capable : Capable r.required_capability r.device_certificate.capabilities
    pub device_key : PublicKey
    pub of_device : subject_key py r.device_certificate.subject_public_key ≡ some device_key
    pub signed : IsSigned py device_key r.signature (transcript r.challenge)

  -- The Boolean tests before the first `try` block.
  abbrev pub Admits : List Text → Response py → Type 0
  Admits consumed r =
      ((contains consumed r.challenge.challenge_id ≡ false)
        × (leb_ℤ r.challenge.issued_at r.now ≡ true)
        × (leb_ℤ r.now r.challenge.expires_at ≡ true)
        × (bytes_eq r.organization_status (codes "ACTIVE") ≡ true)
        × (bytes_eq r.device_status (codes "ACTIVE") ≡ true)
        × (bytes_eq r.organization_certificate.subject_kind (codes "organization") ≡ true)
        × (contains (codes "device" ∷ codes "agent" ∷ []) r.device_certificate.subject_kind ≡ true)
        × (bytes_eq r.organization_certificate.subject_id r.challenge.organization_id ≡ true)
        × (bytes_eq r.device_certificate.subject_id r.challenge.agent_or_device_id ≡ true)
        × (verify_certificate py r.organization_certificate r.root_public_key r.now ≡ true))

  -- The Boolean tests after it.
  abbrev pub Delegates : Response py → PublicKey → Type 0
  Delegates r key =
      ((bytes_eq r.device_certificate.issuer_id r.organization_certificate.subject_id ≡ true)
        × (verify_certificate py r.device_certificate key r.now ≡ true)
        × (lacks r.required_capability r.device_certificate.capabilities ≡ false)
        × (verify_signature py r ≡ true))

  pub Admits-IsAuthentic :
      (consumed : List Text) (r : Response py) (key : PublicKey)
      → subject_key py r.organization_certificate.subject_public_key ≡ some key
      → Admits consumed r
      → Delegates r key
      → IsAuthentic consumed r
  Admits-IsAuthentic consumed r key of_organization
        (
          unused, issued, unexpired, organization, device, kind, device_kind, id, device_id,
          certified,
        )
        (delegated, device_certified, capable, signed) =
      let (device_key, of_device, signed_by) = (subject_signed r).0 signed in
      record {
        unused = λ listed.
            absurd_test unused ((contains_iff consumed r.challenge.challenge_id).1 listed);
        issued = (leb_ℤ_iff r.challenge.issued_at r.now).0 issued;
        unexpired = (leb_ℤ_iff r.now r.challenge.expires_at).0 unexpired;
        organization_active = (bytes_eq_iff r.organization_status (codes "ACTIVE")).0 organization;
        device_active = (bytes_eq_iff r.device_status (codes "ACTIVE")).0 device;
        organization_kind =
            (bytes_eq_iff r.organization_certificate.subject_kind (codes "organization")).0 kind;
        device_kind =
            (contains_iff (codes "device" ∷ codes "agent" ∷ []) r.device_certificate.subject_kind).0
              device_kind;
        organization =
            (bytes_eq_iff r.organization_certificate.subject_id r.challenge.organization_id).0 id;
        device =
            (bytes_eq_iff r.device_certificate.subject_id r.challenge.agent_or_device_id).0
              device_id;
        organization_certified =
            (verify_certificate_iff py r.root_public_key r.now r.organization_certificate).0
              certified;
        organization_key = key;
        of_organization = of_organization;
        delegated =
            (bytes_eq_iff r.device_certificate.issuer_id r.organization_certificate.subject_id).0
              delegated;
        device_certified =
            (verify_certificate_iff py key r.now r.device_certificate).0 device_certified;
        capable = (lacks_iff r.required_capability r.device_certificate.capabilities).0 capable;
        device_key = device_key;
        of_device = of_device;
        signed = signed_by;
      }

  pub IsAuthentic-Admits :
      (consumed : List Text) (r : Response py) → IsAuthentic consumed r → Admits consumed r
  IsAuthentic-Admits consumed r a = (
    elim (Bool-cases (contains consumed r.challenge.challenge_id)) [
      | inl h ↦ absurd (a.unused ((contains_iff consumed r.challenge.challenge_id).0 h))
      | inr h ↦ h
    ],
    (leb_ℤ_iff r.challenge.issued_at r.now).1 a.issued,
    (leb_ℤ_iff r.now r.challenge.expires_at).1 a.unexpired,
    (bytes_eq_iff r.organization_status (codes "ACTIVE")).1 a.organization_active,
    (bytes_eq_iff r.device_status (codes "ACTIVE")).1 a.device_active,
    (bytes_eq_iff r.organization_certificate.subject_kind (codes "organization")).1
        a.organization_kind,
    (contains_iff (codes "device" ∷ codes "agent" ∷ []) r.device_certificate.subject_kind).1
        a.device_kind,
    (bytes_eq_iff r.organization_certificate.subject_id r.challenge.organization_id).1
        a.organization,
    (bytes_eq_iff r.device_certificate.subject_id r.challenge.agent_or_device_id).1 a.device,
    (verify_certificate_iff py r.root_public_key r.now r.organization_certificate).1
        a.organization_certified,
  )

  pub IsAuthentic-Delegates :
      (consumed : List Text) (r : Response py) (a : IsAuthentic consumed r)
      → Delegates r a.organization_key
  IsAuthentic-Delegates consumed r a = (
    (bytes_eq_iff r.device_certificate.issuer_id r.organization_certificate.subject_id).1
        a.delegated,
    (verify_certificate_iff py a.organization_key r.now r.device_certificate).1 a.device_certified,
    (lacks_iff r.required_capability r.device_certificate.capabilities).1 a.capable,
    (subject_signed r).1 (a.device_key, a.of_device, a.signed),
  )
