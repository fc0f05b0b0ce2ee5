-- ===== src/Python/Auth/Certificates.antt =====
-- `verify_certificate` of reference/python/ma2a/auth.py.
use ma2a.Base.{
  Option, none, some, ◌≡◌, ◌⊎◌, inl, inr, ◌↔◌, true, Option-cases, bytes_eq_iff, Bytes, codes, List,
  [], ◌∷◌, some, arith,
}
use ma2a.Base.Int.{ℤ, pos, leb_ℤ, ◌≤ℤ◌}
use ma2a.Python.{Text, canonical_json}
use ma2a.Python.Order.{eq_ℤ_iff}
use ma2a.Python.Packages.{Cryptography, verify_text, unb64}
use ma2a.Python.Auth.{Certificate, unsigned_payload, verify_certificate}
use ma2a.Python.Auth.{contains}

pub leb_ℤ_iff : (a b : ℤ) → (leb_ℤ a b ≡ true) ↔ (a ≤ℤ b)
leb_ℤ_iff (pos a) (pos b) = ground arith
leb_ℤ_iff a b = ground arith

-- A text is one of the list.
abbrev pub Listed : Text → List Text → Type 0
Listed t [] = ⊥
Listed t (u ∷ us) = (t ≡ u) ⊎ Listed t us

pub contains_iff : (us : List Text) (t : Text) → (contains us t ≡ true) ↔ Listed t us
unfolding contains
contains_iff [] t = ground arith
contains_iff (u ∷ us) t = ground (arith, bytes_eq_iff t u, contains_iff us t)

-- The capability is asked for by no text, by the empty one, or is among those.
abbrev pub Capable : Option Text → List Text → Type 0
Capable none capabilities = Unit
Capable (some t) capabilities = (t ≡ []) ⊎ Listed t capabilities

module _ (py : Cryptography) where
  open py use {PublicKey}

  -- The key's owner signed the message, and the text stands for the signature.
  pub record IsSigned (key : PublicKey) (text : Text) (message : Bytes) : Type 0 where
    pub bytes : Bytes
    pub decoded : unb64 py text ≡ some bytes
    pub verified : py.verify key bytes message ≡ true

  pub record IsCertified (key : PublicKey) (now : ℤ) (cert : Certificate) : Type 0 where
    pub version : cert.version ≡ pos 1
    pub algorithm : cert.signature_algorithm ≡ codes "Ed25519"
    pub from : cert.not_before ≤ℤ now
    pub until : now ≤ℤ cert.not_after
    pub signed : IsSigned key cert.issuer_signature (canonical_json (unsigned_payload cert))

  pub verify_text_iff :
      (key : PublicKey) (text : Text) (message : Bytes)
      → (verify_text py key text message ≡ true) ↔ IsSigned key text message
  unfolding verify_text
  verify_text_iff key text message = (sound, complete)
    where
      sound : verify_text py key text message ≡ true → IsSigned key text message
      sound h = elim (Option-cases (unb64 py text)) [
        | inl e ↦ absurd (ground arith)
        | inr (s, e) ↦ record { bytes = s; decoded = e; verified = ground arith }
      ]

      complete : IsSigned key text message → verify_text py key text message ≡ true
      complete h = rw (h.decoded, verify_text) h.verified

  pub verify_certificate_iff :
      (key : PublicKey) (now : ℤ) (cert : Certificate)
      → (verify_certificate py cert key now ≡ true) ↔ IsCertified key now cert
  unfolding verify_certificate
  verify_certificate_iff key now cert = ground (
    arith,
    eq_ℤ_iff cert.version (pos 1),
    bytes_eq_iff cert.signature_algorithm (codes "Ed25519"),
    leb_ℤ_iff cert.not_before now,
    leb_ℤ_iff now cert.not_after,
    verify_text_iff key cert.issuer_signature (canonical_json (unsigned_payload cert)),
  )
