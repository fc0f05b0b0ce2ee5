-- ===== src/Python/Auth/Issuing.antt =====
-- `issue_certificate` of reference/python/ma2a/auth.py, and the texts that it sorts.
use ma2a.Base.{refl, inl, inr, List, Option, none, some}
use ma2a.Base.Int.{ℤ, ◌≤ℤ◌}
use ma2a.Python.{Text}
use ma2a.Python.Packages.{Cryptography}
use ma2a.Python.Auth.{sorted_set, unsigned_payload, issue_certificate}
use ma2a.Python.Auth.Sets.{Listed-sorted_set}
use ma2a.Python.Auth.Keys.{IsPair, verify_text-sign}
use ma2a.Python.Auth.Certificates.{Capable, IsCertified, verify_text_iff}

pub Capable-sorted_set :
    (o : Option Text) (us : List Text) → Capable o us → Capable o (sorted_set us)
Capable-sorted_set none us h = h
Capable-sorted_set (some t) us (inl e) = inl e
Capable-sorted_set (some t) us (inr h) = inr (Listed-sorted_set t us h)

module _ (py : Cryptography) where
  open py use {PrivateKey, PublicKey}

  -- A certificate that an issuer signs is valid, with the issuer's public key, at the times it covers.
  pub issue_certificate-IsCertified :
      (serial issuer_id subject_id subject_kind : Text) (k : PrivateKey)
      (key subject_public_key : PublicKey) (now not_before not_after : ℤ) (capabilities : List Text)
      → IsPair py k key
      → not_before ≤ℤ now
      → now ≤ℤ not_after
      → IsCertified py key now (
          issue_certificate py serial issuer_id k subject_id subject_kind subject_public_key
            not_before not_after capabilities)
  unfolding issue_certificate unsigned_payload
  issue_certificate-IsCertified serial issuer_id subject_id subject_kind k key subject_public_key
        now not_before not_after capabilities pair from until =
      record {
        version = refl;
        algorithm = refl;
        from = from;
        until = until;
        signed = (verify_text_iff py key _ _).0 (verify_text-sign py k key pair _);
      }
