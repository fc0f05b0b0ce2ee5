-- ===== src/Python/Notices/Signed.antt =====
-- A failure notice that one of the two libraries signs, tested by the other.
use ma2a.Base.{
  ◌≡◌, ◌≢◌, refl, sym, ◌∙◌, ap, subst, true, Bytes, bytes_eq_iff, is_empty_iff, codes, [], some, ok,
  arith,
}
use ma2a.Contracts
use ma2a.Contracts.{ed25519}
use ma2a.Wire.{canonical_failure_notice_json}
use ma2a.Crypto.{OpenSsl, signature_text, sign_failure_notice, verify_failure_notice}
use ma2a.Crypto.Signing.{IsKeyPair, verify_text-signature_text, sign_failure_notice_inv}
use ma2a.Python.{Text, utf8, utf8_char, canonical_json}
use ma2a.Python.Plain.{IsPlain, utf8-plain}
use ma2a.Python.Packages.{Cryptography, verify_text, unless_raised}
use ma2a.Python.Auth.Keys.{IsPair, verify_text-sign}
use ma2a.Python.Agreement.{bytes_eq-utf8}
use ma2a.Python.Signing.{IsSameKey, signature_text-sign}
use ma2a.Python.Notices.{
  FailureNotice, unsigned_notice, validate_notice, sign_notice, verify_notice, encode_notice,
  IsPlainNotice, canonical_failure_notice_json-plain,
}

module _ (py : Cryptography) (ssl : OpenSsl) (k : py.PrivateKey) (key : py.PublicKey)
    (private_key public_key : ssl.Key) (same : IsSameKey py ssl k private_key)
    (pair : IsKeyPair ssl private_key public_key) (verifies : IsPair py k key) where
  signed_text : FailureNotice → Text
  signed_text n = py.urlsafe_b64encode (py.sign k (canonical_json (unsigned_notice n)))

  -- The notice as it is signed.
  abbrev named : FailureNotice → FailureNotice
  named n = record n { signature_algorithm = codes "Ed25519" }

  signed_notice : FailureNotice → FailureNotice
  signed_notice n = record (named n) { signature = signed_text (named n) }

  canonical_named :
      (n : FailureNotice)
      → IsPlainNotice n
      → canonical_failure_notice_json (record (encode_notice n) { signature_algorithm = ed25519 })
        ≡ canonical_json (unsigned_notice (named n))
  unfolding canonical_failure_notice_json utf8 utf8_char
  canonical_named n p = canonical_failure_notice_json-plain (named n) p (omega arith)

  signed_text-ne-nil : (n : FailureNotice) → signed_text n ≢ []
  unfolding signed_text
  signed_text-ne-nil n = verifies.has_text _

  signed_text-IsPlain : (n : FailureNotice) → IsPlain (signed_text n)
  unfolding signed_text
  signed_text-IsPlain n = same.ascii _

  made_text :
      (x : Bytes) (n : FailureNotice)
      → IsPlainNotice n
      → signature_text ssl (some private_key) (
          canonical_failure_notice_json
            (record (encode_notice n) { signature_algorithm = ed25519 }))
        ≡ ok x
      → x ≡ signed_text (named n)
  unfolding signed_text
  made_text x n p made =
      let sign_same =
        ap (signature_text ssl (some private_key)) (canonical_named n p)
        ∙ signature_text-sign py ssl k private_key public_key same pair
            (canonical_json (unsigned_notice (named n))) in
      cc

  sign_failure_notice_lem :
      (n : FailureNotice) (s : Contracts.FailureNotice)
      → IsPlainNotice n
      → sign_failure_notice ssl (some private_key) (encode_notice n) ≡ ok s
      → s ≡ encode_notice (signed_notice n)
  unfolding signed_notice utf8 utf8_char
  sign_failure_notice_lem n s p h =
      let (x, made, e) = sign_failure_notice_inv ssl (some private_key) (encode_notice n) s h in
      let text : x ≡ signed_text (named n) = made_text x n p made in
      e
      ∙ ap
          (λ (y : Bytes). record (encode_notice n) { signature_algorithm = ed25519; signature = y })
          (text ∙ sym (utf8-plain _ (signed_text-IsPlain (named n))))

  -- Neither the checks nor the text that is signed look at the signature.
  validate_signed :
      (n : FailureNotice) → validate_notice (signed_notice n) ≡ validate_notice (named n)
  unfolding validate_notice signed_notice
  validate_signed n = refl

  unsigned_signed :
      (n : FailureNotice) → unsigned_notice (signed_notice n) ≡ unsigned_notice (named n)
  unfolding unsigned_notice signed_notice
  unsigned_signed n = refl

  verify_signed_text :
      (n : FailureNotice)
      → verify_text py key (signed_text n) (canonical_json (unsigned_notice n)) ≡ true
  unfolding signed_text
  verify_signed_text n = verify_text-sign py k key verifies _

  verify_signed_notice :
      (n : FailureNotice)
      → validate_notice (named n) ≡ ok tt
      → verify_notice py (signed_notice n) key ≡ true
  unfolding verify_notice
  verify_signed_notice n valid =
      let some_text = (is_empty_iff (signed_text (named n))).1 (signed_text-ne-nil (named n)) in
      let good = verify_signed_text (named n) in
      rw (validate_signed n ∙ valid, unsigned_signed n)
        (unfold signed_notice unless_raised in ground (arith, some_text, good))

  -- A notice that the C++ library signs is, as the Python reference holds it, one that the reference
  -- accepts, if every character of its signed texts is below U+007F, if it is valid under the
  -- algorithm Ed25519, and if the packages do with the keys what they document.
  pub verify_notice-sign_failure_notice :
      (n : FailureNotice) (s : Contracts.FailureNotice)
      → IsPlainNotice n
      → validate_notice (record n { signature_algorithm = codes "Ed25519" }) ≡ ok tt
      → sign_failure_notice ssl (some private_key) (encode_notice n) ≡ ok s
      → (n' : FailureNotice) × (encode_notice n' ≡ s) × (verify_notice py n' key ≡ true)
  verify_notice-sign_failure_notice n s p valid h =
      (signed_notice n, sym (sign_failure_notice_lem n s p h), verify_signed_notice n valid)

  sign_notice_inv :
      (n n' : FailureNotice)
      → sign_notice py n k ≡ ok n'
      → (n.signature_algorithm ≡ codes "Ed25519") × (n' ≡ record n { signature = signed_text n })
  unfolding sign_notice validate_notice unsigned_notice signed_text
  sign_notice_inv n n' h = ground (arith, h, bytes_eq_iff n.signature_algorithm (codes "Ed25519"))

  canonical_signed :
      (n : FailureNotice) (x : Text)
      → IsPlainNotice n
      → n.signature_algorithm ≡ codes "Ed25519"
      → canonical_failure_notice_json (encode_notice (record n { signature = x }))
        ≡ canonical_json (unsigned_notice n)
  unfolding unsigned_notice
  canonical_signed n x p alg =
      let plain : IsPlain n.signature_algorithm = subst IsPlain (sym alg) (omega arith) in
      canonical_failure_notice_json-plain (record n { signature = x }) p plain

  accepts_notice :
      (n : FailureNotice)
      → IsPlainNotice n
      → n.signature_algorithm ≡ codes "Ed25519"
      → verify_failure_notice ssl
          (encode_notice (record n { signature = signed_text n }))
          (some public_key)
        ≡ ok true
  unfolding verify_failure_notice signed_text
  accepts_notice n p alg =
      let m = canonical_json (unsigned_notice n) in
      let x = py.urlsafe_b64encode (py.sign k m) in
      let (good, text) =
        verify_text-signature_text ssl private_key public_key m x pair
          (signature_text-sign py ssl k private_key public_key same pair m) in
      rw (
        canonical_signed n x p alg,
        utf8-plain x (same.ascii (py.sign k m)),
        bytes_eq-utf8 n.signature_algorithm ed25519 (omega arith),
        (bytes_eq_iff n.signature_algorithm ed25519).1 alg,
        (is_empty_iff x).1 text,
        good,
      )

  -- A notice that the Python reference signs, the C++ library accepts, if every character of its
  -- signed texts is below U+007F, and if the packages do with the keys what they document.
  pub verify_failure_notice-sign_notice :
      (n n' : FailureNotice)
      → IsPlainNotice n
      → sign_notice py n k ≡ ok n'
      → verify_failure_notice ssl (encode_notice n') (some public_key) ≡ ok true
  verify_failure_notice-sign_notice n n' p h =
      let (alg, e) = sign_notice_inv n n' h in rw e (accepts_notice n p alg)
