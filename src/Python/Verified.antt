-- ===== src/Python/Verified.antt =====
-- A request that cpp/include/ma2a/job_auth.hpp signs, tested by reference/python/ma2a/job.py.
use ma2a.Base.{
  ◌≡◌, ◌≢◌, refl, sym, ◌∙◌, ap, true, Bytes, is_empty_iff, codes, [], Option, none, some, ok,
  >>=-eq-ok, arith,
}
use ma2a.Base.Int.{ℤ}
use ma2a.Contracts
use ma2a.Contracts.{ed25519}
use ma2a.Wire.{canonical_job_request_json}
use ma2a.Crypto.{OpenSsl, signature_text, sign_job_request}
use ma2a.Crypto.Signing.{IsKeyPair}
use ma2a.Python.{Text, utf8, utf8_char, canonical_json}
use ma2a.Python.Plain.{IsPlain, utf8-plain}
use ma2a.Python.Requests.{canonical_job_request_json_iff}
use ma2a.Python.Requests.Printed.{IsPlainRequest}
use ma2a.Python.Packages.{Cryptography, verify_text, unless_raised}
use ma2a.Python.Auth.Keys.{IsPair, verify_text-sign}
use ma2a.Python.Signing.{IsSameKey, signature_text-sign}
use ma2a.Python.Messages.{JobRequest, unsigned_request, encode_request}
use ma2a.Python.Job.{is_outside, validate_request, verify_request}

module _ (py : Cryptography) (ssl : OpenSsl) (k : py.PrivateKey) (key : py.PublicKey)
    (private_key public_key : ssl.Key) (same : IsSameKey py ssl k private_key)
    (pair : IsKeyPair ssl private_key public_key) (verifies : IsPair py k key) where
  signed_text : JobRequest → Text
  signed_text r = py.urlsafe_b64encode (py.sign k (canonical_json (unsigned_request r)))

  -- The request as it is signed.
  abbrev named : JobRequest → JobRequest
  named r = record r { signature_algorithm = codes "Ed25519" }

  signed_request : JobRequest → JobRequest
  signed_request r = record (named r) { signature = signed_text (named r) }

  abbrev cleared : JobRequest → Contracts.JobRequest
  cleared r = record (encode_request r) { signature_algorithm = ed25519; signature = [] }

  canonical_cleared :
      (r : JobRequest)
      → IsPlainRequest r
      → canonical_job_request_json (cleared r) ≡ canonical_json (unsigned_request (named r))
  unfolding utf8 utf8_char unsigned_request
  canonical_cleared r (mid, op, org, pay, ver, req, snd, alg, tgt) =
      (canonical_job_request_json_iff (record (named r) { signature = [] })).1
        (mid, op, org, pay, ver, req, snd, omega arith, tgt)

  signed_text-ne-nil : (r : JobRequest) → signed_text r ≢ []
  unfolding signed_text
  signed_text-ne-nil r = verifies.has_text _

  signed_text-IsPlain : (r : JobRequest) → IsPlain (signed_text r)
  unfolding signed_text
  signed_text-IsPlain r = same.ascii _

  made_text :
      (x : Bytes) (r : JobRequest)
      → IsPlainRequest r
      → signature_text ssl (some private_key) (canonical_job_request_json (cleared r)) ≡ ok x
      → x ≡ signed_text (named r)
  unfolding signed_text
  made_text x r p made =
      let sign_same =
        ap (signature_text ssl (some private_key)) (canonical_cleared r p)
        ∙ signature_text-sign py ssl k private_key public_key same pair
            (canonical_json (unsigned_request (named r))) in
      cc

  sign_job_request_inv :
      (r : Contracts.JobRequest) (s : Contracts.JobRequest)
      → sign_job_request ssl (some private_key) r ≡ ok s
      → (x : Bytes) × (signature_text ssl (some private_key) (
            canonical_job_request_json (record r { signature_algorithm = ed25519; signature = [] }))
          ≡ ok x)
        × (s ≡ record r { signature_algorithm = ed25519; signature = x })
  unfolding sign_job_request
  sign_job_request_inv r s h =
      let (x, made, e) =
        >>=-eq-ok
          (signature_text ssl (some private_key) (
            canonical_job_request_json
              (record r { signature_algorithm = ed25519; signature = [] })))
          _ h in
      (x, made, cc)

  sign_job_request_lem :
      (r : JobRequest) (s : Contracts.JobRequest)
      → IsPlainRequest r
      → sign_job_request ssl (some private_key) (encode_request r) ≡ ok s
      → s ≡ encode_request (signed_request r)
  unfolding signed_request utf8 utf8_char
  sign_job_request_lem r s p h =
      let (x, made, e) = sign_job_request_inv (encode_request r) s h in
      let text : x ≡ signed_text (named r) = made_text x r p made in
      e
      ∙ ap
          (λ (y : Bytes). record (encode_request r) {
            signature_algorithm = ed25519;
            signature = y;
          })
          (text ∙ sym (utf8-plain _ (signed_text-IsPlain (named r))))

  -- Neither the checks nor the text that is signed look at the signature.
  validate_signed :
      (r : JobRequest) (now : Option ℤ)
      → validate_request (signed_request r) now ≡ validate_request (named r) now
  unfolding validate_request signed_request is_outside
  validate_signed r none = refl
  validate_signed r (some now) = refl

  unsigned_signed :
      (r : JobRequest) → unsigned_request (signed_request r) ≡ unsigned_request (named r)
  unfolding unsigned_request signed_request
  unsigned_signed r = refl

  verify_signed_text :
      (r : JobRequest)
      → verify_text py key (signed_text r) (canonical_json (unsigned_request r)) ≡ true
  unfolding signed_text
  verify_signed_text r = verify_text-sign py k key verifies _

  verify_signed_request :
      (r : JobRequest) (now : Option ℤ)
      → validate_request (named r) now ≡ ok tt
      → verify_request py (signed_request r) key now ≡ true
  unfolding verify_request
  verify_signed_request r now valid =
      let some_text = (is_empty_iff (signed_text (named r))).1 (signed_text-ne-nil (named r)) in
      let good = verify_signed_text (named r) in
      rw (validate_signed r now ∙ valid, unsigned_signed r)
        (unfold signed_request unless_raised in ground (arith, some_text, good))

  -- A request that the C++ library signs is, as the Python reference holds it, one that the
  -- reference accepts at a time, if every character of its signed texts is below U+007F and its
  -- organization is not the empty text, if it is valid at the time under the algorithm Ed25519, and
  -- if the packages do with the keys what they document.
  pub verify_request-sign_job_request :
      (r : JobRequest) (s : Contracts.JobRequest) (now : Option ℤ)
      → IsPlainRequest r
      → validate_request (record r { signature_algorithm = codes "Ed25519" }) now ≡ ok tt
      → sign_job_request ssl (some private_key) (encode_request r) ≡ ok s
      → (r' : JobRequest) × (encode_request r' ≡ s) × (verify_request py r' key now ≡ true)
  verify_request-sign_job_request r s now p valid h =
      (signed_request r, sym (sign_job_request_lem r s p h), verify_signed_request r now valid)
