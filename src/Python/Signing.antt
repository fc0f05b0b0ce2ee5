-- ===== src/Python/Signing.antt =====
-- A result that reference/python/ma2a/job.py signs, tested by cpp/include/ma2a/job_auth.hpp.
use ma2a.Base.{
  ◌≡◌, ◌∙◌, sym, ap, true, refl, Bytes, bytes_eq, is_empty_iff, [], ◌∷◌, some, ok, arith, ◌≢◌,
}
use ma2a.Contracts.{ed25519}
use ma2a.Wire.{canonical_job_result_json}
use ma2a.Crypto.{
  OpenSsl, replace, base64url_encode, ed25519_sign, signature_text, verify_job_result,
}
use ma2a.Crypto.Signing.{IsKeyPair, verify_text-signature_text}
use ma2a.Python.{Text, canonical_json}
use ma2a.Python.Plain.{IsPlain, utf8-plain}
use ma2a.Python.Results.{IsPlainResult, canonical_job_result_json_iff}
use ma2a.Python.Messages.{JobResult, unsigned_result, encode_result}
use ma2a.Python.Packages.{Cryptography}
use ma2a.Python.Job.{validate_result, sign_result}
use ma2a.Python.Agreement.{bytes_eq-utf8}

-- What the two packages document of one key: both sign by Ed25519, which gives a message one
-- signature, and both write Base64, in the alphabet of URLs in Python.
pub record IsSameKey (py : Cryptography) (ssl : OpenSsl) (k : py.PrivateKey) (key : ssl.Key)
    : Type 0 where
  pub starts : ssl.digest_sign_init (some key) ≡ true
  pub sizes : (m : Bytes) → ssl.digest_sign_size (some key) m ≡ true
  pub signs : (m : Bytes) → ssl.digest_sign (some key) m ≡ some (py.sign k m)
  pub writes :
      (s t : Bytes) (h : ssl.encode_block s ≡ some t)
      → py.urlsafe_b64encode s ≡ replace (replace t b'+' b'-') b'/' b'_'
  pub ascii : (s : Bytes) → IsPlain (py.urlsafe_b64encode s)

base64url_encode-some :
    (ssl : OpenSsl) (s t : Bytes)
    → s ≢ []
    → ssl.encode_block s ≡ some t
    → base64url_encode ssl s ≡ ok (replace (replace t b'+' b'-') b'/' b'_')
unfolding base64url_encode
base64url_encode-some ssl [] t ne h = absurd (ne refl)
base64url_encode-some ssl (c ∷ s) t ne h = rw (h, base64url_encode)

module _ (py : Cryptography) (ssl : OpenSsl) (k : py.PrivateKey) (private_key public_key : ssl.Key)
    (same : IsSameKey py ssl k private_key) (pair : IsKeyPair ssl private_key public_key) where
  ed25519_sign-sign : (m : Bytes) → ed25519_sign ssl (some private_key) m ≡ ok (py.sign k m)
  unfolding ed25519_sign
  ed25519_sign-sign m = rw (pair.context, same.starts, same.sizes m, same.signs m)

  -- The two libraries write one signature for one text.
  pub signature_text-sign :
      (m : Bytes)
      → signature_text ssl (some private_key) m ≡ ok (py.urlsafe_b64encode (py.sign k m))
  unfolding signature_text
  signature_text-sign m =
      let s = py.sign k m in
      let (t, base64) = pair.coded m s (same.signs m) in
      rw (ed25519_sign-sign m) (
        base64url_encode-some ssl s t (pair.has_bytes m s (same.signs m)) base64.encoded
        ∙ ap ok (sym (same.writes s t base64.encoded)))

  signed : JobResult → Bytes
  signed r = py.urlsafe_b64encode (py.sign k (canonical_json (unsigned_result r)))

  sign_result_inv :
      (r r' : JobResult)
      → sign_result py r k ≡ ok r'
      → (bytes_eq r.signature_algorithm ed25519 ≡ true) × (r' ≡ record r { signature = signed r })
  unfolding sign_result validate_result unsigned_result signed
  sign_result_inv r r' h = ground (arith, h)

  pub sign_result-IsPlain :
      (r r' : JobResult)
      → IsPlainResult r
      → sign_result py r k ≡ ok r'
      → IsPlainResult r' × IsPlain r'.signature
  unfolding signed
  sign_result-IsPlain r r' plain h =
      let (_, e) = sign_result_inv r r' h in rw e (plain, same.ascii _)

  canonical_signed :
      (r : JobResult) (x : Text)
      → IsPlainResult r
      → canonical_job_result_json (encode_result (record r { signature = x }))
        ≡ canonical_json (unsigned_result r)
  unfolding unsigned_result
  canonical_signed r x plain = (canonical_job_result_json_iff (record r { signature = x })).1 plain

  accepts_result :
      (r : JobResult)
      → IsPlainResult r
      → bytes_eq r.signature_algorithm ed25519 ≡ true
      → verify_job_result ssl (encode_result (record r { signature = signed r })) (some public_key)
        ≡ ok true
  unfolding verify_job_result signed
  accepts_result r plain named =
      let m = canonical_json (unsigned_result r) in
      let x = py.urlsafe_b64encode (py.sign k m) in
      let (good, text) =
        verify_text-signature_text ssl private_key public_key m x pair (signature_text-sign m) in
      let same_text = canonical_signed r x plain in
      rw (
        same_text,
        utf8-plain x (same.ascii (py.sign k m)),
        bytes_eq-utf8 r.signature_algorithm ed25519 (omega arith),
        named,
        (is_empty_iff x).1 text,
        good,
      )

  -- A result that the Python reference signs, the C++ library accepts, with the public key of the pair,
  -- if every character of its signed texts is below U+007F, and if the packages do with the key what
  -- they document.
  pub verify_job_result-sign_result :
      (r r' : JobResult)
      → IsPlainResult r
      → sign_result py r k ≡ ok r'
      → verify_job_result ssl (encode_result r') (some public_key) ≡ ok true
  verify_job_result-sign_result r r' plain h =
      let (named, e) = sign_result_inv r r' h in rw e (accepts_result r plain named)
