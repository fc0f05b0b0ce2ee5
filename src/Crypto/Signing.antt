-- ===== src/Crypto/Signing.antt =====
-- The signatures of cpp/include/ma2a/job_auth.hpp and failure_notice.hpp, made and tested.
use ma2a.Base.{
  ℕ, ◌+◌, ◌-◌, ◌%◌, ◌≡◌, ◌≢◌, refl, true, false, Bytes, bytes_eq, length, take-append,
  length-append, is_empty_iff, [], ◌∷◌, ◌++◌, All, Option, some, ltb, ◌==◌, ok, >>=-eq-ok, arith,
}
use ma2a.Contracts.{JobResult, FailureNotice, ed25519}
use ma2a.Wire.{canonical_job_result_json, canonical_failure_notice_json}
use ma2a.Crypto.{
  OpenSsl, replace, padding, base64url_encode, unpadded, base64url_decode, ed25519_sign,
  ed25519_verify, signature_text, sign_job_result, sign_failure_notice, verify_text,
  verify_job_result, verify_failure_notice,
}

-- A byte that stands for itself in both alphabets, or that the URL alphabet replaces.
abbrev IsStandard : ℕ → Type 0
IsStandard c = (c ≢ b'-') × (c ≢ b'_')

-- What OpenSSL documents of the text `t` of the bytes `s`: it is of the standard alphabet, in
-- groups of four, and decodes to the bytes, and one more for each `=` at its end.
pub record IsBase64 (ssl : OpenSsl) (s t : Bytes) : Type 0 where
  pub encoded : ssl.encode_block s ≡ some t
  pub has_text : t ≢ []
  pub standard : All IsStandard t
  pub groups : length t % 4 ≡ 0
  pub fill : Bytes
  pub decoded : ssl.decode_block t ≡ some (s ++ fill)
  pub filled : length fill ≡ padding t

-- The alphabet of URLs is undone.
replace-standard :
    (t : Bytes)
    → All IsStandard t
    → replace (replace (replace (replace t b'+' b'-') b'/' b'_') b'-' b'+') b'_' b'/' ≡ t
unfolding replace
replace-standard [] h = refl
replace-standard (c ∷ t) ((h, k), hs) = ground (arith, replace-standard t hs)

unpadded_fill :
    (ssl : OpenSsl) (s fill t : Bytes)
    → length fill ≡ padding t
    → unpadded ssl t (some (s ++ fill)) ≡ ok s
unfolding unpadded
unpadded_fill ssl s fill t h =
    let whole : length (s ++ fill) ≡ length s + padding t =
      omega (arith, length-append s fill, h) in
    let long : ltb (length (s ++ fill)) (padding t) ≡ false = ground arith in
    let size : length (s ++ fill) - padding t ≡ length s = omega arith in
    rw (long, size, take-append s fill)

base64url_encode_lem :
    (ssl : OpenSsl) (s t x : Bytes)
    → s ≢ []
    → ssl.encode_block s ≡ some t
    → base64url_encode ssl s ≡ ok x
    → replace (replace t b'+' b'-') b'/' b'_' ≡ x
unfolding base64url_encode
base64url_encode_lem ssl [] t x h e k = absurd (h refl)
base64url_encode_lem ssl (c ∷ s) t x h e k =
    let done : base64url_encode ssl (c ∷ s) ≡ ok (replace (replace t b'+' b'-') b'/' b'_') =
      rw (base64url_encode, e) in
    cc

base64url_decode-encode :
    (ssl : OpenSsl) (s t x : Bytes)
    → IsBase64 ssl s t
    → s ≢ []
    → base64url_encode ssl s ≡ ok x
    → base64url_decode ssl x ≡ ok s
unfolding base64url_decode
base64url_decode-encode ssl s t x b h e =
    let groups : (length t % 4 == 0) ≡ true = ground arith in
    rw
      (
        ← base64url_encode_lem ssl s t x h b.encoded e,
        replace-standard t b.standard,
        groups,
        b.decoded,
      )
      (unpadded_fill ssl s b.fill t b.filled)

ed25519_sign_inv :
    (ssl : OpenSsl) (key : Option ssl.Key) (message s : Bytes)
    → ed25519_sign ssl key message ≡ ok s
    → ssl.digest_sign key message ≡ some s
unfolding ed25519_sign
ed25519_sign_inv ssl key message s h = ground arith

-- A text stands for a signature.
signature_text_inv :
    (ssl : OpenSsl) (key : Option ssl.Key) (message x : Bytes)
    → signature_text ssl key message ≡ ok x
    → (s : Bytes) × (ssl.digest_sign key message ≡ some s) × (base64url_encode ssl s ≡ ok x)
unfolding signature_text
signature_text_inv ssl key message x h =
    let (s, made, coded) = >>=-eq-ok (ed25519_sign ssl key message) _ h in
    (s, ed25519_sign_inv ssl key message s made, coded)

ed25519_verify_lem :
    (ssl : OpenSsl) (key : Option ssl.Key) (message s : Bytes)
    → ssl.md_ctx_new ≡ true
    → ssl.digest_verify_init key ≡ true
    → ed25519_verify ssl key message s ≡ ok (ssl.digest_verify key message s)
unfolding ed25519_verify
ed25519_verify_lem ssl key message s h k = rw (h, k)

-- What OpenSSL documents of a key pair: a signature of the private key has bytes, and the public
-- key accepts it for its message.
pub record IsKeyPair (ssl : OpenSsl) (private_key public_key : ssl.Key) : Type 0 where
  pub context : ssl.md_ctx_new ≡ true
  pub usable : ssl.digest_verify_init (some public_key) ≡ true
  pub has_bytes : (m s : Bytes) (h : ssl.digest_sign (some private_key) m ≡ some s) → s ≢ []
  pub accepts :
      (m s : Bytes) (h : ssl.digest_sign (some private_key) m ≡ some s)
      → ssl.digest_verify (some public_key) m s ≡ true
  pub coded :
      (m s : Bytes) (h : ssl.digest_sign (some private_key) m ≡ some s)
      → (t : Bytes) × IsBase64 ssl s t

replace-ne-nil : (t : Bytes) (a b : ℕ) → t ≢ [] → replace t a b ≢ []
unfolding replace
replace-ne-nil [] a b h = h
replace-ne-nil (c ∷ t) a b h = λ k. cc

pub verify_text-signature_text :
    (ssl : OpenSsl) (private_key public_key : ssl.Key) (message x : Bytes)
    → IsKeyPair ssl private_key public_key
    → signature_text ssl (some private_key) message ≡ ok x
    → (verify_text ssl (some public_key) message x ≡ ok true) × (x ≢ [])
unfolding verify_text
verify_text-signature_text ssl private_key public_key message x pair h =
    let (s, made, coded) = signature_text_inv ssl (some private_key) message x h in
    let (t, base64) = pair.coded message s made in
    let bytes = pair.has_bytes message s made in
    (
      rw
          (
            base64url_decode-encode ssl s t x base64 bytes coded,
            ed25519_verify_lem ssl (some public_key) message s pair.context pair.usable,
            pair.accepts message s made,
          )
          refl,
      rw (← base64url_encode_lem ssl s t x bytes base64.encoded coded)
          (replace-ne-nil _ b'/' b'_' (replace-ne-nil t b'+' b'-' base64.has_text)),
    )

-- The text under a signature does not hold the signature.
canonical_signed_result :
    (r : JobResult) (x : Bytes)
    → canonical_job_result_json (record r { signature = x }) ≡ canonical_job_result_json r
unfolding canonical_job_result_json
canonical_signed_result r x = refl

abbrev named_result : JobResult → JobResult
named_result r = record r { signature_algorithm = ed25519; signature = [] }

sign_job_result_inv :
    (ssl : OpenSsl) (key : ssl.Key) (r r' : JobResult)
    → sign_job_result ssl (some key) r ≡ ok r'
    → (x : Bytes) × (signature_text ssl (some key) (canonical_job_result_json (named_result r))
        ≡ ok x)
      × (r' ≡ record (named_result r) { signature = x })
unfolding sign_job_result
sign_job_result_inv ssl key r r' h =
    let (x, made, same) =
      >>=-eq-ok (signature_text ssl (some key) (canonical_job_result_json (named_result r))) _ h in
    (x, made, cc)

accepts_signed_result :
    (ssl : OpenSsl) (key : ssl.Key) (r : JobResult) (x : Bytes)
    → verify_text ssl (some key) (canonical_job_result_json (named_result r)) x ≡ ok true
    → x ≢ []
    → verify_job_result ssl (record (named_result r) { signature = x }) (some key) ≡ ok true
unfolding verify_job_result bytes_eq
accepts_signed_result ssl key r x h some_text =
    rw ((is_empty_iff x).1 some_text, canonical_signed_result (named_result r) x, h)

-- A result that `sign_job_result` signs, `verify_job_result` accepts, with the public key of a pair
-- that behaves as OpenSSL documents.
pub verify_job_result-sign_job_result :
    (ssl : OpenSsl) (private_key public_key : ssl.Key) (r r' : JobResult)
    → IsKeyPair ssl private_key public_key
    → sign_job_result ssl (some private_key) r ≡ ok r'
    → verify_job_result ssl r' (some public_key) ≡ ok true
verify_job_result-sign_job_result ssl private_key public_key r r' pair h =
    let (x, made, same) = sign_job_result_inv ssl private_key r r' h in
    let (good, some_text) = verify_text-signature_text ssl private_key public_key _ x pair made in
    rw same (accepts_signed_result ssl public_key r x good some_text)

canonical_signed_notice :
    (n : FailureNotice) (x : Bytes)
    → canonical_failure_notice_json (record n { signature = x }) ≡ canonical_failure_notice_json n
unfolding canonical_failure_notice_json
canonical_signed_notice n x = refl

abbrev named_notice : FailureNotice → FailureNotice
named_notice n = record n { signature_algorithm = ed25519 }

pub sign_failure_notice_inv :
    (ssl : OpenSsl) (key : Option ssl.Key) (n n' : FailureNotice)
    → sign_failure_notice ssl key n ≡ ok n'
    → (x : Bytes) × (signature_text ssl key (canonical_failure_notice_json (named_notice n)) ≡ ok x)
      × (n' ≡ record (named_notice n) { signature = x })
unfolding sign_failure_notice
sign_failure_notice_inv ssl key n n' h =
    let (x, made, same) =
      >>=-eq-ok (signature_text ssl key (canonical_failure_notice_json (named_notice n))) _ h in
    (x, made, cc)

accepts_signed_notice :
    (ssl : OpenSsl) (key : ssl.Key) (n : FailureNotice) (x : Bytes)
    → verify_text ssl (some key) (canonical_failure_notice_json (named_notice n)) x ≡ ok true
    → x ≢ []
    → verify_failure_notice ssl (record (named_notice n) { signature = x }) (some key) ≡ ok true
unfolding verify_failure_notice bytes_eq
accepts_signed_notice ssl key n x h some_text =
    rw ((is_empty_iff x).1 some_text, canonical_signed_notice (named_notice n) x, h)

-- A failure notice that `sign_failure_notice` signs, `verify_failure_notice` accepts, with the
-- public key of a pair that behaves as OpenSSL documents.
pub verify_failure_notice-sign_failure_notice :
    (ssl : OpenSsl) (private_key public_key : ssl.Key) (n n' : FailureNotice)
    → IsKeyPair ssl private_key public_key
    → sign_failure_notice ssl (some private_key) n ≡ ok n'
    → verify_failure_notice ssl n' (some public_key) ≡ ok true
verify_failure_notice-sign_failure_notice ssl private_key public_key n n' pair h =
    let (x, made, same) = sign_failure_notice_inv ssl (some private_key) n n' h in
    let (good, some_text) = verify_text-signature_text ssl private_key public_key _ x pair made in
    rw same (accepts_signed_notice ssl public_key n x good some_text)
