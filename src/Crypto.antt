-- ===== src/Crypto.antt =====
-- cpp/include/ma2a/crypto.hpp, cpp/include/ma2a/job_auth.hpp and the signatures of
-- cpp/include/ma2a/failure_notice.hpp. OpenSSL is a parameter.
pub mod Signing
pub mod Verification
use ma2a.Base.{
  ℕ, ◌+◌, ◌-◌, ◌%◌, Bool, true, false, not, ◌||◌, Bytes, length, take, is_empty, bytes_eq, [], ◌∷◌,
  Option, none, some, ltb, ◌==◌, if◌then◌else◌, Result, ok, throw, ◌>>=◌, ◌>>◌, throw_if, catch_all,
  digest_context, sign_init, signature_sizing, signing_failed, verify_init, base64_encode,
  private_key_failed, public_key_failed, base64_length, base64_invalid, resize_too_long,
  private_key_required,
}
use ma2a.Contracts.{JobRequest, JobResult, FailureNotice, ed25519}
use ma2a.Wire.{canonical_job_request_json, canonical_job_result_json, canonical_failure_notice_json}

-- What the code calls of OpenSSL. A pointer that may be null is an `Option`.
pub record OpenSsl : Type 1 where
  -- `EVP_PKEY`
  pub Key : Type 0
  -- `EVP_PKEY_new_raw_private_key` and `EVP_PKEY_new_raw_public_key`, of type Ed25519
  pub new_raw_private_key : Bytes → Option Key
  pub new_raw_public_key : Bytes → Option Key
  -- `EVP_MD_CTX_new` returns a context
  pub md_ctx_new : Bool
  -- `EVP_DigestSignInit(…) == 1`
  pub digest_sign_init : Option Key → Bool
  -- the call of `EVP_DigestSign` for the size returns 1
  pub digest_sign_size : Option Key → Bytes → Bool
  -- the signature that the call of `EVP_DigestSign` for it writes, if it returns 1
  pub digest_sign : Option Key → Bytes → Option Bytes
  -- `EVP_DigestVerifyInit(…) == 1`
  pub digest_verify_init : Option Key → Bool
  -- `EVP_DigestVerify(…) == 1`, of a message and a signature
  pub digest_verify : Option Key → Bytes → Bytes → Bool
  -- the text that `EVP_EncodeBlock` writes, if it returns no negative length
  pub encode_block : Bytes → Option Bytes
  -- the bytes that `EVP_DecodeBlock` writes, if it returns no negative length
  pub decode_block : Bytes → Option Bytes

-- `std::replace`
unfoldable pub replace : Bytes → ℕ → ℕ → Bytes
replace [] from to = []
replace (c ∷ s) from to = (if c == from then to else c) ∷ replace s from to

-- `1` if the byte at the end, or the one before it, is `=`
abbrev is_pad : ℕ → ℕ
is_pad c = if c == b'=' then 1 else 0

-- How often `--actual` is executed.
unfoldable pub padding : Bytes → ℕ
padding [] = 0
padding (c ∷ []) = is_pad c
padding (c ∷ d ∷ []) = is_pad d + is_pad c
padding (c ∷ d ∷ e ∷ s) = padding (d ∷ e ∷ s)

module _ (ssl : OpenSsl) where
  open ssl use {Key}

  unfoldable pub base64url_encode : Bytes → Result Bytes
  base64url_encode [] = ok []
  base64url_encode (c ∷ s) = elim (ssl.encode_block (c ∷ s)) [
    | none ↦ throw base64_encode
    | some t ↦ ok (replace (replace t b'+' b'-') b'/' b'_')
  ]

  -- The bytes that `EVP_DecodeBlock` wrote, without those that the padding stands for; a length
  -- below zero wraps round, and `resize` throws.
  unfoldable pub unpadded : Bytes → Option Bytes → Result Bytes
  unpadded input none = throw base64_invalid
  unpadded input (some out) =
      if ltb (length out) (padding input)
      then throw resize_too_long
      else ok (take (length out - padding input) out)

  unfoldable pub base64url_decode : Bytes → Result Bytes
  base64url_decode text = do
    let input = replace (replace text b'-' b'+') b'_' b'/'
    throw_if (not (length input % 4 == 0)) base64_length
    unpadded input (ssl.decode_block input)

  unfoldable pub ed25519_private_key_from_seed : Bytes → Result Key
  ed25519_private_key_from_seed seed = elim (ssl.new_raw_private_key seed) [
    | none ↦ throw private_key_failed
    | some key ↦ ok key
  ]

  unfoldable pub ed25519_public_key_from_raw : Bytes → Result Key
  ed25519_public_key_from_raw key = elim (ssl.new_raw_public_key key) [
    | none ↦ throw public_key_failed
    | some k ↦ ok k
  ]

  unfoldable pub ed25519_sign : Option Key → Bytes → Result Bytes
  ed25519_sign private_key message = do
    throw_if (not (ssl.md_ctx_new)) digest_context
    throw_if (not (ssl.digest_sign_init private_key)) sign_init
    throw_if (not (ssl.digest_sign_size private_key message)) signature_sizing
    elim (ssl.digest_sign private_key message) [ none ↦ throw signing_failed | some s ↦ ok s ]

  unfoldable pub ed25519_verify : Option Key → Bytes → Bytes → Result Bool
  ed25519_verify public_key message signature = do
    throw_if (not (ssl.md_ctx_new)) digest_context
    throw_if (not (ssl.digest_verify_init public_key)) verify_init
    ok (ssl.digest_verify public_key message signature)

  -- `base64url_encode(ed25519_sign(private_key, message))`
  unfoldable pub signature_text : Option Key → Bytes → Result Bytes
  signature_text private_key message = ed25519_sign private_key message >>= base64url_encode

  unfoldable pub sign_job_request : Option Key → JobRequest → Result JobRequest
  sign_job_request none request = throw private_key_required
  sign_job_request (some private_key) request = do
    let cleared = record request { signature_algorithm = ed25519; signature = [] }
    signature ← signature_text (some private_key) (canonical_job_request_json cleared)
    ok (record cleared { signature = signature })

  unfoldable pub sign_job_result : Option Key → JobResult → Result JobResult
  sign_job_result none result = throw private_key_required
  sign_job_result (some private_key) result = do
    let cleared = record result { signature_algorithm = ed25519; signature = [] }
    signature ← signature_text (some private_key) (canonical_job_result_json cleared)
    ok (record cleared { signature = signature })

  unfoldable pub sign_failure_notice : Option Key → FailureNotice → Result FailureNotice
  sign_failure_notice private_key notice = do
    let named = record notice { signature_algorithm = ed25519 }
    signature ← signature_text private_key (canonical_failure_notice_json named)
    ok (record named { signature = signature })

  -- `ed25519_verify(public_key, message, base64url_decode(signature))`
  unfoldable pub verify_text : Option Key → Bytes → Bytes → Result Bool
  verify_text public_key message signature =
      base64url_decode signature >>= ed25519_verify public_key message

  abbrev is_null : Option Key → Bool
  is_null none = true
  is_null (some key) = false

  unfoldable pub verify_job_result : JobResult → Option Key → Result Bool
  verify_job_result result public_key =
      if is_null public_key
        || not (bytes_eq result.signature_algorithm ed25519)
        || is_empty result.signature
      then ok false
      else catch_all (verify_text public_key (canonical_job_result_json result) result.signature)
          (ok false)

  unfoldable pub verify_failure_notice : FailureNotice → Option Key → Result Bool
  verify_failure_notice notice public_key =
      if not (bytes_eq notice.signature_algorithm ed25519) || is_empty notice.signature
      then ok false
      else catch_all
          (verify_text public_key (canonical_failure_notice_json notice) notice.signature)
          (ok false)
