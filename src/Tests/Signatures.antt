-- ===== src/Tests/Signatures.antt =====
-- Signatures of the small stand-in for OpenSSL.
use ma2a.Base.{◌≡◌, ◌≢◌, ◌↔◌, refl, true, codes, [], some, ok, bytes_eq_iff, subst, arith}
use ma2a.Contracts.{JobResult, ed25519}
use ma2a.Wire.{canonical_job_result_json}
use ma2a.Crypto.{
  replace, padding, base64url_encode, ed25519_sign, signature_text, sign_job_result,
  sign_failure_notice, verify_job_result,
}
use ma2a.Crypto.Signing.{IsBase64, IsKeyPair, verify_job_result-sign_job_result}
use ma2a.Crypto.Verification.{IsAccepted, verify_job_result_iff}
use ma2a.Tests.{answer, notice, toy}

abc-IsBase64 : IsBase64 toy (codes "abc") (codes "YWJj")
unfolding padding
abc-IsBase64 = record {
  encoded = refl;
  has_text = λ p. cc;
  standard = ground arith;
  groups = refl;
  fill = [];
  decoded = refl;
  filled = refl;
}

pub toy-IsKeyPair : IsKeyPair toy tt tt
toy-IsKeyPair = record {
  context = refl;
  usable = refl;
  has_bytes = λ m s h. cc;
  accepts = λ m s h. (bytes_eq_iff s (codes "abc")).1 (cc);
  coded = λ m s h. (codes "YWJj", subst (λ x. IsBase64 toy x (codes "YWJj")) (cc) abc-IsBase64);
}

-- The result as it is before it is signed.
abbrev pub unsigned_answer : JobResult
unsigned_answer = record answer { signature = [] }

pub signs_answer : sign_job_result toy (some tt) unsigned_answer ≡ ok answer
unfolding sign_job_result signature_text ed25519_sign base64url_encode replace
signs_answer = refl

verify_job_result-sign_job_result_example : verify_job_result toy answer (some tt) ≡ ok true
verify_job_result-sign_job_result_example =
    verify_job_result-sign_job_result toy tt tt unsigned_answer answer toy-IsKeyPair signs_answer

signs_notice : sign_failure_notice toy (some tt) notice ≡ ok notice
unfolding sign_failure_notice signature_text ed25519_sign base64url_encode replace
signs_notice = refl

verify_job_result_iff_example : (verify_job_result toy answer (some tt) ≡ ok true) ↔ (
    (k : Unit {0}) × (some tt ≡ some k)
    × (answer.signature_algorithm ≡ ed25519)
    × (answer.signature ≢ [])
    × IsAccepted toy k (canonical_job_result_json answer) answer.signature)
verify_job_result_iff_example = verify_job_result_iff toy answer (some tt)
