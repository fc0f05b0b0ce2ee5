-- ===== src/Tests/Crossed.antt =====
-- Messages that one library signs and the other tests.
use ma2a.Base.{◌≡◌, refl, true, codes, bytes_eq, [], some, ok, arith}
use ma2a.Base.Int.{pos}
use ma2a.Contracts
use ma2a.Contracts.{ed25519}
use ma2a.Crypto.{
  replace, base64url_encode, ed25519_sign, signature_text, sign_job_request, sign_failure_notice,
  verify_failure_notice,
}
use ma2a.Python.{utf8, utf8_char}
use ma2a.Python.Messages.{JobRequest, encode_request}
use ma2a.Python.Job.{is_outside, validate_request, verify_request}
use ma2a.Python.Verified.{verify_request-sign_job_request}
use ma2a.Python.Auth.Keys.{IsPair}
use ma2a.Python.Notices.{FailureNotice, validate_notice, sign_notice, verify_notice, encode_notice}
use ma2a.Python.Notices.Signed.{
  verify_notice-sign_failure_notice, verify_failure_notice-sign_notice,
}
use ma2a.Tests.{toy}
use ma2a.Tests.Signatures.{toy-IsKeyPair}
use ma2a.Tests.Python.{toy_python, toy-IsSameKey}

pub toy-IsPair : IsPair toy_python tt tt
unfolding bytes_eq
toy-IsPair = record {
  accepts = λ m. refl;
  ascii = λ s. omega arith;
  decodes = λ m. refl;
  has_text = λ m e. cc;
  exports = refl;
  imports = refl;
}

abbrev ping_request : JobRequest
ping_request = record {
  protocol_version = codes "0.1";
  message_id = codes "m-1";
  request_id = codes "r-1";
  sender_node_id = codes "a";
  target_node_id = codes "b";
  organization_id = some (codes "org");
  operation = codes "PING";
  payload = [];
  issued_at = pos 100;
  expires_at = pos 130;
  signature_algorithm = [];
  signature = [];
}

abbrev signed_ping : Contracts.JobRequest
signed_ping = record (encode_request ping_request) {
  signature_algorithm = ed25519;
  signature = codes "YWJj";
}

ping_IsSigned : sign_job_request toy (some tt) (encode_request ping_request) ≡ ok signed_ping
unfolding sign_job_request signature_text ed25519_sign base64url_encode replace
ping_IsSigned = refl

valid_ping :
    validate_request
      (record ping_request { signature_algorithm = codes "Ed25519" })
      (some (pos 120))
    ≡ ok tt
unfolding validate_request is_outside bytes_eq
valid_ping = refl

verify_request-sign_job_request_example :
    (r' : JobRequest) × (encode_request r' ≡ signed_ping)
    × (verify_request toy_python r' tt (some (pos 120)) ≡ true)
verify_request-sign_job_request_example =
    verify_request-sign_job_request toy_python toy tt tt tt tt toy-IsSameKey toy-IsKeyPair
      toy-IsPair ping_request signed_ping (some (pos 120))
      (
        omega arith,
        omega arith,
        (λ e. cc, omega arith),
        omega arith,
        omega arith,
        omega arith,
        omega arith,
        omega arith,
        omega arith,
      )
      valid_ping ping_IsSigned

abbrev report : FailureNotice
report = record {
  protocol_version = codes "0.1";
  message_id = codes "m-2";
  request_id = codes "r-1";
  reporting_node_id = codes "a";
  failed_node_id = codes "b";
  reason = codes "timeout";
  observed_at = pos 125;
  signature_algorithm = codes "Ed25519";
  signature = [];
}

abbrev signed_report : Contracts.FailureNotice
signed_report = record (encode_notice report) { signature = codes "YWJj" }

report_IsSigned : sign_failure_notice toy (some tt) (encode_notice report) ≡ ok signed_report
unfolding sign_failure_notice signature_text ed25519_sign base64url_encode replace utf8 utf8_char
report_IsSigned = refl

valid_report : validate_notice report ≡ ok tt
unfolding validate_notice bytes_eq
valid_report = refl

verify_notice-sign_failure_notice_example :
    (n : FailureNotice) × (encode_notice n ≡ signed_report) × (verify_notice toy_python n tt ≡ true)
verify_notice-sign_failure_notice_example =
    verify_notice-sign_failure_notice toy_python toy tt tt tt tt toy-IsSameKey toy-IsKeyPair
      toy-IsPair report signed_report (omega arith) valid_report report_IsSigned

signs_report : sign_notice toy_python report tt ≡ ok (record report { signature = codes "YWJj" })
unfolding sign_notice validate_notice bytes_eq
signs_report = refl

verify_failure_notice-sign_notice_example :
    verify_failure_notice toy (encode_notice (record report { signature = codes "YWJj" })) (some tt)
    ≡ ok true
verify_failure_notice-sign_notice_example =
    verify_failure_notice-sign_notice toy_python toy tt tt tt tt toy-IsSameKey toy-IsKeyPair
      toy-IsPair report (record report { signature = codes "YWJj" }) (omega arith) signs_report
