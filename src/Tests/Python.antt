-- ===== src/Tests/Python.antt =====
-- Messages of the Python reference, at concrete inputs.
use ma2a.Base.{
  none, ◌≡◌, ◌↔◌, refl, Bytes, codes, bytes_eq, length, [], ◌∷◌, Option, some, ok, undefined, ◌>>=◌,
  if◌then◌else◌, arith,
}
use ma2a.Base.Int.{pos}
use ma2a.Framing.{with_header, decode_complete_frame}
use ma2a.Job
use ma2a.Json.{decimal, digits, hex4}
use ma2a.Wire.{canonical_job_request_json, canonical_job_result_json}
use ma2a.Wire.Parse.{parse_job_result_envelope_json}
use ma2a.Wire.RoundTrip.{negation_overflows}
use ma2a.Crypto.{replace}
use ma2a.Python.{
  canonical_json, dumps, dumps_members, sort_members, insert_member, text_lt, join_members,
  dumps_text, ascii_escape, ascii_char,
}
use ma2a.Python.Messages.{
  JobRequest, JobResult, unsigned_request, unsigned_result, result_dict, frame_body, send_frame,
  encode_request, encode_result,
}
use ma2a.Python.Envelope.{parse_job_result-send_frame}
use ma2a.Python.Results.{IsPlainResult, canonical_job_result_json_iff}
use ma2a.Python.Requests.{canonical_job_request_json_iff}
use ma2a.Python.Requests.Printed.{IsPlainRequest}
use ma2a.Python.Packages.{Cryptography}
use ma2a.Python.Job.{validate_request, validate_result, execute_reference_job, sign_result}
use ma2a.Python.Agreement.{dated, encode_answer, checks-agree}
use ma2a.Python.Signing.{IsSameKey}
use ma2a.Tests.{toy}

abbrev request : JobRequest
request = record {
  protocol_version = codes "0.2";
  message_id = codes "m1";
  request_id = codes "r1";
  sender_node_id = codes "home";
  target_node_id = codes "b";
  organization_id = some (codes "org");
  operation = codes "ECHO";
  payload = codes "hi";
  issued_at = pos 100;
  expires_at = pos 160;
  signature_algorithm = codes "Ed25519";
  signature = [];
}

abbrev pub plain_result : JobResult
plain_result = record {
  protocol_version = codes "0.2";
  message_id = codes "m2";
  request_id = codes "r1";
  responder_node_id = codes "b";
  recipient_node_id = codes "home";
  status = codes "OK";
  payload = codes "hi";
  completed_at = pos 107;
  signature_algorithm = codes "Ed25519";
  signature = [];
}

abbrev pub signed_result : JobResult
signed_result = record plain_result { signature = codes "YWJj" }

-- Its payload has a letter with an accent, and a character that needs a surrogate pair.
abbrev pub result : JobResult
result = record signed_result { payload = 0xe9 ∷ 0x1f600 ∷ [] }

abbrev pub body : Bytes
body = frame_body (codes "JOB_RESULT") (result_dict result)

abbrev frame : Bytes
frame = with_header (length body) body

sends : send_frame (codes "JOB_RESULT") (result_dict result) ≡ ok frame
unfolding send_frame frame_body result_dict dumps dumps_members sort_members insert_member text_lt
    join_members dumps_text ascii_escape ascii_char decimal digits hex4
sends = refl

parse_job_result-send_frame_example :
    (decode_complete_frame frame >>= parse_job_result_envelope_json)
    ≡ (if negation_overflows (pos 107) then undefined else ok (encode_result result))
parse_job_result-send_frame_example =
    parse_job_result-send_frame result frame
      (
        ground arith,
        ground arith,
        ground arith,
        ground arith,
        ground arith,
        ground arith,
        ground arith,
        ground arith,
        ground arith,
      )
      (omega arith) sends

canonical_job_result_json_iff_example :
    (canonical_job_result_json (encode_result result) ≡ canonical_json (unsigned_result result))
    ↔ IsPlainResult result
canonical_job_result_json_iff_example = canonical_job_result_json_iff result

canonical_job_request_json_iff_example :
    (canonical_job_request_json (encode_request request)
      ≡ canonical_json (unsigned_request request))
    ↔ IsPlainRequest request
canonical_job_request_json_iff_example = canonical_job_request_json_iff request

checks-agree_example :
    (Job.validate_job_request (encode_request request) (pos 120)
      ≡ validate_request request (dated (pos 120)))
    × (Job.validate_job_result (encode_result result) ≡ validate_result result)
    × (Job.execute_reference_job (encode_request request)
        ≡ encode_answer (execute_reference_job request))
checks-agree_example = checks-agree request result (pos 120)

-- Every signature is the bytes of "abc".
abbrev pub toy_python : Cryptography
toy_python = record {
  PrivateKey = Unit {0};
  PublicKey = Unit {0};
  sign = λ key message. codes "abc";
  verify = λ key signature message. bytes_eq signature (codes "abc");
  public_bytes_raw = λ key. codes "abc";
  from_public_bytes = λ bytes. if bytes_eq bytes (codes "abc") then some tt else none;
  urlsafe_b64encode = λ bytes. codes "YWJj";
  b64decode = λ bytes. if bytes_eq bytes (codes "YWJj") then some (codes "abc") else none;
}

toy_writes :
    (t : Bytes)
    → ◌≡◌ {A = Option Bytes} (some (codes "YWJj")) (some t)
    → codes "YWJj" ≡ replace (replace t b'+' b'-') b'/' b'_'
unfolding replace
toy_writes t h = let e : codes "YWJj" ≡ t = cc in rw (← e)

pub toy-IsSameKey : IsSameKey toy_python toy tt tt
toy-IsSameKey = record {
  starts = refl;
  sizes = λ m. refl;
  signs = λ m. refl;
  writes = λ s t h. toy_writes t h;
  ascii = λ s. omega arith;
}

pub signs : sign_result toy_python plain_result tt ≡ ok signed_result
unfolding sign_result validate_result bytes_eq
signs = refl
