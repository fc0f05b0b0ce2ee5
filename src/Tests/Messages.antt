-- ===== src/Tests/Messages.antt =====
-- The texts of messages, at concrete messages.
use ma2a.Base.{◌≡◌, ◌≢◌, refl, Bytes, codes, [], ◌++◌, ok, undefined, unfinished, arith}
use ma2a.Base.Int.{negsuc, int64_max}
use ma2a.Contracts.{JobRequest, JobResult, FailureNotice}
use ma2a.Json.{decimal}
use ma2a.Json.Reader.{integer}
use ma2a.Json.Decimal.{integer-decimal}
use ma2a.Wire.{
  canonical_job_request_json, job_request_envelope_json, job_result_envelope_json,
  failure_notice_envelope_json,
}
use ma2a.Wire.Parse.{
  parse_job_result_envelope_json, parse_failure_notice_envelope_json, wire_envelope_type,
}
use ma2a.Wire.Split.{wire_envelope_type-envelopes}
use ma2a.Wire.RoundTrip.{parse_job_result-envelope, parse_failure_notice-envelope}
use ma2a.Wire.Canonical.{canonical_job_request_json-injective}
use ma2a.Wire.Total.{parsers_end}
use ma2a.Tests.{request, answer, notice}

parse_job_result-envelope_example :
    parse_job_result_envelope_json (job_result_envelope_json answer) ≡ ok answer
parse_job_result-envelope_example = parse_job_result-envelope answer (omega arith)

parse_failure_notice-envelope_example :
    parse_failure_notice_envelope_json (failure_notice_envelope_json notice) ≡ ok notice
parse_failure_notice-envelope_example = parse_failure_notice-envelope notice (omega arith)

wire_envelope_type-envelopes_example :
    (wire_envelope_type (job_request_envelope_json request) ≡ ok (codes "JOB_REQUEST"))
    × (wire_envelope_type (job_result_envelope_json answer) ≡ ok (codes "JOB_RESULT"))
    × (wire_envelope_type (failure_notice_envelope_json notice) ≡ ok (codes "FAILURE_NOTICE"))
wire_envelope_type-envelopes_example = wire_envelope_type-envelopes request answer notice

-- The signature does not change what is signed.
abbrev signed_request : JobRequest
signed_request = record request { signature = codes "other" }

abbrev signed_answer : JobResult
signed_answer = record answer { signature = codes "other" }

abbrev signed_notice : FailureNotice
signed_notice = record notice { signature = codes "other" }

canonical_job_request_json-injective_example :
    record request { signature = [] } ≡ record signed_request { signature = [] }
canonical_job_request_json-injective_example =
    canonical_job_request_json-injective request signed_request (omega arith) (omega arith)
      (omega arith) (omega arith) (unfold canonical_job_request_json in refl)

-- `INT64_MIN` is printed, and overflows when it is read.
integer-decimal_overflow : integer (decimal (negsuc int64_max) ++ codes ",") ≡ undefined
integer-decimal_overflow = integer-decimal (negsuc int64_max) (codes ",") (omega arith) refl

abbrev broken : Bytes
broken = codes "{\"payload\":{\"x\":\"}\""

parsers_end_example :
    (wire_envelope_type broken ≢ unfinished)
    × (parse_job_result_envelope_json broken ≢ unfinished)
    × (parse_failure_notice_envelope_json broken ≢ unfinished)
parsers_end_example = parsers_end broken
