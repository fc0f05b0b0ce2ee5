-- ===== src/Wire/RoundTrip.antt =====
-- The parsers of cpp/include/ma2a/wire_parse.hpp on what wire.hpp and failure_notice.hpp print.
use Prim.Native.String.{String}
use ma2a.Base.{
  suc, ◌≡◌, refl, Bool, false, Bytes, codes, ◌++◌, append_assoc, ok, undefined, if◌then◌else◌,
  Bool-cases, inl, inr, ltb, bytes_eq, arith,
}
use ma2a.Base.Int.{ℤ, pos, negsuc, int64_max, IsInt64}
use ma2a.Contracts.{JobResult, FailureNotice}
use ma2a.Json.{◌<<◌, escape, escape_char, comma, key_text, json_string, decimal}
use ma2a.Json.Reader.{expect}
use ma2a.Json.Strings.{string-json_string, key-key_text}
use ma2a.Json.Decimal.{integer-decimal, reread}
use ma2a.Wire.{
  string_member, int_member, signed_job_result_json, signed_failure_notice_json,
  job_result_envelope_json, failure_notice_envelope_json,
}
use ma2a.Wire.Parse.{
  before_comma, read_string, string_field, int_field, read_job_result,
  parse_job_result_envelope_json, read_failure_notice, parse_failure_notice_envelope_json,
}
use ma2a.Wire.Split.{split_envelope-job_result, split_envelope-failure_notice}

-- The one `std::int64_t` whose absolute value is none.
abbrev pub negation_overflows : ℤ → Bool
negation_overflows (pos n) = false
negation_overflows (negsuc n) = ltb int64_max (suc n)

pub read_string-string_member :
    (k : String) (v t : Bytes)
    → escape (codes k) ≡ codes k
    → read_string (codes k) (string_member k v ++ t) ≡ ok (v, t)
unfolding read_string
read_string-string_member k v t plain =
    rw (append_assoc (key_text k) (json_string v) t, key-key_text k _ plain, string-json_string v t)

pub string_field-string_member :
    (k : String) (v t : Bytes)
    → escape (codes k) ≡ codes k
    → string_field (codes k) (string_member k v << comma << t) ≡ ok (v, t)
unfolding string_field expect
string_field-string_member k v t plain = rw (read_string-string_member k v (comma ++ t) plain)

-- What `int_field` does with the integer that is read back.
before_comma-reread :
    (z : ℤ) (t : Bytes)
    → before_comma (reread z (comma ++ t)) ≡ (if negation_overflows z then undefined else ok (z, t))
unfolding expect
before_comma-reread (pos n) t = refl
before_comma-reread (negsuc n) t = ground arith

pub int_field-int_member :
    (k : String) (z : ℤ) (t : Bytes)
    → escape (codes k) ≡ codes k
    → IsInt64 z
    → int_field (codes k) (int_member k z << comma << t)
      ≡ (if negation_overflows z then undefined else ok (z, t))
unfolding int_field
int_field-int_member k z t plain h =
    rw
      (
        append_assoc (key_text k) (decimal z) (comma ++ t),
        key-key_text k _ plain,
        integer-decimal z (comma ++ t) h refl,
      )
      (before_comma-reread z t)

read_job_result-signed :
    (r : JobResult)
    → IsInt64 r.completed_at
    → read_job_result (signed_job_result_json r)
      ≡ (if negation_overflows r.completed_at then undefined else ok r)
unfolding read_job_result signed_job_result_json escape escape_char
read_job_result-signed r h = elim (Bool-cases (negation_overflows r.completed_at)) [
  | inl e ↦ unfold expect in rw (int_field-int_member "completed_at" r.completed_at _ refl h, e)
  | inr e ↦
      unfold expect in
      rw (
        int_field-int_member "completed_at" r.completed_at _ refl h,
        e,
        string_field-string_member "message_id" r.message_id _ refl,
        string_field-string_member "payload" r.payload _ refl,
        string_field-string_member "protocol_version" r.protocol_version _ refl,
        string_field-string_member "recipient_node_id" r.recipient_node_id _ refl,
        string_field-string_member "request_id" r.request_id _ refl,
        string_field-string_member "responder_node_id" r.responder_node_id _ refl,
        string_field-string_member "signature" r.signature _ refl,
        string_field-string_member "signature_algorithm" r.signature_algorithm _ refl,
        read_string-string_member "status" r.status _ refl,
      )
]

-- A printed result is parsed back, whatever bytes its strings hold and whatever 64-bit time it carries;
-- at the time `INT64_MIN` alone the parser overflows instead.
pub parse_job_result-envelope :
    (r : JobResult)
    → IsInt64 r.completed_at
    → parse_job_result_envelope_json (job_result_envelope_json r)
      ≡ (if negation_overflows r.completed_at then undefined else ok r)
unfolding parse_job_result_envelope_json bytes_eq
parse_job_result-envelope r h = rw (split_envelope-job_result r) (read_job_result-signed r h)

read_failure_notice-signed :
    (n : FailureNotice)
    → IsInt64 n.observed_at
    → read_failure_notice (signed_failure_notice_json n)
      ≡ (if negation_overflows n.observed_at then undefined else ok n)
unfolding read_failure_notice signed_failure_notice_json escape escape_char
read_failure_notice-signed n h = elim (Bool-cases (negation_overflows n.observed_at)) [
  | inl e ↦
      unfold expect in
      rw (
        string_field-string_member "failed_node_id" n.failed_node_id _ refl,
        string_field-string_member "message_id" n.message_id _ refl,
        int_field-int_member "observed_at" n.observed_at _ refl h,
        e,
      )
  | inr e ↦
      unfold expect in
      rw (
        string_field-string_member "failed_node_id" n.failed_node_id _ refl,
        string_field-string_member "message_id" n.message_id _ refl,
        int_field-int_member "observed_at" n.observed_at _ refl h,
        e,
        string_field-string_member "protocol_version" n.protocol_version _ refl,
        string_field-string_member "reason" n.reason _ refl,
        string_field-string_member "reporting_node_id" n.reporting_node_id _ refl,
        string_field-string_member "request_id" n.request_id _ refl,
        string_field-string_member "signature" n.signature _ refl,
        read_string-string_member "signature_algorithm" n.signature_algorithm _ refl,
      )
]

-- A printed failure notice is parsed back, whatever bytes its strings hold and whatever 64-bit time
-- it carries; at the time `INT64_MIN` alone the parser overflows instead.
pub parse_failure_notice-envelope :
    (n : FailureNotice)
    → IsInt64 n.observed_at
    → parse_failure_notice_envelope_json (failure_notice_envelope_json n)
      ≡ (if negation_overflows n.observed_at then undefined else ok n)
unfolding parse_failure_notice_envelope_json bytes_eq
parse_failure_notice-envelope n h =
    rw (split_envelope-failure_notice n) (read_failure_notice-signed n h)
