-- ===== src/Wire/Split.antt =====
-- `split_envelope` of cpp/include/ma2a/wire_parse.hpp on printed envelopes.
use Prim.Native.String.{String}
use ma2a.Base.{◌≡◌, refl, Bytes, codes, [], ◌∷◌, ◌++◌, append_assoc, ok}
use ma2a.Base.Int.{ℤ}
use ma2a.Contracts.{JobRequest, JobResult, FailureNotice}
use ma2a.Json.{◌<<◌, escape, escape_char, comma, key_text, json_string, decimal}
use ma2a.Wire.{
  string_member, int_member, organization_text, signed_job_request_json, signed_job_result_json,
  signed_failure_notice_json, job_request_envelope_json, job_result_envelope_json,
  failure_notice_envelope_json,
}
use ma2a.Wire.Parse.{
  scan, scan_char, close_brace, strip_prefix, split_payload, back, find_byte, closing_quote,
  envelope_type, split_envelope, wire_envelope_type,
}
use ma2a.Wire.Scan.{
  outside, Neutral, Neutral-append, Neutral-json_string, Neutral-decimal, Neutral-key_text,
  Neutral-char,
}

-- A text that ends the object that the loop is in.
abbrev pub Closes : Bytes → Type 0
Closes t = (rest taken : Bytes) → scan (t ++ rest) (outside 0) taken ≡ ok (taken ++ t, rest)

Closes-brace : Closes (codes "}")
unfolding scan scan_char close_brace
Closes-brace rest taken = refl

Closes-append : (s t : Bytes) → Neutral s → Closes t → Closes (s ++ t)
Closes-append s t hs ht rest taken = rw (append_assoc s t rest, hs, ht, append_assoc)

Neutral-comma : Neutral comma
Neutral-comma = Neutral-char b',' refl refl refl

Neutral-member :
    (k : String) (p : Bytes) → escape (codes k) ≡ codes k → Neutral p → Neutral (key_text k ++ p)
Neutral-member k p plain h = Neutral-append (key_text k) p (Neutral-key_text k plain) h

-- A member with a printed value, in front of the rest of an object.
pub Closes-member :
    (k : String) (p : Bytes) {t : Bytes}
    → escape (codes k) ≡ codes k
    → Neutral p
    → Closes t
    → Closes ((key_text k ++ p) << comma << t)
Closes-member k p plain n h =
    Closes-append (key_text k ++ p) _ (Neutral-member k p plain n)
      (Closes-append comma _ Neutral-comma h)

pub Closes-last :
    (k : String) (p : Bytes)
    → escape (codes k) ≡ codes k
    → Neutral p
    → Closes ((key_text k ++ p) << codes "}")
Closes-last k p plain n =
    Closes-append (key_text k ++ p) _ (Neutral-member k p plain n) Closes-brace

Closes-string_member :
    (k : String) (v : Bytes) {t : Bytes}
    → escape (codes k) ≡ codes k
    → Closes t
    → Closes (string_member k v << comma << t)
Closes-string_member k v plain = Closes-member k (json_string v) plain (Neutral-json_string v)

Closes-last_member :
    (k : String) (v : Bytes) → escape (codes k) ≡ codes k → Closes (string_member k v << codes "}")
Closes-last_member k v plain = Closes-last k (json_string v) plain (Neutral-json_string v)

pub Closes-int_member :
    (k : String) (z : ℤ) {t : Bytes}
    → escape (codes k) ≡ codes k
    → Closes t
    → Closes (int_member k z << comma << t)
Closes-int_member k z plain = Closes-member k (decimal z) plain (Neutral-decimal z)

-- An object that closes, in its envelope.
pub split_envelope-object :
    (t suffix type : Bytes)
    → Closes t
    → envelope_type suffix ≡ ok type
    → split_envelope (codes "{\"payload\":" ++ ((b'{' ∷ t) ++ suffix)) ≡ ok (b'{' ∷ t, type)
unfolding split_envelope strip_prefix split_payload scan scan_char
split_envelope-object t suffix type h e = rw (h, e)

pub result_type : envelope_type (codes ",\"type\":\"JOB_RESULT\"}") ≡ ok (codes "JOB_RESULT")
unfolding envelope_type strip_prefix back closing_quote find_byte
result_type = refl

notice_type : envelope_type (codes ",\"type\":\"FAILURE_NOTICE\"}") ≡ ok (codes "FAILURE_NOTICE")
unfolding envelope_type strip_prefix back closing_quote find_byte
notice_type = refl

request_type : envelope_type (codes ",\"type\":\"JOB_REQUEST\"}") ≡ ok (codes "JOB_REQUEST")
unfolding envelope_type strip_prefix back closing_quote find_byte
request_type = refl

pub split_envelope-job_result :
    (r : JobResult)
    → split_envelope (job_result_envelope_json r)
      ≡ ok (signed_job_result_json r, codes "JOB_RESULT")
unfolding job_result_envelope_json signed_job_result_json escape escape_char
split_envelope-job_result r =
    split_envelope-object _ _ _
      (Closes-int_member "completed_at" r.completed_at refl (
        Closes-string_member "message_id" r.message_id refl (
          Closes-string_member "payload" r.payload refl (
            Closes-string_member "protocol_version" r.protocol_version refl (
              Closes-string_member "recipient_node_id" r.recipient_node_id refl (
                Closes-string_member "request_id" r.request_id refl (
                  Closes-string_member "responder_node_id" r.responder_node_id refl (
                    Closes-string_member "signature" r.signature refl (
                      Closes-string_member "signature_algorithm" r.signature_algorithm refl
                        (Closes-last_member "status" r.status refl))))))))))
      result_type

pub split_envelope-failure_notice :
    (n : FailureNotice)
    → split_envelope (failure_notice_envelope_json n)
      ≡ ok (signed_failure_notice_json n, codes "FAILURE_NOTICE")
unfolding failure_notice_envelope_json signed_failure_notice_json escape escape_char
split_envelope-failure_notice n =
    split_envelope-object _ _ _
      (Closes-string_member "failed_node_id" n.failed_node_id refl (
        Closes-string_member "message_id" n.message_id refl (
          Closes-int_member "observed_at" n.observed_at refl (
            Closes-string_member "protocol_version" n.protocol_version refl (
              Closes-string_member "reason" n.reason refl (
                Closes-string_member "reporting_node_id" n.reporting_node_id refl (
                  Closes-string_member "request_id" n.request_id refl (
                    Closes-string_member "signature" n.signature refl
                      (Closes-last_member "signature_algorithm" n.signature_algorithm refl)))))))))
      notice_type

Neutral-null : Neutral (codes "null")
Neutral-null = Neutral-append (b'n' ∷ []) _ (Neutral-char b'n' refl refl refl) (
    Neutral-append (b'u' ∷ []) _ (Neutral-char b'u' refl refl refl) (
      Neutral-append (b'l' ∷ []) _ (Neutral-char b'l' refl refl refl)
        (Neutral-char b'l' refl refl refl)))

Neutral-organization_text : (org : Bytes) → Neutral (organization_text org)
unfolding organization_text
Neutral-organization_text [] = Neutral-null
Neutral-organization_text (c ∷ org) = Neutral-json_string (c ∷ org)

Closes-organization :
    (org : Bytes) {t : Bytes}
    → Closes t
    → Closes (key_text "organization_id" << organization_text org << comma << t)
unfolding escape escape_char
Closes-organization org h =
    Closes-append (key_text "organization_id") _ (Neutral-key_text "organization_id" refl) (
      Closes-append (organization_text org) _ (Neutral-organization_text org)
        (Closes-append comma _ Neutral-comma h))

pub split_envelope-job_request :
    (job : JobRequest)
    → split_envelope (job_request_envelope_json job)
      ≡ ok (signed_job_request_json job, codes "JOB_REQUEST")
unfolding job_request_envelope_json signed_job_request_json escape escape_char
split_envelope-job_request job =
    split_envelope-object _ _ _
      (Closes-int_member "expires_at" job.expires_at refl (
        Closes-int_member "issued_at" job.issued_at refl (
          Closes-string_member "message_id" job.message_id refl (
            Closes-string_member "operation" job.operation refl (
              Closes-organization job.organization_id (
                Closes-string_member "payload" job.payload refl (
                  Closes-string_member "protocol_version" job.protocol_version refl (
                    Closes-string_member "request_id" job.request_id refl (
                      Closes-string_member "sender_node_id" job.sender_node_id refl (
                        Closes-string_member "signature" job.signature refl (
                          Closes-string_member "signature_algorithm" job.signature_algorithm refl
                            (Closes-last_member "target_node_id" job.target_node_id refl))))))))))))
      request_type

-- A printed envelope is told apart by its type, whatever its strings hold: a request, a result
-- and a failure notice have the types that `wire_envelope_type` returns for them.
pub wire_envelope_type-envelopes :
    (job : JobRequest) (r : JobResult) (n : FailureNotice)
    → (wire_envelope_type (job_request_envelope_json job) ≡ ok (codes "JOB_REQUEST"))
      × (wire_envelope_type (job_result_envelope_json r) ≡ ok (codes "JOB_RESULT"))
      × (wire_envelope_type (failure_notice_envelope_json n) ≡ ok (codes "FAILURE_NOTICE"))
unfolding wire_envelope_type
wire_envelope_type-envelopes job r n = (
  rw (split_envelope-job_request job),
  rw (split_envelope-job_result r),
  rw (split_envelope-failure_notice n),
)
