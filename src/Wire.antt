-- ===== src/Wire.antt =====
-- The texts that are signed and sent: cpp/include/ma2a/canonical.hpp (objects without their
-- signature), cpp/include/ma2a/wire.hpp and cpp/include/ma2a/failure_notice.hpp (signed objects and
-- envelopes).
pub mod Parse
pub mod Scan
pub mod Split
pub mod Total
pub mod Canonical
pub mod RoundTrip
use Prim.Native.String.{String}
use ma2a.Base.{Bytes, codes, is_empty, ◌++◌, if◌then◌else◌}
use ma2a.Base.Int.{ℤ}
use ma2a.Contracts.{JobRequest, JobResult, FailureNotice}
use ma2a.Json.{◌<<◌, json_string, decimal, key_text, comma}

-- `<< "\"key\":" << json_string(value)`
abbrev pub string_member : String → Bytes → Bytes
string_member k value = key_text k ++ json_string value

-- `<< "\"key\":" << value`
abbrev pub int_member : String → ℤ → Bytes
int_member k value = key_text k ++ decimal value

-- An empty organization is printed as `null`.
unfoldable pub organization_text : Bytes → Bytes
organization_text org = if is_empty org then codes "null" else json_string org

unfoldable pub canonical_job_request_json : JobRequest → Bytes
canonical_job_request_json job =
    codes "{"
    << int_member "expires_at" job.expires_at
    << comma
    << int_member "issued_at" job.issued_at
    << comma
    << string_member "message_id" job.message_id
    << comma
    << string_member "operation" job.operation
    << comma
    << key_text "organization_id"
    << organization_text job.organization_id
    << comma
    << string_member "payload" job.payload
    << comma
    << string_member "protocol_version" job.protocol_version
    << comma
    << string_member "request_id" job.request_id
    << comma
    << string_member "sender_node_id" job.sender_node_id
    << comma
    << string_member "signature_algorithm" job.signature_algorithm
    << comma
    << string_member "target_node_id" job.target_node_id
    << codes "}"

unfoldable pub canonical_job_result_json : JobResult → Bytes
canonical_job_result_json result =
    codes "{"
    << int_member "completed_at" result.completed_at
    << comma
    << string_member "message_id" result.message_id
    << comma
    << string_member "payload" result.payload
    << comma
    << string_member "protocol_version" result.protocol_version
    << comma
    << string_member "recipient_node_id" result.recipient_node_id
    << comma
    << string_member "request_id" result.request_id
    << comma
    << string_member "responder_node_id" result.responder_node_id
    << comma
    << string_member "signature_algorithm" result.signature_algorithm
    << comma
    << string_member "status" result.status
    << codes "}"

unfoldable pub canonical_failure_notice_json : FailureNotice → Bytes
canonical_failure_notice_json notice =
    codes "{"
    << string_member "failed_node_id" notice.failed_node_id
    << comma
    << string_member "message_id" notice.message_id
    << comma
    << int_member "observed_at" notice.observed_at
    << comma
    << string_member "protocol_version" notice.protocol_version
    << comma
    << string_member "reason" notice.reason
    << comma
    << string_member "reporting_node_id" notice.reporting_node_id
    << comma
    << string_member "request_id" notice.request_id
    << comma
    << string_member "signature_algorithm" notice.signature_algorithm
    << codes "}"

unfoldable pub signed_job_request_json : JobRequest → Bytes
signed_job_request_json job =
    codes "{"
    << int_member "expires_at" job.expires_at
    << comma
    << int_member "issued_at" job.issued_at
    << comma
    << string_member "message_id" job.message_id
    << comma
    << string_member "operation" job.operation
    << comma
    << key_text "organization_id"
    << organization_text job.organization_id
    << comma
    << string_member "payload" job.payload
    << comma
    << string_member "protocol_version" job.protocol_version
    << comma
    << string_member "request_id" job.request_id
    << comma
    << string_member "sender_node_id" job.sender_node_id
    << comma
    << string_member "signature" job.signature
    << comma
    << string_member "signature_algorithm" job.signature_algorithm
    << comma
    << string_member "target_node_id" job.target_node_id
    << codes "}"

unfoldable pub signed_job_result_json : JobResult → Bytes
signed_job_result_json result =
    codes "{"
    << int_member "completed_at" result.completed_at
    << comma
    << string_member "message_id" result.message_id
    << comma
    << string_member "payload" result.payload
    << comma
    << string_member "protocol_version" result.protocol_version
    << comma
    << string_member "recipient_node_id" result.recipient_node_id
    << comma
    << string_member "request_id" result.request_id
    << comma
    << string_member "responder_node_id" result.responder_node_id
    << comma
    << string_member "signature" result.signature
    << comma
    << string_member "signature_algorithm" result.signature_algorithm
    << comma
    << string_member "status" result.status
    << codes "}"

unfoldable pub signed_failure_notice_json : FailureNotice → Bytes
signed_failure_notice_json notice =
    codes "{"
    << string_member "failed_node_id" notice.failed_node_id
    << comma
    << string_member "message_id" notice.message_id
    << comma
    << int_member "observed_at" notice.observed_at
    << comma
    << string_member "protocol_version" notice.protocol_version
    << comma
    << string_member "reason" notice.reason
    << comma
    << string_member "reporting_node_id" notice.reporting_node_id
    << comma
    << string_member "request_id" notice.request_id
    << comma
    << string_member "signature" notice.signature
    << comma
    << string_member "signature_algorithm" notice.signature_algorithm
    << codes "}"

unfoldable pub job_request_envelope_json : JobRequest → Bytes
job_request_envelope_json job =
    codes "{\"payload\":" << signed_job_request_json job << codes ",\"type\":\"JOB_REQUEST\"}"

unfoldable pub job_result_envelope_json : JobResult → Bytes
job_result_envelope_json result =
    codes "{\"payload\":" << signed_job_result_json result << codes ",\"type\":\"JOB_RESULT\"}"

unfoldable pub failure_notice_envelope_json : FailureNotice → Bytes
failure_notice_envelope_json notice =
    codes "{\"payload\":"
    << signed_failure_notice_json notice
    << codes ",\"type\":\"FAILURE_NOTICE\"}"
