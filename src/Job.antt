-- ===== src/Job.antt =====
-- cpp/include/ma2a/job.hpp: the checks on a job's messages, and the reference jobs.
pub mod Validation
use ma2a.Base.{
  ◌&&◌, ◌||◌, not, Bool, Bytes, codes, bytes_eq, is_empty, if◌then◌else◌, Result, ok, ◌>>◌, ◌>>=◌,
  throw_if, missing_request_field, unsupported_operation, invalid_window, outside_window,
  unsupported_algorithm, missing_result_field, invalid_status, negative_completion,
}
use ma2a.Base.Int.{ℤ, is_negative, leb_ℤ}
use ma2a.Contracts.{JobRequest, JobResult, ed25519}

abbrev pub ping : Bytes
ping = codes "PING"

abbrev pub echo : Bytes
echo = codes "ECHO"

-- The tests of `validate_job_request`.
unfoldable pub lacks_field : JobRequest → Bool
lacks_field request =
    is_empty request.protocol_version
    || is_empty request.message_id
    || is_empty request.request_id
    || is_empty request.sender_node_id
    || is_empty request.target_node_id
    || is_empty request.operation

unfoldable pub is_unsupported : JobRequest → Bool
is_unsupported request =
    not (bytes_eq request.operation ping) && not (bytes_eq request.operation echo)

unfoldable pub has_no_window : JobRequest → Bool
has_no_window request = is_negative request.issued_at || leb_ℤ request.expires_at request.issued_at

unfoldable pub is_outside : JobRequest → ℤ → Bool
is_outside request now =
    not (is_negative now) && not (leb_ℤ request.issued_at now && leb_ℤ now request.expires_at)

unfoldable pub validate_job_request : JobRequest → ℤ → Result (Unit {0})
validate_job_request request now = do
  throw_if (lacks_field request) missing_request_field
  throw_if (is_unsupported request) unsupported_operation
  throw_if (has_no_window request) invalid_window
  throw_if (is_outside request now) outside_window
  throw_if (not (bytes_eq request.signature_algorithm ed25519)) unsupported_algorithm

unfoldable pub validate_job_result : JobResult → Result (Unit {0})
validate_job_result result = do
  throw_if
      (is_empty result.protocol_version
        || is_empty result.message_id
        || is_empty result.request_id
        || is_empty result.responder_node_id
        || is_empty result.recipient_node_id
        || is_empty result.status)
      missing_result_field
  throw_if
      (not (bytes_eq result.status (codes "OK")) && not (bytes_eq result.status (codes "ERROR")))
      invalid_status
  throw_if (is_negative result.completed_at) negative_completion
  throw_if (not (bytes_eq result.signature_algorithm ed25519)) unsupported_algorithm

-- The status and the payload of the answer.
unfoldable pub execute_reference_job : JobRequest → Bytes × Bytes
execute_reference_job request =
    if bytes_eq request.operation ping
    then (codes "OK", codes "PONG")
    else if bytes_eq request.operation echo
    then (codes "OK", request.payload)
    else (codes "ERROR", codes "unsupported_operation")
