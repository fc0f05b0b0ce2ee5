-- ===== src/Python/Job.antt =====
-- The operations of reference/python/ma2a/job.py. The packages `cryptography` and `base64` are a
-- parameter; an exception is named by the C++ exception with its message.
use ma2a.Base.{
  Bool, false, not, ◌&&◌, ◌||◌, codes, bytes_eq, is_empty, [], Option, none, some, if◌then◌else◌,
  Result, ok, ◌>>◌, throw_if, missing_request_field, unsupported_operation, invalid_window,
  outside_window, unsupported_algorithm, missing_result_field, invalid_status, negative_completion,
}
use ma2a.Base.Int.{ℤ, is_negative, leb_ℤ}
use ma2a.Python.{Text, canonical_json}
use ma2a.Python.Packages.{Cryptography, verify_text, unless_raised}
use ma2a.Python.Messages.{JobRequest, JobResult, unsigned_request, unsigned_result}

-- `now is not None and not issued_at <= now <= expires_at`
unfoldable pub is_outside : JobRequest → Option ℤ → Bool
is_outside r none = false
is_outside r (some now) = not (leb_ℤ r.issued_at now && leb_ℤ now r.expires_at)

-- `JobRequest.validate`
unfoldable pub validate_request : JobRequest → Option ℤ → Result (Unit {0})
validate_request r now = do
  throw_if
      (is_empty r.protocol_version
        || is_empty r.message_id
        || is_empty r.request_id
        || is_empty r.sender_node_id
        || is_empty r.target_node_id
        || is_empty r.operation)
      missing_request_field
  throw_if (not (bytes_eq r.operation (codes "PING")) && not (bytes_eq r.operation (codes "ECHO")))
      unsupported_operation
  throw_if (is_negative r.issued_at || leb_ℤ r.expires_at r.issued_at) invalid_window
  throw_if (is_outside r now) outside_window
  throw_if (not (bytes_eq r.signature_algorithm (codes "Ed25519"))) unsupported_algorithm

-- `JobResult.validate`
unfoldable pub validate_result : JobResult → Result (Unit {0})
validate_result r = do
  throw_if
      (is_empty r.protocol_version
        || is_empty r.message_id
        || is_empty r.request_id
        || is_empty r.responder_node_id
        || is_empty r.recipient_node_id
        || is_empty r.status)
      missing_result_field
  throw_if (not (bytes_eq r.status (codes "OK")) && not (bytes_eq r.status (codes "ERROR")))
      invalid_status
  throw_if (is_negative r.completed_at) negative_completion
  throw_if (not (bytes_eq r.signature_algorithm (codes "Ed25519"))) unsupported_algorithm

unfoldable pub execute_reference_job : JobRequest → Text × Text
execute_reference_job r =
    if bytes_eq r.operation (codes "PING")
    then (codes "OK", codes "PONG")
    else if bytes_eq r.operation (codes "ECHO")
    then (codes "OK", r.payload)
    else (codes "ERROR", codes "unsupported_operation")

module _ (py : Cryptography) where
  open py use {PrivateKey}

  unfoldable pub sign_request : JobRequest → PrivateKey → Result JobRequest
  sign_request r private_key = do
    validate_request r none
    let signature =
        py.sign private_key (canonical_json (unsigned_request (record r { signature = [] })))
    ok (record r { signature = py.urlsafe_b64encode signature })

  unfoldable pub sign_result : JobResult → PrivateKey → Result JobResult
  sign_result r private_key = do
    validate_result r
    let signature =
        py.sign private_key (canonical_json (unsigned_result (record r { signature = [] })))
    ok (record r { signature = py.urlsafe_b64encode signature })

  unfoldable pub verify_request : JobRequest → py.PublicKey → Option ℤ → Bool
  verify_request r public_key now = unless_raised (validate_request r now) (
      if is_empty r.signature
      then false
      else verify_text py public_key r.signature (canonical_json (unsigned_request r)))

  unfoldable pub verify_result : JobResult → py.PublicKey → Bool
  verify_result r public_key = unless_raised (validate_result r) (
      if is_empty r.signature
      then false
      else verify_text py public_key r.signature (canonical_json (unsigned_result r)))
