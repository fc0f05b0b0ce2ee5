-- ===== src/Python/Messages.antt =====
-- The messages of reference/python/ma2a/job.py, and how transport.py frames them. `dataclass` and
-- `asdict` are Python's: a record, and the dictionary of its fields.
use ma2a.Base.{
  ◌*◌, Bytes, length, [], Option, none, some, ltb, Result, ok, ◌>>◌, throw_if, frame_too_large,
}
use ma2a.Base.Int.{ℤ}
use ma2a.Contracts
use ma2a.Framing.{with_header}
use ma2a.Python.{Text, Value, Members, null, number, text, dict, end, member, dumps, utf8}

pub record JobRequest : Type 0 where
  pub protocol_version : Text
  pub message_id : Text
  pub request_id : Text
  pub sender_node_id : Text
  pub target_node_id : Text
  pub organization_id : Option Text
  pub operation : Text
  pub payload : Text
  pub issued_at : ℤ
  pub expires_at : ℤ
  pub signature_algorithm : Text
  pub signature : Text

pub record JobResult : Type 0 where
  pub protocol_version : Text
  pub message_id : Text
  pub request_id : Text
  pub responder_node_id : Text
  pub recipient_node_id : Text
  pub status : Text
  pub payload : Text
  pub completed_at : ℤ
  pub signature_algorithm : Text
  pub signature : Text

abbrev pub optional_text : Option Text → Value
optional_text none = null
optional_text (some t) = text t

-- `unsigned_payload()` of a request, which is `asdict(self)` without `signature`.
unfoldable pub unsigned_request : JobRequest → Members
unsigned_request r = member "protocol_version" (text r.protocol_version) (
    member "message_id" (text r.message_id) (
      member "request_id" (text r.request_id) (
        member "sender_node_id" (text r.sender_node_id) (
          member "target_node_id" (text r.target_node_id) (
            member "organization_id" (optional_text r.organization_id) (
              member "operation" (text r.operation) (
                member "payload" (text r.payload) (
                  member "issued_at" (number r.issued_at) (
                    member "expires_at" (number r.expires_at)
                      (member "signature_algorithm" (text r.signature_algorithm) end))))))))))

-- `unsigned_payload()` of a result.
unfoldable pub unsigned_result : JobResult → Members
unsigned_result r = member "protocol_version" (text r.protocol_version) (
    member "message_id" (text r.message_id) (
      member "request_id" (text r.request_id) (
        member "responder_node_id" (text r.responder_node_id) (
          member "recipient_node_id" (text r.recipient_node_id) (
            member "status" (text r.status) (
              member "payload" (text r.payload) (
                member "completed_at" (number r.completed_at)
                  (member "signature_algorithm" (text r.signature_algorithm) end))))))))

-- `asdict(result)`
unfoldable pub result_dict : JobResult → Members
result_dict r = member "protocol_version" (text r.protocol_version) (
    member "message_id" (text r.message_id) (
      member "request_id" (text r.request_id) (
        member "responder_node_id" (text r.responder_node_id) (
          member "recipient_node_id" (text r.recipient_node_id) (
            member "status" (text r.status) (
              member "payload" (text r.payload) (
                member "completed_at" (number r.completed_at) (
                  member "signature_algorithm" (text r.signature_algorithm)
                    (member "signature" (text r.signature) end)))))))))

-- The body of a frame.
unfoldable pub frame_body : Text → Members → Bytes
frame_body message_type payload =
    dumps (dict (member "type" (text message_type) (member "payload" (dict payload) end)))

-- `send_frame(sock, message_type, payload)`: what `sendall` is given.
unfoldable pub send_frame : Text → Members → Result Bytes
send_frame message_type payload = do
  let body = frame_body message_type payload
  throw_if (ltb (1024 * 1024) (length body)) frame_too_large
  ok (with_header (length body) body)

-- The same message in the C++ library, which holds its texts in UTF-8 and no organization as an
-- empty one.
abbrev pub encode_organization : Option Text → Bytes
encode_organization none = []
encode_organization (some t) = utf8 t

abbrev pub encode_request : JobRequest → Contracts.JobRequest
encode_request r = record {
  protocol_version = utf8 r.protocol_version;
  message_id = utf8 r.message_id;
  request_id = utf8 r.request_id;
  sender_node_id = utf8 r.sender_node_id;
  target_node_id = utf8 r.target_node_id;
  organization_id = encode_organization r.organization_id;
  operation = utf8 r.operation;
  payload = utf8 r.payload;
  issued_at = r.issued_at;
  expires_at = r.expires_at;
  signature_algorithm = utf8 r.signature_algorithm;
  signature = utf8 r.signature;
}

abbrev pub encode_result : JobResult → Contracts.JobResult
encode_result r = record {
  protocol_version = utf8 r.protocol_version;
  message_id = utf8 r.message_id;
  request_id = utf8 r.request_id;
  responder_node_id = utf8 r.responder_node_id;
  recipient_node_id = utf8 r.recipient_node_id;
  status = utf8 r.status;
  payload = utf8 r.payload;
  completed_at = r.completed_at;
  signature_algorithm = utf8 r.signature_algorithm;
  signature = utf8 r.signature;
}
