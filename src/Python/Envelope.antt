-- ===== src/Python/Envelope.antt =====
-- The frames of reference/python/ma2a/transport.py that carry a result, in the parser of
-- cpp/include/ma2a/wire_parse.hpp.
use Prim.Native.String.{String}
use ma2a.Base.{
  ◌<◌, ◌≡◌, refl, Bytes, codes, ◌∷◌, ◌++◌, append_assoc, ok, undefined, if◌then◌else◌, Bool-cases,
  inl, inr, bytes_eq, arith, All, length, ◌>>=◌,
}
use ma2a.Base.Int.{IsInt64}
use ma2a.Json.{◌<<◌, escape, escape_char, comma, key_text}
use ma2a.Json.Reader.{expect}
use ma2a.Wire.{int_member}
use ma2a.Wire.Parse.{wire_envelope_type, read_job_result, parse_job_result_envelope_json}
use ma2a.Wire.Split.{
  Closes, Closes-member, Closes-last, Closes-int_member, split_envelope-object, result_type,
}
use ma2a.Wire.RoundTrip.{negation_overflows, int_field-int_member}
use ma2a.Framing.{encode_frame, decode_complete_frame}
use ma2a.Framing.RoundTrip.{encode_frame_lem, decode-encode}
use ma2a.Python.{
  Members, Text, IsScalar, ascii_char, ascii_escape, dumps_text, text_lt, insert_member,
  sort_members, join_members, dumps, dumps_members,
}
use ma2a.Python.Messages.{JobResult, result_dict, frame_body, send_frame, encode_result}
use ma2a.Python.Member.{
  text_member, Neutral-dumps_text, read_string-text_member, string_field-text_member,
}

-- The members of a result after the opening brace, with the closing one.
result_text : JobResult → Bytes
result_text r =
    int_member "completed_at" r.completed_at
    << comma
    << text_member "message_id" r.message_id
    << comma
    << text_member "payload" r.payload
    << comma
    << text_member "protocol_version" r.protocol_version
    << comma
    << text_member "recipient_node_id" r.recipient_node_id
    << comma
    << text_member "request_id" r.request_id
    << comma
    << text_member "responder_node_id" r.responder_node_id
    << comma
    << text_member "signature" r.signature
    << comma
    << text_member "signature_algorithm" r.signature_algorithm
    << comma
    << text_member "status" r.status
    << codes "}"

frame_body-result_dict :
    (r : JobResult)
    → frame_body (codes "JOB_RESULT") (result_dict r)
      ≡ codes "{\"payload\":" ++ ((b'{' ∷ result_text r) ++ codes ",\"type\":\"JOB_RESULT\"}")
unfolding frame_body result_dict result_text dumps dumps_members sort_members insert_member text_lt
    join_members dumps_text ascii_escape ascii_char key_text
frame_body-result_dict r = simp append_assoc

-- Every text of the message is one that UTF-8 can carry.
abbrev pub IsEncodable : JobResult → Type 0
IsEncodable r =
    All IsScalar r.protocol_version
    × All IsScalar r.message_id
    × All IsScalar r.request_id
    × All IsScalar r.responder_node_id
    × All IsScalar r.recipient_node_id
    × All IsScalar r.status
    × All IsScalar r.payload
    × All IsScalar r.signature_algorithm
    × All IsScalar r.signature

Closes-text_member :
    (k : String) (v : Text) {t : Bytes}
    → escape (codes k) ≡ codes k
    → Closes t
    → Closes (text_member k v << comma << t)
Closes-text_member k v plain = Closes-member k (dumps_text v) plain (Neutral-dumps_text v)

Closes-result_text : (r : JobResult) → Closes (result_text r)
unfolding result_text escape escape_char
Closes-result_text r = Closes-int_member "completed_at" r.completed_at refl (
    Closes-text_member "message_id" r.message_id refl (
      Closes-text_member "payload" r.payload refl (
        Closes-text_member "protocol_version" r.protocol_version refl (
          Closes-text_member "recipient_node_id" r.recipient_node_id refl (
            Closes-text_member "request_id" r.request_id refl (
              Closes-text_member "responder_node_id" r.responder_node_id refl (
                Closes-text_member "signature" r.signature refl (
                  Closes-text_member "signature_algorithm" r.signature_algorithm refl (
                    Closes-last "status" (dumps_text r.status) refl
                      (Neutral-dumps_text r.status))))))))))

read_job_result-result_text :
    (r : JobResult)
    → IsEncodable r
    → IsInt64 r.completed_at
    → read_job_result (b'{' ∷ result_text r)
      ≡ (if negation_overflows r.completed_at then undefined else ok (encode_result r))
unfolding read_job_result result_text escape escape_char
read_job_result-result_text r (ver, mid, req, resp, rec, st, pay, alg, sig) h =
    elim (Bool-cases (negation_overflows r.completed_at)) [
      | inl e ↦ unfold expect in rw (int_field-int_member "completed_at" r.completed_at _ refl h, e)
      | inr e ↦
          unfold expect in
          rw (
            int_field-int_member "completed_at" r.completed_at _ refl h,
            e,
            string_field-text_member "message_id" r.message_id _ refl mid,
            string_field-text_member "payload" r.payload _ refl pay,
            string_field-text_member "protocol_version" r.protocol_version _ refl ver,
            string_field-text_member "recipient_node_id" r.recipient_node_id _ refl rec,
            string_field-text_member "request_id" r.request_id _ refl req,
            string_field-text_member "responder_node_id" r.responder_node_id _ refl resp,
            string_field-text_member "signature" r.signature _ refl sig,
            string_field-text_member "signature_algorithm" r.signature_algorithm _ refl alg,
            read_string-text_member "status" r.status _ refl st,
          )
    ]

pub parse_job_result-frame_body :
    (r : JobResult)
    → IsEncodable r
    → IsInt64 r.completed_at
    → parse_job_result_envelope_json (frame_body (codes "JOB_RESULT") (result_dict r))
      ≡ (if negation_overflows r.completed_at then undefined else ok (encode_result r))
unfolding parse_job_result_envelope_json bytes_eq
parse_job_result-frame_body r e h =
    rw
      (
        frame_body-result_dict r,
        split_envelope-object (result_text r) _ (codes "JOB_RESULT") (Closes-result_text r)
            result_type,
      )
      (read_job_result-result_text r e h)

pub wire_envelope_type-frame_body :
    (r : JobResult)
    → wire_envelope_type (frame_body (codes "JOB_RESULT") (result_dict r)) ≡ ok (codes "JOB_RESULT")
unfolding wire_envelope_type
wire_envelope_type-frame_body r = rw (
  frame_body-result_dict r,
  split_envelope-object (result_text r) _ (codes "JOB_RESULT") (Closes-result_text r) result_type,
)

frame_body_pos :
    (message_type : Text) (payload : Members) → 0 < length (frame_body message_type payload)
unfolding frame_body dumps
frame_body_pos message_type payload = omega arith

-- The two libraries frame a body alike.
encode_frame-frame_body :
    (message_type : Text) (payload : Members) (frame : Bytes)
    → send_frame message_type payload ≡ ok frame
    → encode_frame (frame_body message_type payload) ≡ ok frame
unfolding send_frame
encode_frame-frame_body message_type payload frame h =
    ground (
      arith,
      frame_body_pos message_type payload,
      encode_frame_lem (frame_body message_type payload),
    )

-- A result that the Python reference sends, whatever its texts hold but lone surrogates and whatever
-- 64-bit time it carries, is unframed and parsed by the C++ library to the same result, its texts in
-- UTF-8; at the time `INT64_MIN` alone the parser overflows instead.
pub parse_job_result-send_frame :
    (r : JobResult) (frame : Bytes)
    → IsEncodable r
    → IsInt64 r.completed_at
    → send_frame (codes "JOB_RESULT") (result_dict r) ≡ ok frame
    → (decode_complete_frame frame >>= parse_job_result_envelope_json)
      ≡ (if negation_overflows r.completed_at then undefined else ok (encode_result r))
parse_job_result-send_frame r frame e h sent =
    rw
      (decode-encode _ frame
        (encode_frame-frame_body (codes "JOB_RESULT") (result_dict r) frame sent))
      (parse_job_result-frame_body r e h)
