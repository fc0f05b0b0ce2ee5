-- ===== src/Python/Results.antt =====
-- The text of a result that is signed, as cpp/include/ma2a/canonical.hpp and `canonical_json` of
-- reference/python/ma2a/auth.py print it.

use ma2a.Base.{◌≡◌, ◌↔◌, ◌∙◌, sym, subst, Bytes, codes, append_assoc, arith}
use ma2a.Json.{◌<<◌, comma, key_text}
use ma2a.Wire.{int_member, canonical_job_result_json}
use ma2a.Python.{
  ascii_char, ascii_escape, dumps_text, text_lt, insert_member, sort_members, join_members, dumps,
  dumps_members, canonical_json,
}
use ma2a.Python.Messages.{JobResult, unsigned_result, encode_result}
use ma2a.Python.Member.{text_member}
use ma2a.Python.Plain.{
  IsPlain, text_member-plain, text_member-IsPlain, utf8_member_inv, int_member-IsPlain,
  int_member_inv,
}

python_result : JobResult → Bytes
python_result r =
    codes "{"
    << int_member "completed_at" r.completed_at
    << comma
    << text_member "message_id" r.message_id
    << comma
    << text_member "payload" r.payload
    << comma
    << text_member "protocol_version" r.protocol_version
    << comma
    << text_member "recipient_node_id" r.recipient_node_id
    << comma
    << text_member "request_id" r.request_id
    << comma
    << text_member "responder_node_id" r.responder_node_id
    << comma
    << text_member "signature_algorithm" r.signature_algorithm
    << comma
    << text_member "status" r.status
    << codes "}"

canonical_json-unsigned_result :
    (r : JobResult) → canonical_json (unsigned_result r) ≡ python_result r
unfolding canonical_json unsigned_result python_result dumps dumps_members sort_members
    insert_member text_lt join_members dumps_text ascii_escape ascii_char key_text
canonical_json-unsigned_result r = simp append_assoc

-- Every text that is signed is plain.
abbrev pub IsPlainResult : JobResult → Type 0
IsPlainResult r =
    IsPlain r.message_id
    × IsPlain r.payload
    × IsPlain r.protocol_version
    × IsPlain r.recipient_node_id
    × IsPlain r.request_id
    × IsPlain r.responder_node_id
    × IsPlain r.signature_algorithm
    × IsPlain r.status

python_result-plain :
    (r : JobResult)
    → IsPlainResult r
    → canonical_job_result_json (encode_result r) ≡ python_result r
unfolding canonical_job_result_json python_result
python_result-plain r (mid, pay, ver, rec, req, resp, alg, st) = rw (
  text_member-plain "message_id" r.message_id mid,
  text_member-plain "payload" r.payload pay,
  text_member-plain "protocol_version" r.protocol_version ver,
  text_member-plain "recipient_node_id" r.recipient_node_id rec,
  text_member-plain "request_id" r.request_id req,
  text_member-plain "responder_node_id" r.responder_node_id resp,
  text_member-plain "signature_algorithm" r.signature_algorithm alg,
  text_member-plain "status" r.status st,
)

python_result-IsPlain : (r : JobResult) → IsPlain (python_result r)
unfolding python_result key_text
python_result-IsPlain r = (
  omega arith,
  int_member-IsPlain "completed_at" r.completed_at _ (omega arith) (
    omega arith,
    text_member-IsPlain "message_id" r.message_id _ (omega arith) (
      omega arith,
      text_member-IsPlain "payload" r.payload _ (omega arith) (
        omega arith,
        text_member-IsPlain "protocol_version" r.protocol_version _ (omega arith) (
          omega arith,
          text_member-IsPlain "recipient_node_id" r.recipient_node_id _ (omega arith) (
            omega arith,
            text_member-IsPlain "request_id" r.request_id _ (omega arith) (
              omega arith,
              text_member-IsPlain "responder_node_id" r.responder_node_id _ (omega arith) (
                omega arith,
                text_member-IsPlain "signature_algorithm" r.signature_algorithm _ (omega arith) (
                  omega arith,
                  text_member-IsPlain "status" r.status _ (omega arith) (omega arith),
                ),
              ),
            ),
          ),
        ),
      ),
    ),
  ),
)

canonical_job_result_json_inv :
    (r : JobResult) → IsPlain (canonical_job_result_json (encode_result r)) → IsPlainResult r
unfolding canonical_job_result_json
canonical_job_result_json_inv r (_, p) =
    let (_, p) = int_member_inv "completed_at" r.completed_at _ p in
    let (mid, (_, p)) = utf8_member_inv "message_id" r.message_id _ p in
    let (pay, (_, p)) = utf8_member_inv "payload" r.payload _ p in
    let (ver, (_, p)) = utf8_member_inv "protocol_version" r.protocol_version _ p in
    let (rec, (_, p)) = utf8_member_inv "recipient_node_id" r.recipient_node_id _ p in
    let (req, (_, p)) = utf8_member_inv "request_id" r.request_id _ p in
    let (resp, (_, p)) = utf8_member_inv "responder_node_id" r.responder_node_id _ p in
    let (alg, (_, p)) = utf8_member_inv "signature_algorithm" r.signature_algorithm _ p in
    let (st, _) = utf8_member_inv "status" r.status _ p in (mid, pay, ver, rec, req, resp, alg, st)

-- The two libraries sign the same text for a result exactly when every character of its signed texts
-- is below U+007F: Python escapes the others, and C++ prints their UTF-8.
pub canonical_job_result_json_iff :
    (r : JobResult)
    → (canonical_job_result_json (encode_result r) ≡ canonical_json (unsigned_result r))
      ↔ IsPlainResult r
canonical_job_result_json_iff r = (
  λ h.
      canonical_job_result_json_inv r
        (subst IsPlain (sym (h ∙ canonical_json-unsigned_result r)) (python_result-IsPlain r)),
  λ p. python_result-plain r p ∙ sym (canonical_json-unsigned_result r),
)
