-- ===== src/Python/Notices.antt =====
-- `FailureNotice` of reference/python/ma2a/capability.py, and the text of it that is signed.
pub mod Signed
use ma2a.Base.{
  ◌≡◌, ◌∙◌, sym, Bool, true, false, not, ◌||◌, Bytes, codes, bytes_eq, is_empty, [], append_assoc,
  if◌then◌else◌, Result, ok, ◌>>◌, throw_if, missing_failure_field, negative_observation,
  unsupported_algorithm, arith,
}
use ma2a.Base.Int.{ℤ, is_negative}
use ma2a.Contracts
use ma2a.Json.{◌<<◌, comma, key_text}
use ma2a.Wire.{int_member, canonical_failure_notice_json}
use ma2a.Python.{
  Text, Members, number, text, end, member, utf8, ascii_char, ascii_escape, dumps_text, text_lt,
  insert_member, sort_members, join_members, dumps, dumps_members, canonical_json,
}
use ma2a.Python.Packages.{Cryptography, verify_text, unless_raised}
use ma2a.Python.Member.{text_member}
use ma2a.Python.Plain.{IsPlain, text_member-plain}

pub record FailureNotice : Type 0 where
  pub protocol_version : Text
  pub message_id : Text
  pub request_id : Text
  pub reporting_node_id : Text
  pub failed_node_id : Text
  pub reason : Text
  pub observed_at : ℤ
  pub signature_algorithm : Text
  pub signature : Text

-- `FailureNotice.unsigned_payload`
unfoldable pub unsigned_notice : FailureNotice → Members
unsigned_notice n = member "protocol_version" (text n.protocol_version) (
    member "message_id" (text n.message_id) (
      member "request_id" (text n.request_id) (
        member "reporting_node_id" (text n.reporting_node_id) (
          member "failed_node_id" (text n.failed_node_id) (
            member "reason" (text n.reason) (
              member "observed_at" (number n.observed_at)
                (member "signature_algorithm" (text n.signature_algorithm) end)))))))

-- `FailureNotice.validate`
unfoldable pub validate_notice : FailureNotice → Result (Unit {0})
validate_notice n = do
  throw_if
      (is_empty n.protocol_version
        || is_empty n.message_id
        || is_empty n.request_id
        || is_empty n.reporting_node_id
        || is_empty n.failed_node_id
        || is_empty n.reason)
      missing_failure_field
  throw_if (is_negative n.observed_at) negative_observation
  throw_if (not (bytes_eq n.signature_algorithm (codes "Ed25519"))) unsupported_algorithm

module _ (py : Cryptography) where
  unfoldable pub sign_notice : FailureNotice → py.PrivateKey → Result FailureNotice
  sign_notice n private_key = do
    validate_notice n
    let signature =
        py.sign private_key (canonical_json (unsigned_notice (record n { signature = [] })))
    ok (record n { signature = py.urlsafe_b64encode signature })

  unfoldable pub verify_notice : FailureNotice → py.PublicKey → Bool
  verify_notice n public_key = unless_raised (validate_notice n) (
      if is_empty n.signature
      then false
      else verify_text py public_key n.signature (canonical_json (unsigned_notice n)))

-- The same notice in the C++ library, which holds its texts in UTF-8.
abbrev pub encode_notice : FailureNotice → Contracts.FailureNotice
encode_notice n = record {
  protocol_version = utf8 n.protocol_version;
  message_id = utf8 n.message_id;
  request_id = utf8 n.request_id;
  reporting_node_id = utf8 n.reporting_node_id;
  failed_node_id = utf8 n.failed_node_id;
  reason = utf8 n.reason;
  observed_at = n.observed_at;
  signature_algorithm = utf8 n.signature_algorithm;
  signature = utf8 n.signature;
}

python_notice : FailureNotice → Bytes
python_notice n =
    codes "{"
    << text_member "failed_node_id" n.failed_node_id
    << comma
    << text_member "message_id" n.message_id
    << comma
    << int_member "observed_at" n.observed_at
    << comma
    << text_member "protocol_version" n.protocol_version
    << comma
    << text_member "reason" n.reason
    << comma
    << text_member "reporting_node_id" n.reporting_node_id
    << comma
    << text_member "request_id" n.request_id
    << comma
    << text_member "signature_algorithm" n.signature_algorithm
    << codes "}"

canonical_json-unsigned_notice :
    (n : FailureNotice) → canonical_json (unsigned_notice n) ≡ python_notice n
unfolding canonical_json unsigned_notice python_notice dumps dumps_members sort_members
    insert_member text_lt join_members dumps_text ascii_escape ascii_char key_text
canonical_json-unsigned_notice n = simp append_assoc

-- Every text that is signed, but for the name of the algorithm, is plain.
abbrev pub IsPlainNotice : FailureNotice → Type 0
IsPlainNotice n =
    IsPlain n.failed_node_id
    × IsPlain n.message_id
    × IsPlain n.protocol_version
    × IsPlain n.reason
    × IsPlain n.reporting_node_id
    × IsPlain n.request_id

python_notice-plain :
    (n : FailureNotice)
    → IsPlainNotice n
    → IsPlain n.signature_algorithm
    → canonical_failure_notice_json (encode_notice n) ≡ python_notice n
unfolding canonical_failure_notice_json python_notice
python_notice-plain n (failed, mid, ver, reason, reporting, req) alg = rw (
  text_member-plain "failed_node_id" n.failed_node_id failed,
  text_member-plain "message_id" n.message_id mid,
  text_member-plain "protocol_version" n.protocol_version ver,
  text_member-plain "reason" n.reason reason,
  text_member-plain "reporting_node_id" n.reporting_node_id reporting,
  text_member-plain "request_id" n.request_id req,
  text_member-plain "signature_algorithm" n.signature_algorithm alg,
)

-- The two libraries sign the same text for a plain notice.
pub canonical_failure_notice_json-plain :
    (n : FailureNotice)
    → IsPlainNotice n
    → IsPlain n.signature_algorithm
    → canonical_failure_notice_json (encode_notice n) ≡ canonical_json (unsigned_notice n)
canonical_failure_notice_json-plain n p alg =
    python_notice-plain n p alg ∙ sym (canonical_json-unsigned_notice n)
