-- ===== src/Python/Requests/Printed.antt =====
-- `canonical_json` of reference/python/ma2a/auth.py on a request.
use ma2a.Base.{◌≡◌, ◌≢◌, refl, Bytes, codes, [], append_assoc, Option, none, some, arith}
use ma2a.Json.{◌<<◌, comma, key_text}
use ma2a.Wire.{int_member}
use ma2a.Python.{
  Text, ascii_char, ascii_escape, dumps_text, text_lt, insert_member, sort_members, join_members,
  dumps, dumps_members, canonical_json,
}
use ma2a.Python.Messages.{JobRequest, unsigned_request}
use ma2a.Python.Member.{text_member}
use ma2a.Python.Plain.{
  IsPlain, IsPlain-append, text_member-IsPlain, int_member-IsPlain, dumps_text-IsPlain,
}
use ma2a.Python.Messages.{optional_text}

unfoldable pub python_organization : Option Text → Bytes
python_organization none = codes "null"
python_organization (some t) = dumps_text t

-- The members behind an organization.
unfoldable pub python_request_end : JobRequest → Bytes
python_request_end r =
    comma
    << text_member "payload" r.payload
    << comma
    << text_member "protocol_version" r.protocol_version
    << comma
    << text_member "request_id" r.request_id
    << comma
    << text_member "sender_node_id" r.sender_node_id
    << comma
    << text_member "signature_algorithm" r.signature_algorithm
    << comma
    << text_member "target_node_id" r.target_node_id
    << codes "}"

unfoldable pub python_request : JobRequest → Bytes
unfolding python_request_end
python_request r =
    codes "{"
    << int_member "expires_at" r.expires_at
    << comma
    << int_member "issued_at" r.issued_at
    << comma
    << text_member "message_id" r.message_id
    << comma
    << text_member "operation" r.operation
    << comma
    << key_text "organization_id"
    << python_organization r.organization_id
    << python_request_end r

dumps-optional_text : (o : Option Text) → dumps (optional_text o) ≡ python_organization o
unfolding dumps python_organization
dumps-optional_text none = refl
dumps-optional_text (some t) = refl

pub canonical_json-unsigned_request :
    (r : JobRequest) → canonical_json (unsigned_request r) ≡ python_request r
unfolding canonical_json unsigned_request python_request dumps dumps_members sort_members
    insert_member text_lt join_members dumps_text ascii_escape ascii_char key_text
canonical_json-unsigned_request r = rw (dumps-optional_text r.organization_id) (simp append_assoc)

-- An organization whose two texts agree: none, or a plain one that is not empty.
abbrev pub IsPlainOrganization : Option Text → Type 0
IsPlainOrganization none = Unit {0}
IsPlainOrganization (some t) = (t ≢ []) × IsPlain t

abbrev pub IsPlainRequest : JobRequest → Type 0
IsPlainRequest r =
    IsPlain r.message_id
    × IsPlain r.operation
    × IsPlainOrganization r.organization_id
    × IsPlain r.payload
    × IsPlain r.protocol_version
    × IsPlain r.request_id
    × IsPlain r.sender_node_id
    × IsPlain r.signature_algorithm
    × IsPlain r.target_node_id

pub python_organization-IsPlain : (o : Option Text) → IsPlain (python_organization o)
unfolding python_organization
python_organization-IsPlain none = omega arith
python_organization-IsPlain (some t) = dumps_text-IsPlain t

pub python_request-IsPlain : (r : JobRequest) → IsPlain (python_request r)
unfolding python_request python_request_end key_text
python_request-IsPlain r = (
  omega arith,
  int_member-IsPlain "expires_at" r.expires_at _ (omega arith) (
    omega arith,
    int_member-IsPlain "issued_at" r.issued_at _ (omega arith) (
      omega arith,
      text_member-IsPlain "message_id" r.message_id _ (omega arith) (
        omega arith,
        text_member-IsPlain "operation" r.operation _ (omega arith) (
          omega arith,
          IsPlain-append (key_text "organization_id") _ (omega arith) (
              IsPlain-append (python_organization r.organization_id) _
                (python_organization-IsPlain r.organization_id)
                (
                  omega arith,
                  text_member-IsPlain "payload" r.payload _ (omega arith) (
                    omega arith,
                    text_member-IsPlain "protocol_version" r.protocol_version _ (omega arith) (
                      omega arith,
                      text_member-IsPlain "request_id" r.request_id _ (omega arith) (
                        omega arith,
                        text_member-IsPlain "sender_node_id" r.sender_node_id _ (omega arith) (
                          omega arith,
                          text_member-IsPlain "signature_algorithm" r.signature_algorithm _
                              (omega arith)
                              (
                                omega arith,
                                text_member-IsPlain "target_node_id" r.target_node_id _
                                    (omega arith) (omega arith),
                              ),
                        ),
                      ),
                    ),
                  ),
                )),
        ),
      ),
    ),
  ),
)
