-- ===== src/Python/Requests.antt =====
-- The text of a request that is signed, as cpp/include/ma2a/canonical.hpp and `canonical_json` of
-- reference/python/ma2a/auth.py print it.

pub mod Printed
use ma2a.Base.{
  ℕ, ◌≡◌, ◌≢◌, ◌↔◌, refl, ◌∙◌, sym, subst, Bytes, codes, [], ◌∷◌, ◌++◌, append_assoc, Option, none,
  some, arith,
}
use ma2a.Json.{◌<<◌, json_string, comma, key_text}
use ma2a.Wire.{int_member, organization_text, canonical_job_request_json}
use ma2a.Wire.Canonical.{append_cancel}
use ma2a.Python.{
  Text, utf8, ascii_char, ascii_escape, dumps_text, text_lt, insert_member, sort_members,
  join_members, dumps, dumps_members, canonical_json,
}
use ma2a.Python.Messages.{JobRequest, unsigned_request, encode_organization, encode_request}
use ma2a.Python.Member.{text_member}
use ma2a.Python.Plain.{
  is_empty-utf8, IsPlain, IsPlain-append, append-IsPlain, utf8_member, text_member-plain,
  text_member-IsPlain, utf8_member_inv, int_member-IsPlain, int_member_inv, json_string-utf8_inv,
  dumps_text-plain, dumps_text-IsPlain,
}
use ma2a.Python.Messages.{optional_text}
use ma2a.Python.Requests.Printed.{
  python_organization, python_request_end, python_request, canonical_json-unsigned_request,
  IsPlainOrganization, IsPlainRequest, python_organization-IsPlain, python_request-IsPlain,
}

organization_text-utf8 :
    (cp : ℕ) (t : Text) → organization_text (utf8 (cp ∷ t)) ≡ json_string (utf8 (cp ∷ t))
unfolding organization_text
organization_text-utf8 cp t = rw (is_empty-utf8 (cp ∷ t))

organization_text-plain :
    (o : Option Text)
    → IsPlainOrganization o
    → organization_text (encode_organization o) ≡ python_organization o
unfolding python_organization
organization_text-plain none p = unfold organization_text in refl
organization_text-plain (some []) (ne, p) = absurd (ne refl)
organization_text-plain (some (cp ∷ t)) (ne, p) =
    organization_text-utf8 cp t ∙ sym (dumps_text-plain (cp ∷ t) p)

-- What C++ prints before and behind an organization.
request_start : JobRequest → Bytes
request_start r =
    codes "{"
    << int_member "expires_at" r.expires_at
    << comma
    << int_member "issued_at" r.issued_at
    << comma
    << utf8_member "message_id" r.message_id
    << comma
    << utf8_member "operation" r.operation
    << comma
    << key_text "organization_id"

request_end : JobRequest → Bytes
request_end r =
    comma
    << utf8_member "payload" r.payload
    << comma
    << utf8_member "protocol_version" r.protocol_version
    << comma
    << utf8_member "request_id" r.request_id
    << comma
    << utf8_member "sender_node_id" r.sender_node_id
    << comma
    << utf8_member "signature_algorithm" r.signature_algorithm
    << comma
    << utf8_member "target_node_id" r.target_node_id
    << codes "}"

canonical_job_request_json-parts :
    (r : JobRequest)
    → canonical_job_request_json (encode_request r)
      ≡ request_start r
        ++ (organization_text (encode_organization r.organization_id) << request_end r)
unfolding canonical_job_request_json request_start request_end
canonical_job_request_json-parts r = simp append_assoc

python_request-parts :
    (r : JobRequest)
    → IsPlain r.message_id
    → IsPlain r.operation
    → python_request r
      ≡ request_start r ++ (python_organization r.organization_id << python_request_end r)
unfolding python_request request_start
python_request-parts r mid op =
    rw
      (
        text_member-plain "message_id" r.message_id mid,
        text_member-plain "operation" r.operation op,
      )
      (simp append_assoc)

null-ne-dumps_text : (s t : Bytes) → organization_text (utf8 []) ++ s ≢ dumps_text [] ++ t
unfolding organization_text utf8 dumps_text
null-ne-dumps_text s t = λ h. ground (arith, h)

-- The texts of an organization, in front of two rests.
organization_inv :
    (o : Option Text) (s t : Bytes)
    → organization_text (encode_organization o) ++ s ≡ python_organization o ++ t
    → IsPlain (organization_text (encode_organization o))
    → IsPlainOrganization o
organization_inv none s t h p = tt
organization_inv (some []) s t h p =
    absurd (null-ne-dumps_text s t (unfold python_organization in h))
organization_inv (some (cp ∷ rest)) s t h p =
    (λ e. cc, json_string-utf8_inv (cp ∷ rest) (subst IsPlain (organization_text-utf8 cp rest) p))

python_request_end-plain :
    (r : JobRequest) → IsPlainRequest r → request_end r ≡ python_request_end r
unfolding request_end python_request_end
python_request_end-plain r (_, _, _, pay, ver, req, snd, alg, tgt) = rw (
  text_member-plain "payload" r.payload pay,
  text_member-plain "protocol_version" r.protocol_version ver,
  text_member-plain "request_id" r.request_id req,
  text_member-plain "sender_node_id" r.sender_node_id snd,
  text_member-plain "signature_algorithm" r.signature_algorithm alg,
  text_member-plain "target_node_id" r.target_node_id tgt,
)

python_request-plain :
    (r : JobRequest)
    → IsPlainRequest r
    → canonical_job_request_json (encode_request r) ≡ python_request r
python_request-plain r p = rw (
  canonical_job_request_json-parts r,
  python_request-parts r p.0 p.1,
  organization_text-plain r.organization_id p.2,
  python_request_end-plain r p,
)

request_start_inv :
    (r : JobRequest) → IsPlain (request_start r) → IsPlain r.message_id × IsPlain r.operation
unfolding request_start
request_start_inv r (_, p) =
    let (_, p) = int_member_inv "expires_at" r.expires_at _ p in
    let (_, p) = int_member_inv "issued_at" r.issued_at _ p in
    let (mid, (_, p)) = utf8_member_inv "message_id" r.message_id _ p in
    let (op, _) = utf8_member_inv "operation" r.operation _ p in (mid, op)

request_end_inv :
    (r : JobRequest)
    → IsPlain (request_end r)
    → IsPlain r.payload
      × IsPlain r.protocol_version
      × IsPlain r.request_id
      × IsPlain r.sender_node_id
      × IsPlain r.signature_algorithm
      × IsPlain r.target_node_id
unfolding request_end
request_end_inv r (_, p) =
    let (pay, (_, p)) = utf8_member_inv "payload" r.payload _ p in
    let (ver, (_, p)) = utf8_member_inv "protocol_version" r.protocol_version _ p in
    let (req, (_, p)) = utf8_member_inv "request_id" r.request_id _ p in
    let (snd, (_, p)) = utf8_member_inv "sender_node_id" r.sender_node_id _ p in
    let (alg, (_, p)) = utf8_member_inv "signature_algorithm" r.signature_algorithm _ p in
    let (tgt, _) = utf8_member_inv "target_node_id" r.target_node_id _ p in
    (pay, ver, req, snd, alg, tgt)

canonical_job_request_json_inv :
    (r : JobRequest)
    → canonical_job_request_json (encode_request r) ≡ python_request r
    → IsPlainRequest r
canonical_job_request_json_inv r h =
    let parts = canonical_job_request_json-parts r in
    let p = subst IsPlain (sym h ∙ parts) (python_request-IsPlain r) in
    let (start, p) = append-IsPlain (request_start r) _ p in
    let (org, p) = append-IsPlain (organization_text (encode_organization r.organization_id)) _ p in
    let (mid, op) = request_start_inv r start in
    let (pay, ver, req, snd, alg, tgt) = request_end_inv r p in
    let rests =
      append_cancel (request_start r) _ _ (sym parts ∙ h ∙ python_request-parts r mid op) in
    let plain =
      organization_inv r.organization_id (request_end r) (python_request_end r) rests org in
    (mid, op, plain, pay, ver, req, snd, alg, tgt)

-- The two libraries sign the same text for a request exactly when every character of its signed
-- texts is below U+007F and its organization is not the empty text, which C++ prints as `null`.
pub canonical_job_request_json_iff :
    (r : JobRequest)
    → (canonical_job_request_json (encode_request r) ≡ canonical_json (unsigned_request r))
      ↔ IsPlainRequest r
canonical_job_request_json_iff r = (
  λ h. canonical_job_request_json_inv r (h ∙ canonical_json-unsigned_request r),
  λ p. python_request-plain r p ∙ sym (canonical_json-unsigned_request r),
)
