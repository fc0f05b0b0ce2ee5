-- ===== src/Wire/Canonical.antt =====
-- The canonical texts that are signed, cpp/include/ma2a/canonical.hpp and failure_notice.hpp.
use Prim.Native.String.{String}
use ma2a.Base.{
  ◌≡◌, ◌≢◌, refl, sym, ap, true, Bytes, codes, [], ◌∷◌, ◌++◌, ok, undefined, Result, inl, inr,
  Bool-cases, if◌then◌else◌, arith,
}
use ma2a.Base.Int.{ℤ, IsInt64}
use ma2a.Contracts.{JobRequest, JobResult, FailureNotice}
use ma2a.Json.{◌<<◌, escape, escape_char, comma, key_text, json_string}
use ma2a.Json.Strings.{string-json_string}
use ma2a.Wire.{
  string_member, int_member, organization_text, canonical_job_request_json,
  canonical_job_result_json, canonical_failure_notice_json,
}
use ma2a.Wire.Parse.{string_field, int_field}
use ma2a.Wire.RoundTrip.{
  negation_overflows, read_string-string_member, string_field-string_member, int_field-int_member,
}

-- A text in front of two others that agree can be taken off.
pub append_cancel : (s t u : Bytes) → s ++ t ≡ s ++ u → t ≡ u
append_cancel [] t u h = h
append_cancel (c ∷ s) t u h = append_cancel s t u (cc)

pub ok_pair {ℓ} :
    {A : Type ℓ} {a a' : A} {t t' : Bytes}
    → ◌≡◌ {A = Result (A × Bytes)} (ok (a, t)) (ok (a', t'))
    → (a ≡ a') × (t ≡ t')
ok_pair h = (cc, cc)

string_member_inv :
    (k : String) {v v' t t' : Bytes}
    → escape (codes k) ≡ codes k
    → string_member k v << comma << t ≡ string_member k v' << comma << t'
    → (v ≡ v') × (t ≡ t')
string_member_inv k {v} {v'} {t} {t'} plain h = ok_pair (
    cc (
      string_field-string_member k v t plain,
      string_field-string_member k v' t' plain,
      ap (string_field (codes k)) h,
    ))

last_member_inv :
    (k : String) {v v' : Bytes}
    → escape (codes k) ≡ codes k
    → string_member k v << codes "}" ≡ string_member k v' << codes "}"
    → v ≡ v'
last_member_inv k {v} {v'} plain h =
    (ok_pair {t = codes "}"} {t' = codes "}"} (
      cc (
        read_string-string_member k v (codes "}") plain,
        read_string-string_member k v' (codes "}") plain,
      ))).0

-- The integer at which the reader overflows is one alone.
the_minimum :
    (z z' : ℤ)
    → IsInt64 z
    → IsInt64 z'
    → negation_overflows z ≡ true
    → negation_overflows z' ≡ true
    → z ≡ z'
the_minimum z z' h h' e e' = ground arith

int_member_inv :
    (k : String) {z z' : ℤ} {t t' : Bytes}
    → escape (codes k) ≡ codes k
    → IsInt64 z
    → IsInt64 z'
    → int_member k z << comma << t ≡ int_member k z' << comma << t'
    → (z ≡ z') × (t ≡ t')
int_member_inv k {z} {z'} {t} {t'} plain iz iz' h =
    let same : ◌≡◌ {A = Result (ℤ × Bytes)} (if negation_overflows z then undefined else ok (z, t))
        (if negation_overflows z' then undefined else ok (z', t')) =
      cc (
        int_field-int_member k z t plain iz,
        int_field-int_member k z' t' plain iz',
        ap (int_field (codes k)) h,
      ) in
    elim (Bool-cases (negation_overflows z)) [
      | inl e ↦ elim (Bool-cases (negation_overflows z')) [
        | inl e' ↦
            let z_same = the_minimum z z' iz iz' e e' in
            (
              z_same,
              append_cancel comma t t'
                  (append_cancel (int_member k z) (comma << t) (comma << t') (cc)),
            )
        | inr e' ↦ cc
      ]
      | inr e ↦ elim (Bool-cases (negation_overflows z')) [ inl e' ↦ cc | inr e' ↦ ok_pair (cc) ]
    ]

-- Two results, each with a time of 64 bits, that have one canonical text agree in all but the
-- signature: the bytes that are signed leave no other field open.
canonical_job_result_json-injective :
    (r s : JobResult)
    → IsInt64 r.completed_at
    → IsInt64 s.completed_at
    → canonical_job_result_json r ≡ canonical_job_result_json s
    → record r { signature = [] } ≡ record s { signature = [] }
unfolding canonical_job_result_json escape escape_char
canonical_job_result_json-injective r s hr hs h =
    let (e1, h) =
      int_member_inv "completed_at" {z = r.completed_at} {z' = s.completed_at} refl hr hs
        (append_cancel (codes "{") _ _ h) in
    let (e2, h) = string_member_inv "message_id" {v = r.message_id} {v' = s.message_id} refl h in
    let (e3, h) = string_member_inv "payload" {v = r.payload} {v' = s.payload} refl h in
    let (e4, h) =
      string_member_inv "protocol_version" {v = r.protocol_version} {v' = s.protocol_version} refl
        h in
    let (e5, h) =
      string_member_inv "recipient_node_id" {v = r.recipient_node_id} {v' = s.recipient_node_id}
        refl h in
    let (e6, h) = string_member_inv "request_id" {v = r.request_id} {v' = s.request_id} refl h in
    let (e7, h) =
      string_member_inv "responder_node_id" {v = r.responder_node_id} {v' = s.responder_node_id}
        refl h in
    let (e8, h) =
      string_member_inv "signature_algorithm" {v = r.signature_algorithm}
        {v' = s.signature_algorithm} refl h in
    let e9 = last_member_inv "status" {v = r.status} {v' = s.status} refl h in cc

-- Two failure notices, each with a time of 64 bits, that have one canonical text agree in all but
-- the signature.
canonical_failure_notice_json-injective :
    (r s : FailureNotice)
    → IsInt64 r.observed_at
    → IsInt64 s.observed_at
    → canonical_failure_notice_json r ≡ canonical_failure_notice_json s
    → record r { signature = [] } ≡ record s { signature = [] }
unfolding canonical_failure_notice_json escape escape_char
canonical_failure_notice_json-injective r s hr hs h =
    let (e1, h) =
      string_member_inv "failed_node_id" {v = r.failed_node_id} {v' = s.failed_node_id} refl
        (append_cancel (codes "{") _ _ h) in
    let (e2, h) = string_member_inv "message_id" {v = r.message_id} {v' = s.message_id} refl h in
    let (e3, h) =
      int_member_inv "observed_at" {z = r.observed_at} {z' = s.observed_at} refl hr hs h in
    let (e4, h) =
      string_member_inv "protocol_version" {v = r.protocol_version} {v' = s.protocol_version} refl
        h in
    let (e5, h) = string_member_inv "reason" {v = r.reason} {v' = s.reason} refl h in
    let (e6, h) =
      string_member_inv "reporting_node_id" {v = r.reporting_node_id} {v' = s.reporting_node_id}
        refl h in
    let (e7, h) = string_member_inv "request_id" {v = r.request_id} {v' = s.request_id} refl h in
    let e8 =
      last_member_inv "signature_algorithm" {v = r.signature_algorithm} {v' = s.signature_algorithm}
        refl h in
    cc

json_string_inv :
    (v v' t t' : Bytes) → json_string v << t ≡ json_string v' << t' → (v ≡ v') × (t ≡ t')
json_string_inv v v' t t' h =
    ok_pair {t = t} {t' = t'} (cc (string-json_string v t, string-json_string v' t'))

null-ne-json_string : (v t t' : Bytes) → codes "null" << t ≢ json_string v << t'
unfolding json_string
null-ne-json_string v t t' h = cc

-- `null` is not a quoted string.
organization_inv :
    (v v' t t' : Bytes)
    → organization_text v << t ≡ organization_text v' << t'
    → (v ≡ v') × (t ≡ t')
unfolding organization_text
organization_inv [] [] t t' h = (refl, append_cancel (codes "null") t t' h)
organization_inv [] (c ∷ v') t t' h = absurd (null-ne-json_string (c ∷ v') t t' h)
organization_inv (c ∷ v) [] t t' h = absurd (null-ne-json_string (c ∷ v) t' t (sym h))
organization_inv (c ∷ v) (c' ∷ v') t t' h = json_string_inv (c ∷ v) (c' ∷ v') t t' h

-- Two requests, each with times of 64 bits, that have one canonical text agree in all but the
-- signature; an absent organization is told from every other one.
pub canonical_job_request_json-injective :
    (r s : JobRequest)
    → IsInt64 r.expires_at
    → IsInt64 r.issued_at
    → IsInt64 s.expires_at
    → IsInt64 s.issued_at
    → canonical_job_request_json r ≡ canonical_job_request_json s
    → record r { signature = [] } ≡ record s { signature = [] }
unfolding canonical_job_request_json escape escape_char
canonical_job_request_json-injective r s hr kr hs ks h =
    let (e1, h) =
      int_member_inv "expires_at" {z = r.expires_at} {z' = s.expires_at} refl hr hs
        (append_cancel (codes "{") _ _ h) in
    let (e2, h) = int_member_inv "issued_at" {z = r.issued_at} {z' = s.issued_at} refl kr ks h in
    let (e3, h) = string_member_inv "message_id" {v = r.message_id} {v' = s.message_id} refl h in
    let (e4, h) = string_member_inv "operation" {v = r.operation} {v' = s.operation} refl h in
    let (e5, h) =
      organization_inv r.organization_id s.organization_id _ _
        (append_cancel (key_text "organization_id") _ _ h) in
    let h = append_cancel comma _ _ h in
    let (e6, h) = string_member_inv "payload" {v = r.payload} {v' = s.payload} refl h in
    let (e7, h) =
      string_member_inv "protocol_version" {v = r.protocol_version} {v' = s.protocol_version} refl
        h in
    let (e8, h) = string_member_inv "request_id" {v = r.request_id} {v' = s.request_id} refl h in
    let (e9, h) =
      string_member_inv "sender_node_id" {v = r.sender_node_id} {v' = s.sender_node_id} refl h in
    let (e10, h) =
      string_member_inv "signature_algorithm" {v = r.signature_algorithm}
        {v' = s.signature_algorithm} refl h in
    let e11 =
      last_member_inv "target_node_id" {v = r.target_node_id} {v' = s.target_node_id} refl h in
    cc
