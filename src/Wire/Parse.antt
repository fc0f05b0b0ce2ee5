-- ===== src/Wire/Parse.antt =====
-- cpp/include/ma2a/wire_parse.hpp: `split_envelope`, `wire_envelope_type` and the parsers of the
-- two envelopes that a node receives.
use ma2a.Base.{
  ℕ, zero, suc, ◌+◌, Bool, true, false, ◌||◌, not, Bytes, codes, length, take, bytes_eq, [], ◌∷◌,
  ◌++◌, Option, none, some, ltb, ◌==◌, if◌then◌else◌, Result, ok, throw, ◌>>=◌, ◌>>◌, throw_if,
  invalid_envelope, payload_not_object, invalid_nesting, unterminated_payload,
  invalid_envelope_type, invalid_envelope_suffix, expected_job_result, trailing_job_result,
  expected_failure_notice, trailing_failure_notice,
}
use ma2a.Base.Int.{ℤ}
use ma2a.Contracts.{JobResult, FailureNotice}
use ma2a.Json.Reader.{Read, expect, string, key, integer, done}

abbrev pub envelope_prefix : Bytes
envelope_prefix = codes "{\"payload\":"

abbrev pub type_prefix : Bytes
type_prefix = codes ",\"type\":\""

-- The variables of the loop of `split_envelope`. A `depth` below zero throws at once, so a natural
-- number does.
pub record Scan : Type 0 where
  pub in_string : Bool
  pub escaped : Bool
  pub depth : ℕ

-- How a round of the loop ends.
pub data Round : Type 0 where
  go_on : Scan → Round
  payload_end negative_depth : Round

-- `--depth` and the two tests behind it
unfoldable pub close_brace : ℕ → Round
close_brace zero = negative_depth
close_brace (suc depth) =
    if depth == 0
    then payload_end
    else go_on (record { in_string = false; escaped = false; depth = depth })

-- A round inside a string.
unfoldable pub scan_string_char : ℕ → Scan → Scan
scan_string_char ch st =
    if st.escaped
    then record st { escaped = false }
    else if ch == b'\\'
    then record st { escaped = true }
    else if ch == b'"'
    then record st { in_string = false }
    else st

-- A round of the loop.
unfoldable pub scan_char : ℕ → Scan → Round
scan_char ch st =
    if st.in_string
    then go_on (scan_string_char ch st)
    else if ch == b'"'
    then go_on (record st { in_string = true })
    else if ch == b'{'
    then go_on (record st { depth = st.depth + 1 })
    else if ch == b'}'
    then close_brace st.depth
    else go_on st

-- The loop over `i`: the text up to `payload_end`, behind what was `taken`, and the text after it.
unfoldable pub scan : Bytes → Scan → Bytes → Read Bytes
scan [] st taken = throw unterminated_payload
scan (ch ∷ s) st taken = elim (scan_char ch st) [
  | go_on st' ↦ scan s st' (taken ++ ch ∷ [])
  | payload_end ↦ ok (taken ++ ch ∷ [], s)
  | negative_depth ↦ throw invalid_nesting
]

-- `json.compare(0, prefix.size(), prefix)`: the text behind the prefix, if it is there.
unfoldable pub strip_prefix : Bytes → Bytes → Option Bytes
strip_prefix [] s = some s
strip_prefix (p ∷ ps) [] = none
strip_prefix (p ∷ ps) (c ∷ s) = if p == c then strip_prefix ps s else none

-- The payload, from the byte behind the prefix, and the suffix.
unfoldable pub split_payload : Bytes → Read Bytes
split_payload [] = throw invalid_envelope
split_payload (c ∷ s) =
    if c == b'{'
    then scan (c ∷ s) (record { in_string = false; escaped = false; depth = 0 }) []
    else throw payload_not_object

-- `suffix.back()`; the size of the suffix is tested before it is called
unfoldable pub back : Bytes → ℕ
back [] = 0
back (c ∷ []) = c
back (c ∷ d ∷ s) = back (d ∷ s)

-- `find(ch, …)`
unfoldable pub find_byte : ℕ → Bytes → Option ℕ
find_byte ch [] = none
find_byte ch (c ∷ s) =
    if c == ch then some 0 else elim (find_byte ch s) [ none ↦ none | some i ↦ some (i + 1) ]

-- The type, in the text behind the type's prefix.
unfoldable pub closing_quote : Bytes → Result Bytes
closing_quote t = elim (find_byte b'"' t) [
  | none ↦ throw invalid_envelope_suffix
  | some i ↦ if i + 2 == length t then ok (take i t) else throw invalid_envelope_suffix
]

unfoldable pub envelope_type : Bytes → Result Bytes
envelope_type suffix = elim (strip_prefix type_prefix suffix) [
  | none ↦ throw invalid_envelope_type
  | some t ↦
      if ltb (length suffix) (length type_prefix + 2) || not (back suffix == b'}')
      then throw invalid_envelope_type
      else closing_quote t
]

-- What follows the test of the prefix.
abbrev pub split_behind : Option Bytes → Result (Bytes × Bytes)
split_behind none = throw invalid_envelope
split_behind (some s) = do
  (payload, suffix) ← split_payload s
  type ← envelope_type suffix
  ok (payload, type)

-- The payload's text and the type.
unfoldable pub split_envelope : Bytes → Result (Bytes × Bytes)
split_envelope json = split_behind (strip_prefix envelope_prefix json)

unfoldable pub wire_envelope_type : Bytes → Result Bytes
wire_envelope_type json = do (payload, type) ← split_envelope json; ok type

-- `r.key(k); x = r.string();`
unfoldable pub read_string : Bytes → Bytes → Read Bytes
read_string k s = do (_, s₁) ← key k s; string s₁

-- `x = …; r.expect(',');`
abbrev pub before_comma {ℓ} : {A : Type ℓ} → Read A → Read A
before_comma m = m >>= λ (x, s). expect b',' s >>= λ (_, s'). ok (x, s')

-- `r.key(k); x = r.string(); r.expect(',');`
unfoldable pub string_field : Bytes → Bytes → Read Bytes
string_field k s = before_comma (read_string k s)

-- `r.key(k); x = r.integer(); r.expect(',');`
unfoldable pub int_field : Bytes → Bytes → Read ℤ
int_field k s = before_comma (key k s >>= λ (_, s'). integer s')

-- The reads of `parse_job_result_envelope_json`.
unfoldable pub read_job_result : Bytes → Result JobResult
read_job_result payload = do
  (_, s) ← expect b'{' payload
  (completed_at, s) ← int_field (codes "completed_at") s
  (message_id, s) ← string_field (codes "message_id") s
  (body, s) ← string_field (codes "payload") s
  (protocol_version, s) ← string_field (codes "protocol_version") s
  (recipient_node_id, s) ← string_field (codes "recipient_node_id") s
  (request_id, s) ← string_field (codes "request_id") s
  (responder_node_id, s) ← string_field (codes "responder_node_id") s
  (signature, s) ← string_field (codes "signature") s
  (signature_algorithm, s) ← string_field (codes "signature_algorithm") s
  (status, s) ← read_string (codes "status") s
  (_, s) ← expect b'}' s
  throw_if (not (done s)) trailing_job_result
  ok (record {
    protocol_version = protocol_version;
    message_id = message_id;
    request_id = request_id;
    responder_node_id = responder_node_id;
    recipient_node_id = recipient_node_id;
    status = status;
    payload = body;
    completed_at = completed_at;
    signature_algorithm = signature_algorithm;
    signature = signature;
  })

unfoldable pub parse_job_result_envelope_json : Bytes → Result JobResult
parse_job_result_envelope_json json = do
  (payload, type) ← split_envelope json
  throw_if (not (bytes_eq type (codes "JOB_RESULT"))) expected_job_result
  read_job_result payload

-- The reads of `parse_failure_notice_envelope_json`.
unfoldable pub read_failure_notice : Bytes → Result FailureNotice
read_failure_notice payload = do
  (_, s) ← expect b'{' payload
  (failed_node_id, s) ← string_field (codes "failed_node_id") s
  (message_id, s) ← string_field (codes "message_id") s
  (observed_at, s) ← int_field (codes "observed_at") s
  (protocol_version, s) ← string_field (codes "protocol_version") s
  (reason, s) ← string_field (codes "reason") s
  (reporting_node_id, s) ← string_field (codes "reporting_node_id") s
  (request_id, s) ← string_field (codes "request_id") s
  (signature, s) ← string_field (codes "signature") s
  (signature_algorithm, s) ← read_string (codes "signature_algorithm") s
  (_, s) ← expect b'}' s
  throw_if (not (done s)) trailing_failure_notice
  ok (record {
    protocol_version = protocol_version;
    message_id = message_id;
    request_id = request_id;
    reporting_node_id = reporting_node_id;
    failed_node_id = failed_node_id;
    reason = reason;
    observed_at = observed_at;
    signature_algorithm = signature_algorithm;
    signature = signature;
  })

unfoldable pub parse_failure_notice_envelope_json : Bytes → Result FailureNotice
parse_failure_notice_envelope_json json = do
  (payload, type) ← split_envelope json
  throw_if (not (bytes_eq type (codes "FAILURE_NOTICE"))) expected_failure_notice
  read_failure_notice payload
