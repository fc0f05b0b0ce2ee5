-- ===== src/Python/Agreement.antt =====
-- The checks of cpp/include/ma2a/job.hpp and of reference/python/ma2a/job.py on the same message.
use native.Mathlib.Decide.{dec_lt}
use ma2a.Base.{
  ℕ, ◌≡◌, ◌<◌, ◌≤◌, refl, false, Bytes, codes, bytes_eq, [], ◌∷◌, ◌++◌, Option, none, some, arith,
}
use ma2a.Base.Int.{ℤ, pos, negsuc}
use ma2a.Job
use ma2a.Python.{Text, utf8_char, utf8}
use ma2a.Python.Plain.{IsPlain, utf8_char-plain, is_empty-utf8}
use ma2a.Python.Messages.{JobRequest, JobResult, encode_request, encode_result}
use ma2a.Python.Job.{is_outside, validate_request, validate_result, execute_reference_job}

utf8_char_high :
    (cp c : ℕ) (t s : Bytes) → 0x7f ≤ cp → c < 0x7f → bytes_eq (utf8_char cp ++ t) (c ∷ s) ≡ false
unfolding utf8_char bytes_eq
utf8_char_high cp c t s h k = ground arith

-- A text is a given plain one exactly when its UTF-8 is.
pub bytes_eq-utf8 : (t s : Text) → IsPlain s → bytes_eq (utf8 t) s ≡ bytes_eq t s
unfolding utf8 bytes_eq
bytes_eq-utf8 [] [] p = refl
bytes_eq-utf8 [] (c ∷ s) p = refl
bytes_eq-utf8 (cp ∷ t) [] p = unfold utf8_char in ground arith
bytes_eq-utf8 (cp ∷ t) (c ∷ s) (h, p) = elim (dec_lt cp 0x7f) [
  | yes low ↦ rw (utf8_char-plain cp low, bytes_eq-utf8 t s p)
  | no high ↦ rw (utf8_char_high cp c (utf8 t) s (omega arith) h) (ground arith)
]

-- The time that C++ takes for no time, and the others.
abbrev pub dated : ℤ → Option ℤ
dated (pos n) = some (pos n)
dated (negsuc n) = none

is_outside-encode_request :
    (r : JobRequest) (now : ℤ) → Job.is_outside (encode_request r) now ≡ is_outside r (dated now)
unfolding Job.is_outside is_outside
is_outside-encode_request r (pos n) = refl
is_outside-encode_request r (negsuc n) = refl

validate_job_request-agree :
    (r : JobRequest) (now : ℤ)
    → Job.validate_job_request (encode_request r) now ≡ validate_request r (dated now)
unfolding Job.validate_job_request Job.lacks_field Job.is_unsupported Job.has_no_window
    validate_request
validate_job_request-agree r now = rw (
  is_outside-encode_request r now,
  is_empty-utf8 r.protocol_version,
  is_empty-utf8 r.message_id,
  is_empty-utf8 r.request_id,
  is_empty-utf8 r.sender_node_id,
  is_empty-utf8 r.target_node_id,
  is_empty-utf8 r.operation,
  bytes_eq-utf8 r.operation (codes "PING") (omega arith),
  bytes_eq-utf8 r.operation (codes "ECHO") (omega arith),
  bytes_eq-utf8 r.signature_algorithm (codes "Ed25519") (omega arith),
)

validate_job_result-agree :
    (r : JobResult) → Job.validate_job_result (encode_result r) ≡ validate_result r
unfolding Job.validate_job_result validate_result
validate_job_result-agree r = rw (
  is_empty-utf8 r.protocol_version,
  is_empty-utf8 r.message_id,
  is_empty-utf8 r.request_id,
  is_empty-utf8 r.responder_node_id,
  is_empty-utf8 r.recipient_node_id,
  is_empty-utf8 r.status,
  bytes_eq-utf8 r.status (codes "OK") (omega arith),
  bytes_eq-utf8 r.status (codes "ERROR") (omega arith),
  bytes_eq-utf8 r.signature_algorithm (codes "Ed25519") (omega arith),
)

-- The answer of the reference jobs, its texts in UTF-8.
abbrev pub encode_answer : Text × Text → Bytes × Bytes
encode_answer (status, payload) = (utf8 status, utf8 payload)

execute_reference_job-agree :
    (r : JobRequest)
    → Job.execute_reference_job (encode_request r) ≡ encode_answer (execute_reference_job r)
unfolding Job.execute_reference_job execute_reference_job utf8 utf8_char
execute_reference_job-agree r =
    rw
      (
        bytes_eq-utf8 r.operation (codes "PING") (omega arith),
        bytes_eq-utf8 r.operation (codes "ECHO") (omega arith),
      )
      (ground arith)

-- The two libraries accept the same requests and results, reject the others with the same message,
-- and give the same answer to a reference job. A time of C++ below zero is Python's `None`.
pub checks-agree :
    (r : JobRequest) (s : JobResult) (now : ℤ)
    → (Job.validate_job_request (encode_request r) now ≡ validate_request r (dated now))
      × (Job.validate_job_result (encode_result s) ≡ validate_result s)
      × (Job.execute_reference_job (encode_request r) ≡ encode_answer (execute_reference_job r))
checks-agree r s now =
    (validate_job_request-agree r now, validate_job_result-agree s, execute_reference_job-agree r)
