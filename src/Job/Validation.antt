-- ===== src/Job/Validation.antt =====
-- What the checks of job.hpp accept, and what the reference jobs answer.
use ma2a.Base.{
  ◌≡◌, ◌≢◌, ◌↔◌, ◌⊎◌, true, false, Bool, Bytes, codes, bytes_eq, bytes_eq_iff, is_empty,
  is_empty_iff, [], Result, Exception, ok, throw_if, unsupported_algorithm, Bool-cases, inl, inr,
  ◌>>◌, not, arith,
}
use ma2a.Base.Int.{ℤ, pos, negsuc, is_negative, leb_ℤ, ◌≤ℤ◌}
use ma2a.Contracts.{JobRequest, JobResult, ed25519}
use ma2a.Job.{
  ping, echo, lacks_field, is_unsupported, has_no_window, is_outside, validate_job_request,
  validate_job_result, execute_reference_job,
}

-- `a <= b` among integers.
leb_ℤ_iff : (a b : ℤ) → (leb_ℤ a b ≡ true) ↔ (a ≤ℤ b)
leb_ℤ_iff (pos a) (pos b) = ground arith
leb_ℤ_iff (pos a) (negsuc b) = ground arith
leb_ℤ_iff (negsuc a) (pos b) = ground arith
leb_ℤ_iff (negsuc a) (negsuc b) = ground arith

-- A request that can be executed at the time `now`; a negative `now` asks for no time check.
pub record IsValidRequest (request : JobRequest) (now : ℤ) : Type 0 where
  pub versioned : request.protocol_version ≢ []
  pub has_message : request.message_id ≢ []
  pub has_request : request.request_id ≢ []
  pub has_sender : request.sender_node_id ≢ []
  pub has_target : request.target_node_id ≢ []
  pub supported : (request.operation ≡ ping) ⊎ (request.operation ≡ echo)
  pub issued : pos 0 ≤ℤ request.issued_at
  pub opens : ¬ (request.expires_at ≤ℤ request.issued_at)
  pub in_window :
      (is_negative now ≡ true) ⊎ ((request.issued_at ≤ℤ now) × (now ≤ℤ request.expires_at))
  pub algorithm : request.signature_algorithm ≡ ed25519

is_negative_iff : (z : ℤ) → (is_negative z ≡ false) ↔ (pos 0 ≤ℤ z)
is_negative_iff (pos n) = ground arith
is_negative_iff (negsuc n) = ground arith

throw_if_iff :
    (b : Bool) (e : Exception) (m : Result (Unit {0}))
    → ((throw_if b e >> m) ≡ ok tt) ↔ ((b ≡ false) × (m ≡ ok tt))
throw_if_iff b e m = ground arith

lacks_field_iff :
    (r : JobRequest)
    → (lacks_field r ≡ false) ↔ (
        (is_empty r.protocol_version ≡ false)
        × (is_empty r.message_id ≡ false)
        × (is_empty r.request_id ≡ false)
        × (is_empty r.sender_node_id ≡ false)
        × (is_empty r.target_node_id ≡ false)
        × (is_empty r.operation ≡ false))
unfolding lacks_field
lacks_field_iff r = ground arith

is_unsupported_iff :
    (r : JobRequest) → (is_unsupported r ≡ false) ↔ ((r.operation ≡ ping) ⊎ (r.operation ≡ echo))
unfolding is_unsupported
is_unsupported_iff r = ground (arith, bytes_eq_iff r.operation ping, bytes_eq_iff r.operation echo)

has_no_window_iff :
    (r : JobRequest)
    → (has_no_window r ≡ false)
      ↔ ((pos 0 ≤ℤ r.issued_at) × (leb_ℤ r.expires_at r.issued_at ≡ false))
unfolding has_no_window
has_no_window_iff r = ground (arith, is_negative_iff r.issued_at)

is_outside_iff :
    (r : JobRequest) (now : ℤ)
    → (is_outside r now ≡ false)
      ↔ ((is_negative now ≡ true) ⊎ ((r.issued_at ≤ℤ now) × (now ≤ℤ r.expires_at)))
unfolding is_outside
is_outside_iff r now = ground (arith, leb_ℤ_iff r.issued_at now, leb_ℤ_iff now r.expires_at)

algorithm_iff :
    (s : Bytes)
    → (throw_if (not (bytes_eq s ed25519)) unsupported_algorithm ≡ ok tt) ↔ (s ≡ ed25519)
algorithm_iff s = ground (arith, bytes_eq_iff s ed25519)

supported_named : (s : Bytes) → (s ≡ ping) ⊎ (s ≡ echo) → is_empty s ≡ false
supported_named s h = ground arith

later_lem : (a b : ℤ) → ¬ (a ≤ℤ b) → leb_ℤ a b ≡ false
later_lem a b h = elim (Bool-cases (leb_ℤ a b)) [
  | inl e ↦ absurd (h ((leb_ℤ_iff a b).0 e))
  | inr e ↦ e
]

validate_job_request_sound :
    (r : JobRequest) (now : ℤ) → validate_job_request r now ≡ ok tt → IsValidRequest r now
unfolding validate_job_request
validate_job_request_sound r now h =
    let (fields, h₁) = (throw_if_iff (lacks_field r) _ _).0 h in
    let (operation, h₂) = (throw_if_iff (is_unsupported r) _ _).0 h₁ in
    let (window, h₃) = (throw_if_iff (has_no_window r) _ _).0 h₂ in
    let (time, h₄) = (throw_if_iff (is_outside r now) _ _).0 h₃ in
    let (e₁, e₂, e₃, e₄, e₅, _) = (lacks_field_iff r).0 fields in
    let (starts, later) = (has_no_window_iff r).0 window in
    record {
      versioned = (is_empty_iff _).0 e₁;
      has_message = (is_empty_iff _).0 e₂;
      has_request = (is_empty_iff _).0 e₃;
      has_sender = (is_empty_iff _).0 e₄;
      has_target = (is_empty_iff _).0 e₅;
      supported = (is_unsupported_iff r).0 operation;
      issued = starts;
      opens = λ k. cc (later, (leb_ℤ_iff r.expires_at r.issued_at).1 k);
      in_window = (is_outside_iff r now).0 time;
      algorithm = (algorithm_iff r.signature_algorithm).0 h₄;
    }

validate_job_request_complete :
    (r : JobRequest) (now : ℤ) → IsValidRequest r now → validate_job_request r now ≡ ok tt
unfolding validate_job_request
validate_job_request_complete r now v =
    let fields = (lacks_field_iff r).1 (
      (is_empty_iff _).1 v.versioned,
      (is_empty_iff _).1 v.has_message,
      (is_empty_iff _).1 v.has_request,
      (is_empty_iff _).1 v.has_sender,
      (is_empty_iff _).1 v.has_target,
      supported_named r.operation v.supported,
    ) in
    let window = (has_no_window_iff r).1 (v.issued, later_lem r.expires_at r.issued_at v.opens) in
    let time = (is_outside_iff r now).1 v.in_window in
    rw (fields, (is_unsupported_iff r).1 v.supported, window, time)
      ((algorithm_iff r.signature_algorithm).1 v.algorithm)

-- `validate_job_request` passes exactly the requests that name a version, a message, a request, a
-- sender and a target, ask for `PING` or `ECHO`, have a validity window that starts at zero or
-- later and is not empty, hold the time `now` in it unless `now` is negative, and are signed by
-- Ed25519.
pub validate_job_request_iff :
    (request : JobRequest) (now : ℤ)
    → (validate_job_request request now ≡ ok tt) ↔ IsValidRequest request now
validate_job_request_iff request now =
    (validate_job_request_sound request now, validate_job_request_complete request now)

-- A request that passes the check is answered with the status `OK`: `PING` with `PONG`, `ECHO` with
-- the request's own payload.
execute_reference_job-valid :
    (r : JobRequest) (now : ℤ)
    → validate_job_request r now ≡ ok tt
    → ((r.operation ≡ ping) × (execute_reference_job r ≡ (codes "OK", codes "PONG")))
      ⊎ ((r.operation ≡ echo) × (execute_reference_job r ≡ (codes "OK", r.payload)))
unfolding execute_reference_job bytes_eq
execute_reference_job-valid r now h = elim ((validate_job_request_iff r now).0 h).supported [
  | inl e ↦ inl (e, rw e)
  | inr e ↦ inr (e, rw e)
]

-- `validate_job_result` passes exactly the results that name a version, a message, a request, a
-- responder and a recipient, have the status `OK` or `ERROR`, were completed at time zero or later,
-- and are signed by Ed25519.
validate_job_result_iff :
    (r : JobResult)
    → (validate_job_result r ≡ ok tt) ↔ (
        (r.protocol_version ≢ [])
        × (r.message_id ≢ [])
        × (r.request_id ≢ [])
        × (r.responder_node_id ≢ [])
        × (r.recipient_node_id ≢ [])
        × ((r.status ≡ codes "OK") ⊎ (r.status ≡ codes "ERROR"))
        × (pos 0 ≤ℤ r.completed_at)
        × (r.signature_algorithm ≡ ed25519))
unfolding validate_job_result
validate_job_result_iff r = ground (
  arith,
  is_empty_iff r.protocol_version,
  is_empty_iff r.message_id,
  is_empty_iff r.request_id,
  is_empty_iff r.responder_node_id,
  is_empty_iff r.recipient_node_id,
  bytes_eq_iff r.status (codes "OK"),
  bytes_eq_iff r.status (codes "ERROR"),
  is_negative_iff r.completed_at,
  algorithm_iff r.signature_algorithm,
)
