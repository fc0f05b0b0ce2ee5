-- ===== src/Orchestrator/Invariant.antt =====
-- What holds of an orchestrator after any sequence of calls that return.
use ma2a.Base.{
  ℕ, ◌≤◌, ◌≡◌, Bool, true, false, Bytes, length, length-append, bytes_eq_iff, is_empty, [], ◌∷◌,
  Option, none, some, ok, arith,
}
use ma2a.Contracts.{JobResult, FailureNotice}
use ma2a.Orchestrator.{
  Orchestrator, in_flight, failed, ok_status, new_orchestrator, exhausted, begin_attempt,
  accept_authenticated_failure, accept_authenticated_result,
}
use ma2a.Orchestrator.Attempts.{length-mark_back}

-- A call that returns.
pub data Step (o o' : Orchestrator) : Type 0 where
  begin : (node : Bytes) → begin_attempt node o ≡ ok o' → Step o o'
  failure : (notice : FailureNotice) → accept_authenticated_failure notice o ≡ ok o' → Step o o'
  success : (r : JobResult) → accept_authenticated_result r o ≡ ok o' → Step o o'

pub data Reach (o : Orchestrator) : Orchestrator → Type 0 where
  here : Reach o o
  next : {p q : Orchestrator} → Reach o p → Step p q → Reach o q

-- The result that an execution has, and what was tested of it.
abbrev pub HasResult : Bytes → Bool → Option JobResult → Type 0
HasResult id false none = Unit
HasResult id false (some r) = ⊥
HasResult id true none = ⊥
HasResult id true (some r) =
    (r.request_id ≡ id) × (r.status ≡ ok_status) × (is_empty r.signature ≡ false)

pub record IsValid (id : Bytes) (cap : ℕ) (o : Orchestrator) : Type 0 where
  pub same_request : o.state.request_id ≡ id
  pub same_cap : o.max_attempts ≡ cap
  pub within : length o.state.attempts ≤ cap
  pub outcome : HasResult id o.state.completed o.state.result

begin_attempt-IsValid :
    (id : Bytes) (cap : ℕ) (node : Bytes) (o o' : Orchestrator)
    → IsValid id cap o
    → begin_attempt node o ≡ ok o'
    → IsValid id cap o'
unfolding begin_attempt exhausted
begin_attempt-IsValid id cap node o o' v h =
    ground
      (arith, length-append o.state.attempts (record { node_id = node; outcome = in_flight } ∷ []))

accept_authenticated_failure-IsValid :
    (id : Bytes) (cap : ℕ) (notice : FailureNotice) (o o' : Orchestrator)
    → IsValid id cap o
    → accept_authenticated_failure notice o ≡ ok o'
    → IsValid id cap o'
unfolding accept_authenticated_failure
accept_authenticated_failure-IsValid id cap notice o o' v h =
    ground (arith, length-mark_back notice.failed_node_id failed o.state.attempts)

accept_authenticated_result-IsValid :
    (id : Bytes) (cap : ℕ) (r : JobResult) (o o' : Orchestrator)
    → IsValid id cap o
    → accept_authenticated_result r o ≡ ok o'
    → IsValid id cap o'
unfolding accept_authenticated_result
accept_authenticated_result-IsValid id cap r o o' v h = ground (
  arith,
  length-mark_back r.responder_node_id ok_status o.state.attempts,
  bytes_eq_iff r.request_id o.state.request_id,
  bytes_eq_iff r.status ok_status,
)

pub new_orchestrator-IsValid :
    (id : Bytes) (cap : ℕ) (o : Orchestrator) → new_orchestrator id cap ≡ ok o → IsValid id cap o
unfolding new_orchestrator
new_orchestrator-IsValid id cap o h = ground arith

pub Step-IsValid :
    (id : Bytes) (cap : ℕ) {o o' : Orchestrator} → IsValid id cap o → Step o o' → IsValid id cap o'
Step-IsValid id cap {o} {o'} v (begin node h) = begin_attempt-IsValid id cap node o o' v h
Step-IsValid id cap {o} {o'} v (failure notice h) =
    accept_authenticated_failure-IsValid id cap notice o o' v h
Step-IsValid id cap {o} {o'} v (success r h) = accept_authenticated_result-IsValid id cap r o o' v h

-- After any sequence of calls that return, on an orchestrator that was made for the request `id`
-- and `cap` attempts: the request and the cap are unchanged, there are at most `cap` attempts, and
-- there is a result exactly when the execution is completed, and it carries that request's id, the
-- status `OK` and a signature.
pub Reach-IsValid :
    (id : Bytes) (cap : ℕ) {o o' : Orchestrator}
    → new_orchestrator id cap ≡ ok o
    → Reach o o'
    → IsValid id cap o'
Reach-IsValid id cap {o} made here = new_orchestrator-IsValid id cap o made
Reach-IsValid id cap made (next r s) = Step-IsValid id cap (Reach-IsValid id cap made r) s
