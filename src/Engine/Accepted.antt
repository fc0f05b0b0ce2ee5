-- ===== src/Engine/Accepted.antt =====
-- The calls of one round of `execute` in cpp/include/ma2a/resilient_execution.hpp that throw nothing.

use ma2a.Base.{
  ℕ, ◌<◌, ◌≡◌, ◌≢◌, false, Bytes, length, bytes_eq_iff, is_empty, List, [], leb, none, some, ok,
  throw, Exception, arith,
}
use ma2a.Contracts.{JobResult, FailureNotice}
use ma2a.Orchestrator.{
  contains, ok_status, new_orchestrator, begin_attempt, accept_authenticated_failure,
  accept_authenticated_result,
}
use ma2a.Engine.{accept}
use ma2a.Engine.Round.{begun, after_failures}
use ma2a.Engine.Execute.{exhausted-after_failures}

pub begin_attempt_room :
    (id : Bytes) (cap : ℕ) (nodes : List Bytes) (target : Bytes)
    → contains nodes target ≡ false
    → is_empty target ≡ false
    → length nodes < cap
    → begin_attempt target (after_failures id cap nodes) ≡ ok (begun id cap nodes target)
unfolding begin_attempt
begin_attempt_room id cap nodes target fresh named room =
    let open_test : leb cap (length nodes) ≡ false = ground arith in
    rw (named, fresh, exhausted-after_failures id cap nodes, open_test)

pub new_orchestrator_lem :
    (id : Bytes) (cap : ℕ)
    → is_empty id ≡ false
    → 0 < cap
    → new_orchestrator id cap ≡ ok (after_failures id cap [])
unfolding new_orchestrator
new_orchestrator_lem id cap named allowed = ground arith

pub accept_result-ne-throw :
    (id : Bytes) (cap : ℕ) (nodes : List Bytes) (target : Bytes) (r : JobResult) (e : Exception)
    → r.request_id ≡ id
    → r.status ≡ ok_status
    → is_empty r.signature ≡ false
    → accept target (some r) none (begun id cap nodes target) ≢ throw e
unfolding accept accept_authenticated_result
accept_result-ne-throw id cap nodes target r e same good signed =
    ground (arith, bytes_eq_iff r.request_id id, bytes_eq_iff r.status ok_status)

pub accept_failure-ne-throw :
    (id : Bytes) (cap : ℕ) (nodes : List Bytes) (target : Bytes) (n : FailureNotice) (e : Exception)
    → n.request_id ≡ id
    → n.failed_node_id ≡ target
    → is_empty target ≡ false
    → is_empty n.signature ≡ false
    → accept target none (some n) (begun id cap nodes target) ≢ throw e
unfolding accept accept_authenticated_failure
accept_failure-ne-throw id cap nodes target n e same of_target named signed =
    ground (arith, bytes_eq_iff n.request_id id, bytes_eq_iff n.failed_node_id target)
