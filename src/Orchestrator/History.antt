-- ===== src/Orchestrator/History.antt =====
-- What a sequence of calls of execution_orchestrator.hpp leaves of the earlier state.
use ma2a.Base.{
  ◌≡◌, refl, sym, ◌∙◌, ◌≢◌, ap, true, Bytes, bytes_eq_refl, List, [], ◌∷◌, ◌++◌, append_assoc,
  append-nil, ok, throw, already_completed, arith,
}
use ma2a.Contracts.{JobResult, FailureNotice}
use ma2a.Orchestrator.{
  ExecutionAttempt, Orchestrator, in_flight, failed, ok_status, contains, begin_attempt,
  accept_authenticated_failure, accept_authenticated_result,
}
use ma2a.Orchestrator.Attempts.{nodes, nodes-mark_back, contains-insert}
use ma2a.Orchestrator.Invariant.{Reach, here, next, begin, failure, success}

-- The attempted nodes of the later state continue those of the earlier one, and every node that
-- was excluded still is.
pub record Extends (o o' : Orchestrator) : Type 0 where
  pub later : List Bytes
  pub continues : nodes o'.state.attempts ≡ nodes o.state.attempts ++ later
  pub still_excluded :
      (node : Bytes)
      → contains o.state.excluded_nodes node ≡ true
      → contains o'.state.excluded_nodes node ≡ true

nodes-append : (xs ys : List ExecutionAttempt) → nodes (xs ++ ys) ≡ nodes xs ++ nodes ys
nodes-append [] ys = refl
nodes-append (a ∷ xs) ys = ap (λ t. a.node_id ∷ t) (nodes-append xs ys)

Extends-trans : {o p q : Orchestrator} → Extends o p → Extends p q → Extends o q
Extends-trans {o} e f = record {
  later = e.later ++ f.later;
  continues =
      f.continues
      ∙ ap (λ t. t ++ f.later) e.continues
      ∙ append_assoc (nodes o.state.attempts) e.later f.later;
  still_excluded = λ node h. f.still_excluded node (e.still_excluded node h);
}

begin_attempt-Extends :
    (node : Bytes) (o o' : Orchestrator) → begin_attempt node o ≡ ok o' → Extends o o'
unfolding begin_attempt
begin_attempt-Extends node o o' h = record {
  later = node ∷ [];
  continues =
      ground (
        arith,
        nodes-append o.state.attempts (record { node_id = node; outcome = in_flight } ∷ []),
      );
  still_excluded = λ n k. ground arith;
}

accept_authenticated_failure-Extends :
    (notice : FailureNotice) (o o' : Orchestrator)
    → accept_authenticated_failure notice o ≡ ok o'
    → Extends o o'
unfolding accept_authenticated_failure
accept_authenticated_failure-Extends notice o o' h = record {
  later = [];
  continues = ground (
    arith,
    nodes-mark_back notice.failed_node_id failed o.state.attempts,
    append-nil (nodes o.state.attempts),
  );
  still_excluded =
      λ n k. ground (arith, contains-insert notice.failed_node_id n o.state.excluded_nodes);
}

accept_authenticated_result-Extends :
    (r : JobResult) (o o' : Orchestrator) → accept_authenticated_result r o ≡ ok o' → Extends o o'
unfolding accept_authenticated_result
accept_authenticated_result-Extends r o o' h = record {
  later = [];
  continues = ground (
    arith,
    nodes-mark_back r.responder_node_id ok_status o.state.attempts,
    append-nil (nodes o.state.attempts),
  );
  still_excluded = λ n k. ground arith;
}

-- Calls never forget an attempt or an exclusion.
pub Reach-Extends : {o o' : Orchestrator} → Reach o o' → Extends o o'
Reach-Extends {o} here = record {
  later = [];
  continues = sym (append-nil (nodes o.state.attempts));
  still_excluded = λ node h. h;
}
Reach-Extends (next {p} {q} r (begin node h)) =
    Extends-trans (Reach-Extends r) (begin_attempt-Extends node p q h)
Reach-Extends (next {p} {q} r (failure notice h)) =
    Extends-trans (Reach-Extends r) (accept_authenticated_failure-Extends notice p q h)
Reach-Extends (next {p} {q} r (success x h)) =
    Extends-trans (Reach-Extends r) (accept_authenticated_result-Extends x p q h)

begin_attempt_excluded :
    (node : Bytes) (o o' : Orchestrator)
    → contains o.state.excluded_nodes node ≡ true
    → begin_attempt node o ≢ ok o'
unfolding begin_attempt
begin_attempt_excluded node o o' h = ground arith

accept_authenticated_failure_excludes :
    (notice : FailureNotice) (o o' : Orchestrator)
    → accept_authenticated_failure notice o ≡ ok o'
    → contains o'.state.excluded_nodes notice.failed_node_id ≡ true
unfolding accept_authenticated_failure
accept_authenticated_failure_excludes notice o o' h = ground (
  arith,
  contains-insert notice.failed_node_id notice.failed_node_id o.state.excluded_nodes,
  bytes_eq_refl notice.failed_node_id,
)

-- Once a failure of a node is accepted, no later call begins an attempt at that node, whatever
-- calls come between.
pub never_retried :
    (notice : FailureNotice) (o p q q' : Orchestrator)
    → accept_authenticated_failure notice o ≡ ok p
    → Reach p q
    → begin_attempt notice.failed_node_id q ≢ ok q'
never_retried notice o p q q' h r =
    begin_attempt_excluded notice.failed_node_id q q'
      ((Reach-Extends r).still_excluded _ (accept_authenticated_failure_excludes notice o p h))

accept_authenticated_result_completes :
    (r : JobResult) (o o' : Orchestrator)
    → accept_authenticated_result r o ≡ ok o'
    → o'.state.completed ≡ true
unfolding accept_authenticated_result
accept_authenticated_result_completes r o o' h = ground arith

completed_refuses :
    (o : Orchestrator) (node : Bytes) (notice : FailureNotice) (r : JobResult)
    → o.state.completed ≡ true
    → (begin_attempt node o ≡ throw already_completed)
      × (accept_authenticated_failure notice o ≡ throw already_completed)
      × (accept_authenticated_result r o ≡ throw already_completed)
unfolding begin_attempt accept_authenticated_failure accept_authenticated_result
completed_refuses o node notice r h = (ground arith, ground arith, ground arith)

-- An accepted result is final: every later call of any of the three methods throws "execution
-- already completed".
completed_is_final :
    (r : JobResult) (o p : Orchestrator) (node : Bytes) (notice : FailureNotice) (r' : JobResult)
    → accept_authenticated_result r o ≡ ok p
    → (begin_attempt node p ≡ throw already_completed)
      × (accept_authenticated_failure notice p ≡ throw already_completed)
      × (accept_authenticated_result r' p ≡ throw already_completed)
completed_is_final r o p node notice r' h =
    completed_refuses p node notice r' (accept_authenticated_result_completes r o p h)
