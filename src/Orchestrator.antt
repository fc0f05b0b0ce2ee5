-- ===== src/Orchestrator.antt =====
-- cpp/include/ma2a/execution_orchestrator.hpp: the life of one execution. A method that throws
-- leaves the object as it was, since every test stands before the first write.
pub mod Attempts
pub mod Invariant
pub mod History
pub mod Refinement
use ma2a.Base.{
  ℕ, Bool, true, false, ◌&&◌, ◌||◌, not, Bytes, codes, length, bytes_eq, is_empty, List, [], ◌∷◌,
  ◌++◌, Option, none, some, leb, ◌==◌, if◌then◌else◌, Result, ok, ◌>>=◌, ◌>>◌, throw_if,
  request_id_required, max_attempts_not_positive, already_completed, node_id_required,
  retry_excluded, attempts_exhausted, failure_id_mismatch, failed_node_required,
  failure_not_authenticated, result_id_mismatch, result_not_authenticated, result_not_successful,
}
use ma2a.Contracts.{JobResult, FailureNotice}

pub record ExecutionAttempt : Type 0 where
  pub node_id : Bytes
  pub outcome : Bytes

-- The set of excluded nodes is a list; only membership is ever asked of it.
pub record ExecutionState : Type 0 where
  pub request_id : Bytes
  pub attempts : List ExecutionAttempt
  pub excluded_nodes : List Bytes
  pub completed : Bool
  pub result : Option JobResult

pub record Orchestrator : Type 0 where
  pub state : ExecutionState
  pub max_attempts : ℕ

abbrev pub in_flight : Bytes
in_flight = codes "IN_FLIGHT"

abbrev pub failed : Bytes
failed = codes "FAILED"

abbrev pub ok_status : Bytes
ok_status = codes "OK"

-- `contains`
unfoldable pub contains : List Bytes → Bytes → Bool
contains [] node = false
contains (x ∷ nodes) node = bytes_eq x node || contains nodes node

-- `insert`
unfoldable pub insert : Bytes → List Bytes → List Bytes
insert node nodes = if contains nodes node then nodes else node ∷ nodes

-- `if (!attempts.empty() && attempts.back().node_id == node) attempts.back().outcome = outcome;`
unfoldable pub mark_back : Bytes → Bytes → List ExecutionAttempt → List ExecutionAttempt
mark_back node outcome [] = []
mark_back node outcome (a ∷ []) =
    (if bytes_eq a.node_id node then record a { outcome = outcome } else a) ∷ []
mark_back node outcome (a ∷ b ∷ attempts) = a ∷ mark_back node outcome (b ∷ attempts)

-- The constructor.
unfoldable pub new_orchestrator : Bytes → ℕ → Result Orchestrator
new_orchestrator request_id max_attempts = do
  throw_if (is_empty request_id) request_id_required
  throw_if (max_attempts == 0) max_attempts_not_positive
  ok (record {
    state = record {
      request_id = request_id;
      attempts = [];
      excluded_nodes = [];
      completed = false;
      result = none;
    };
    max_attempts = max_attempts;
  })

unfoldable pub exhausted : Orchestrator → Bool
exhausted o = leb o.max_attempts (length o.state.attempts)

abbrev pub ensure_active : Orchestrator → Result (Unit {0})
ensure_active o = throw_if o.state.completed already_completed

unfoldable pub begin_attempt : Bytes → Orchestrator → Result Orchestrator
begin_attempt node_id o = do
  ensure_active o
  throw_if (is_empty node_id) node_id_required
  throw_if (contains o.state.excluded_nodes node_id) retry_excluded
  throw_if (exhausted o) attempts_exhausted
  ok (record o {
    state = record (o.state) {
      attempts = o.state.attempts ++ record { node_id = node_id; outcome = in_flight } ∷ [];
    };
  })

unfoldable pub accept_authenticated_failure : FailureNotice → Orchestrator → Result Orchestrator
accept_authenticated_failure notice o = do
  ensure_active o
  throw_if (not (bytes_eq notice.request_id o.state.request_id)) failure_id_mismatch
  throw_if (is_empty notice.failed_node_id) failed_node_required
  throw_if (is_empty notice.signature) failure_not_authenticated
  ok (record o {
    state = record (o.state) {
      excluded_nodes = insert notice.failed_node_id o.state.excluded_nodes;
      attempts = mark_back notice.failed_node_id failed o.state.attempts;
    };
  })

unfoldable pub accept_authenticated_result : JobResult → Orchestrator → Result Orchestrator
accept_authenticated_result result o = do
  ensure_active o
  throw_if (not (bytes_eq result.request_id o.state.request_id)) result_id_mismatch
  throw_if (is_empty result.signature) result_not_authenticated
  throw_if (not (bytes_eq result.status ok_status)) result_not_successful
  ok (record o {
    state = record (o.state) {
      attempts = mark_back result.responder_node_id ok_status o.state.attempts;
      result = some result;
      completed = true;
    };
  })
