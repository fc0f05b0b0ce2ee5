-- ===== src/Engine.antt =====
-- cpp/include/ma2a/resilient_execution.hpp: the loop that routes, attempts and reroutes. The route
-- provider and the attempt executor are `std::function`s that the caller hands in: they may keep
-- state and talk to the network, so each takes and returns a world.
pub mod Round
pub mod Execute
pub mod Ends
pub mod Accepted
pub mod Failover
use ma2a.Base.{
  ℕ, zero, suc, Bool, true, false, ◌||◌, not, Bytes, bytes_eq, is_empty, List, Option, none, some,
  ◌==◌, if◌then◌else◌, Result, ok, throw, unfinished, ◌>>=◌, ◌>>◌, throw_if, request_id_required,
  max_attempts_not_positive, routed_to_excluded, both_results, no_evidence, failure_of_other_node,
  route_provider_required, attempt_executor_required,
}
use ma2a.Contracts.{JobRequest, JobResult, FailureNotice}
use ma2a.Orchestrator.{
  ExecutionState, Orchestrator, contains, new_orchestrator, exhausted, begin_attempt,
  accept_authenticated_failure, accept_authenticated_result,
}

pub record AttemptResponse : Type 0 where
  pub result : Option JobResult
  pub failure : Option FailureNotice

pub record ResilientExecutionOutcome : Type 0 where
  pub state : ExecutionState
  pub exhausted : Bool

abbrev pub RouteProvider : Type 0 → Type 0
RouteProvider W = W → JobRequest → List Bytes → Result (Option Bytes × W)

abbrev pub AttemptExecutor : Type 0 → Type 0
AttemptExecutor W = W → JobRequest → Bytes → Result (AttemptResponse × W)

pub record ResilientExecutionEngine (W : Type 0) : Type 0 where
  pub route_provider : RouteProvider W
  pub attempt_executor : AttemptExecutor W
  pub max_attempts : ℕ

-- The constructor; an empty `std::function` is `none`.
unfoldable pub new_engine :
    {W : Type 0}
    → Option (RouteProvider W)
    → Option (AttemptExecutor W)
    → ℕ
    → Result (ResilientExecutionEngine W)
new_engine none attempt_executor max_attempts = throw route_provider_required
new_engine (some route) none max_attempts = throw attempt_executor_required
new_engine (some route) (some attempt) max_attempts = do
  throw_if (max_attempts == 0) max_attempts_not_positive
  ok (record { route_provider = route; attempt_executor = attempt; max_attempts = max_attempts })

-- What the loop does with a result and a failure, either of which may be absent.
unfoldable pub accept :
    Bytes → Option JobResult → Option FailureNotice → Orchestrator → Result Orchestrator
accept target (some r) (some notice) lifecycle = throw both_results
accept target none none lifecycle = throw no_evidence
accept target (some r) none lifecycle = accept_authenticated_result r lifecycle
accept target none (some notice) lifecycle =
    throw_if (not (bytes_eq notice.failed_node_id target)) failure_of_other_node
    >> accept_authenticated_failure notice lifecycle

-- `attempt.target_node_id = *target`
abbrev pub retarget : Bytes → JobRequest → JobRequest
retarget target original = record original { target_node_id = target }

module _ {W : Type 0} (engine : ResilientExecutionEngine W) (original : JobRequest) where
  -- The body of the loop, once there is a target.
  unfoldable pub round : Bytes → Orchestrator → W → Result (Orchestrator × W)
  round target lifecycle w = do
    throw_if (contains lifecycle.state.excluded_nodes target) routed_to_excluded
    begun ← begin_attempt target lifecycle
    (response, w') ← engine.attempt_executor w (retarget target original) target
    lifecycle' ← accept target response.result response.failure begun
    ok (lifecycle', w')

  -- What follows the answer of the route provider: `break`, or a round and the `rest` of the loop.
  unfoldable pub pursue :
      (Orchestrator → W → Result (Orchestrator × W))
      → Orchestrator
      → Option Bytes × W
      → Result (Orchestrator × W)
  pursue rest lifecycle (none, w) = ok (lifecycle, w)
  pursue rest lifecycle (some target, w) =
      round target lifecycle w >>= λ (lifecycle', w'). rest lifecycle' w'

  -- The loop. A round that goes on adds an attempt, so one more than the cap is fuel enough.
  unfoldable pub loop : ℕ → Orchestrator → W → Result (Orchestrator × W)
  loop zero lifecycle w = unfinished
  loop (suc fuel) lifecycle w =
      let rest = loop fuel in
      let go =
        engine.route_provider w original lifecycle.state.excluded_nodes >>= pursue rest lifecycle in
      if lifecycle.state.completed || exhausted lifecycle then ok (lifecycle, w) else go

  unfoldable pub execute : W → Result (ResilientExecutionOutcome × W)
  execute w = do
    throw_if (is_empty original.request_id) request_id_required
    lifecycle ← new_orchestrator original.request_id engine.max_attempts
    (lifecycle', w') ← loop (suc engine.max_attempts) lifecycle w
    ok (record { state = lifecycle'.state; exhausted = exhausted lifecycle' }, w')
