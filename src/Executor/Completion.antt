-- ===== src/Executor/Completion.antt =====
-- The engine of cpp/include/ma2a/resilient_execution.hpp, with the executor of
-- authenticated_tcp_executor.hpp.
use ma2a.Base.{
  ℕ, ◌≡◌, ◌∙◌, sym, ap, true, false, Bytes, List, [], ◌∷◌, ◌++◌, bytes_eq, bytes_eq_iff, some,
  if◌then◌else◌, ok, >>=-eq-ok, subst, arith,
}
use ma2a.Contracts.{JobRequest, JobResult}
use ma2a.Orchestrator.{ExecutionState, Orchestrator, ok_status, in_flight}
use ma2a.Crypto.{OpenSsl}
use ma2a.Engine.{
  AttemptResponse, ResilientExecutionEngine, ResilientExecutionOutcome, RouteProvider, retarget,
  execute,
}
use ma2a.Engine.Round.{attempted, failures, Distinct, Answered}
use ma2a.Engine.Execute.{Ended, without_result, with_result, execute-Ended}
use ma2a.Executor.{Surroundings, AuthenticatedTcpAttemptExecutor, attempt, attempt_executor}
use ma2a.Executor.Evidence.{
  IsGenuineResult, Evidence, genuine_result, genuine_failure, own_observation, attempt-Evidence,
}

module _ (ssl : OpenSsl) {W : Type 0} (executor : AuthenticatedTcpAttemptExecutor ssl)
    (next : W → Surroundings × W) (route : RouteProvider W) (cap : ℕ) (original : JobRequest) where
  -- The engine with the authenticated executor.
  abbrev pub authenticated_engine : ResilientExecutionEngine W
  authenticated_engine = record {
    route_provider = route;
    attempt_executor = attempt_executor ssl executor next;
    max_attempts = cap;
  }

  result_of_Evidence :
      (around : Surroundings) (request : JobRequest) (target : Bytes) {response : AttemptResponse}
      (r : JobResult)
      → Evidence ssl executor around request target response
      → response.result ≡ some r
      → IsGenuineResult ssl executor around request target r
  result_of_Evidence around request target r (genuine_result r' g) e =
      subst (IsGenuineResult ssl executor around request target) (cc) g
  result_of_Evidence around request target r (genuine_failure n g) e = cc
  result_of_Evidence around request target r (own_observation n reason g) e = cc

  Answered-IsGenuineResult :
      (target : Bytes) (r : JobResult)
      → Answered authenticated_engine original target r
      → (around : Surroundings) × IsGenuineResult ssl executor around
          (retarget target original)
          target
          r
  unfolding attempt_executor
  Answered-IsGenuineResult target r (w, w', response, ran, brought) =
      let (response', returned, same) =
        >>=-eq-ok (attempt ssl executor (next w).0 (retarget target original) target) _ ran in
      let e : response' ≡ response = ground arith in
      let evidence =
        attempt-Evidence ssl executor (next w).0 (retarget target original) target response'
          returned in
      (
        (next w).0,
        result_of_Evidence (next w).0 _ target r evidence
            (ap (λ (x : AttemptResponse). x.result) e ∙ brought),
      )

  -- A completed execution, for a request from this original.
  pub record IsCompletion (outcome : ResilientExecutionOutcome) : Type 0 where
    pub nodes : List Bytes
    pub target : Bytes
    pub r : JobResult
    pub around : Surroundings
    pub distinct : Distinct (target ∷ nodes)
    pub has_result : outcome.state.result ≡ some r
    pub genuine : IsGenuineResult ssl executor around (retarget target original) target r
    pub attempts : outcome.state.attempts ≡ failures nodes ++ attempted target ok_status ∷ []

  Ended-IsCompletion :
      (o : Orchestrator) (outcome : ResilientExecutionOutcome)
      → Ended authenticated_engine original original.request_id o
      → outcome.state ≡ o.state
      → outcome.state.completed ≡ true
      → IsCompletion outcome
  Ended-IsCompletion o outcome (without_result nodes d b s) same done =
      let open_state : outcome.state.completed ≡ false =
        ap (λ (x : ExecutionState). x.completed) same in
      absurd (cc (open_state, done))
  Ended-IsCompletion o outcome (with_result nodes target r d b good came) same done =
      let (around, g) = Answered-IsGenuineResult target r came in
      let marked : bytes_eq target r.responder_node_id ≡ true =
        (bytes_eq_iff target r.responder_node_id).1 (sym g.from_target) in
      record {
        nodes = nodes;
        target = target;
        r = r;
        around = around;
        distinct = d;
        has_result = ap (λ (x : ExecutionState). x.result) same;
        genuine = g;
        attempts =
            ap (λ (x : ExecutionState). x.attempts) same
            ∙ ap (λ b. failures nodes ++ attempted target (if b then ok_status else in_flight) ∷ [])
                marked;
      }

  -- With the authenticated executor, an execution that is reported completed has a result that
  -- keeps its contract with the request, retargeted to the node of the last attempt, and that the
  -- resolved key of its responder verifies. The attempts are failures at distinct nodes, and then
  -- that one, at another node and marked `OK`.
  pub execute-IsCompletion :
      (w w' : W) (outcome : ResilientExecutionOutcome)
      → execute authenticated_engine original w ≡ ok (outcome, w')
      → outcome.state.completed ≡ true
      → IsCompletion outcome
  execute-IsCompletion w w' outcome h done =
      let (o, ended, same) = execute-Ended authenticated_engine original w w' outcome h in
      Ended-IsCompletion o outcome ended (ap (λ (x : ResilientExecutionOutcome). x.state) same) done
