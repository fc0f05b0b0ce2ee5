-- ===== src/Executor/Evidence.antt =====
-- The outcomes of `operator()` in cpp/include/ma2a/authenticated_tcp_executor.hpp, by evidence.
use ma2a.Base.{
  ◌≡◌, ap, true, false, not, Bytes, codes, bytes_eq, bytes_eq_iff, is_empty, Option, none, some, ok,
  Yields, Yields-bind, Yields-if, Yields-catch_all, Yields-ok, Yields-throw_if, ◌∙◌, arith,
}
use ma2a.Contracts.{JobRequest, JobResult, FailureNotice}
use ma2a.Wire.Parse.{
  wire_envelope_type, parse_job_result_envelope_json, parse_failure_notice_envelope_json,
}
use ma2a.Crypto.{
  OpenSsl, sign_job_request, sign_failure_notice, verify_job_result, verify_failure_notice,
}
use ma2a.Engine.{AttemptResponse}
use ma2a.Executor.{
  TcpEndpoint, Surroundings, AuthenticatedTcpAttemptExecutor, failure_response, result_response,
  local_notice, local_failure, breaks_result_contract, judge_result, breaks_failure_contract,
  judge_failure, judge, exchange, transact, attempt_at, attempt,
}

module _ (ssl : OpenSsl) (executor : AuthenticatedTcpAttemptExecutor ssl) (around : Surroundings)
    (request : JobRequest) (target : Bytes) where
  -- A result for this request, from the attempted node to the requester, that the key of its
  -- responder verifies.
  pub record IsGenuineResult (r : JobResult) : Type 0 where
    pub same_request : r.request_id ≡ request.request_id
    pub from_target : r.responder_node_id ≡ target
    pub to_sender : r.recipient_node_id ≡ request.sender_node_id
    pub successful : r.status ≡ codes "OK"
    pub key : Option (ssl.Key)
    pub resolved : executor.public_key_resolver r.responder_node_id ≡ ok key
    pub verified : verify_job_result ssl r key ≡ ok true

  -- A notice of a failure of the attempted node in this request that the key of its reporter
  -- verifies.
  pub record IsGenuineFailure (n : FailureNotice) : Type 0 where
    pub same_request : n.request_id ≡ request.request_id
    pub of_target : n.failed_node_id ≡ target
    pub reported : is_empty n.reporting_node_id ≡ false
    pub key : Option (ssl.Key)
    pub resolved : executor.public_key_resolver n.reporting_node_id ≡ ok key
    pub verified : verify_failure_notice ssl n key ≡ ok true

  -- The three kinds of evidence; the last is this node's own notice, with its signature.
  pub data Evidence : AttemptResponse → Type 0 where
    genuine_result : (r : JobResult) → IsGenuineResult r → Evidence (result_response r)
    genuine_failure : (n : FailureNotice) → IsGenuineFailure n → Evidence (failure_response n)
    own_observation :
        (n : FailureNotice) (reason : Bytes)
        → sign_failure_notice ssl
            (some executor.local_private_key)
            (local_notice ssl request target reason around.clock)
          ≡ ok n
        → Evidence (failure_response n)

  local_failure-Evidence :
      (reason : Bytes) → Yields Evidence (local_failure ssl executor around request target reason)
  unfolding local_failure
  local_failure-Evidence reason =
      Yields-bind Evidence
        (sign_failure_notice ssl (some executor.local_private_key)
          (local_notice ssl request target reason around.clock))
        _ λ n signed. Yields-ok Evidence _ (own_observation n reason signed)

  keeps_result_contract :
      (r : JobResult)
      → breaks_result_contract ssl executor around request target r ≡ false
      → (r.request_id ≡ request.request_id)
        × (r.responder_node_id ≡ target)
        × (r.recipient_node_id ≡ request.sender_node_id)
        × (r.status ≡ codes "OK")
  unfolding breaks_result_contract
  keeps_result_contract r h = ground (
    arith,
    bytes_eq_iff r.request_id request.request_id,
    bytes_eq_iff r.responder_node_id target,
    bytes_eq_iff r.recipient_node_id request.sender_node_id,
    bytes_eq_iff r.status (codes "OK"),
  )

  judge_result-Evidence :
      (r : JobResult) → Yields Evidence (judge_result ssl executor around request target r)
  unfolding judge_result
  judge_result-Evidence r =
      Yields-if Evidence (breaks_result_contract ssl executor around request target r)
        (λ _. local_failure-Evidence (codes "invalid_result_contract"))
        λ kept.
          let (id, from, to, good) = keeps_result_contract r kept in
          Yields-bind Evidence (executor.public_key_resolver r.responder_node_id) _ λ key found.
            Yields-bind Evidence (verify_job_result ssl r key) _ λ verified checked.
              Yields-if Evidence verified
                (λ e. Yields-ok Evidence _ (
                  genuine_result r (record {
                    same_request = id;
                    from_target = from;
                    to_sender = to;
                    successful = good;
                    key = key;
                    resolved = found;
                    verified = checked ∙ ap ok e;
                  })))
                (λ _. local_failure-Evidence (codes "invalid_result_signature"))

  keeps_failure_contract :
      (n : FailureNotice)
      → breaks_failure_contract ssl executor around request target n ≡ false
      → (n.request_id ≡ request.request_id)
        × (n.failed_node_id ≡ target)
        × (is_empty n.reporting_node_id ≡ false)
  unfolding breaks_failure_contract
  keeps_failure_contract n h =
      ground
        (arith, bytes_eq_iff n.request_id request.request_id, bytes_eq_iff n.failed_node_id target)

  judge_failure-Evidence :
      (n : FailureNotice) → Yields Evidence (judge_failure ssl executor around request target n)
  unfolding judge_failure
  judge_failure-Evidence n =
      Yields-if Evidence (breaks_failure_contract ssl executor around request target n)
        (λ _. local_failure-Evidence (codes "invalid_failure_contract"))
        λ kept.
          let (id, of, reported) = keeps_failure_contract n kept in
          Yields-bind Evidence (executor.public_key_resolver n.reporting_node_id) _ λ key found.
            Yields-bind Evidence (verify_failure_notice ssl n key) _ λ verified checked.
              Yields-if Evidence verified
                (λ e. Yields-ok Evidence _ (
                  genuine_failure n (record {
                    same_request = id;
                    of_target = of;
                    reported = reported;
                    key = key;
                    resolved = found;
                    verified = checked ∙ ap ok e;
                  })))
                (λ _. local_failure-Evidence (codes "invalid_failure_signature"))

  judge-Evidence :
      (response_json type : Bytes)
      → Yields Evidence (judge ssl executor around request target response_json type)
  unfolding judge
  judge-Evidence response_json type =
      Yields-if Evidence (bytes_eq type (codes "JOB_RESULT"))
        (λ _.
          Yields-bind Evidence (parse_job_result_envelope_json response_json) _
            λ r _. judge_result-Evidence r)
        (λ _.
          Yields-if Evidence (bytes_eq type (codes "FAILURE_NOTICE"))
            (λ _.
              Yields-bind Evidence (parse_failure_notice_envelope_json response_json) _
                λ n _. judge_failure-Evidence n)
            (λ _. local_failure-Evidence (codes "unsupported_response_type")))

  transact-Evidence :
      (endpoint : TcpEndpoint) (signed_request : JobRequest)
      → Yields Evidence (transact ssl executor around request target endpoint signed_request)
  unfolding transact
  transact-Evidence endpoint signed_request =
      Yields-bind Evidence (exchange ssl executor around endpoint signed_request) _
        λ response_json _.
          Yields-bind Evidence (wire_envelope_type response_json) _
            λ type _. judge-Evidence response_json type

  attempt_at-Evidence :
      (endpoint : Option TcpEndpoint)
      → Yields Evidence (attempt_at ssl executor around request target endpoint)
  unfolding attempt_at
  attempt_at-Evidence none = local_failure-Evidence (codes "endpoint_unavailable")
  attempt_at-Evidence (some endpoint) =
      Yields-bind Evidence (sign_job_request ssl (some executor.local_private_key) request) _
        λ signed_request _.
          Yields-catch_all Evidence
            (transact ssl executor around request target endpoint signed_request) _
            (transact-Evidence endpoint signed_request)
            (local_failure-Evidence (codes "transport_unavailable"))

  -- Whatever the kernel and the peer do, an attempt that returns hands the engine one piece of
  -- evidence: a result or a failure notice that keeps its contract with this request and that the
  -- resolved key of its signer verifies, or the failure notice that this node signs itself.
  pub attempt-Evidence :
      (response : AttemptResponse)
      → attempt ssl executor around request target ≡ ok response
      → Evidence response
  unfolding attempt
  attempt-Evidence = Yields-throw_if Evidence (is_empty target) _ λ _.
      Yields-throw_if Evidence (not (bytes_eq request.target_node_id target)) _ λ _.
        Yields-bind Evidence (executor.endpoint_resolver target) _
          λ endpoint _. attempt_at-Evidence endpoint
