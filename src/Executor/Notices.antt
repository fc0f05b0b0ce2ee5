-- ===== src/Executor/Notices.antt =====
-- The notices that `local_failure` of cpp/include/ma2a/authenticated_tcp_executor.hpp signs.
use ma2a.Base.{◌≡◌, true, Bytes, some, ok, >>=-eq-ok, ap}
use ma2a.Contracts.{JobRequest, FailureNotice}
use ma2a.Crypto.{OpenSsl, sign_failure_notice, verify_failure_notice}
use ma2a.Crypto.Signing.{
  IsKeyPair, sign_failure_notice_inv, verify_failure_notice-sign_failure_notice,
}
use ma2a.Engine.{AttemptResponse}
use ma2a.Executor.{
  Surroundings, AuthenticatedTcpAttemptExecutor, failure_response, local_notice, local_failure,
}

module _ (ssl : OpenSsl) (executor : AuthenticatedTcpAttemptExecutor ssl) (public_key : ssl.Key)
    (pair : IsKeyPair ssl executor.local_private_key public_key) (around : Surroundings)
    (request : JobRequest) (target : Bytes) where
  -- A notice of a failure of `target` in this request, for this reason, that the sender of the
  -- request reports.
  pub record IsReport (reason : Bytes) (n : FailureNotice) : Type 0 where
    pub same_request : n.request_id ≡ request.request_id
    pub of_target : n.failed_node_id ≡ target
    pub by_sender : n.reporting_node_id ≡ request.sender_node_id
    pub because : n.reason ≡ reason
    pub verified : verify_failure_notice ssl n (some public_key) ≡ ok true

  -- What `local_failure` answers with is a notice of the failure that it was given, in the name of
  -- the sender of the request, and the public key of the executor's own key verifies it, if the two
  -- keys behave as OpenSSL documents of a pair.
  local_failure-IsReport :
      (reason : Bytes) (response : AttemptResponse)
      → local_failure ssl executor around request target reason ≡ ok response
      → (n : FailureNotice) × (response ≡ failure_response n) × IsReport reason n
  unfolding local_failure
  local_failure-IsReport reason response h =
      let start = local_notice ssl request target reason around.clock in
      let (n, signed, same) =
        >>=-eq-ok (sign_failure_notice ssl (some executor.local_private_key) start) _ h in
      let (x, made, e) =
        sign_failure_notice_inv ssl (some executor.local_private_key) start n signed in
      (
        n,
        cc,
        record {
          same_request = ap (λ (y : FailureNotice). y.request_id) e;
          of_target = ap (λ (y : FailureNotice). y.failed_node_id) e;
          by_sender = ap (λ (y : FailureNotice). y.reporting_node_id) e;
          because = ap (λ (y : FailureNotice). y.reason) e;
          verified =
              verify_failure_notice-sign_failure_notice ssl executor.local_private_key public_key
                start n pair signed;
        },
      )
