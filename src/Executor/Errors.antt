-- ===== src/Executor/Errors.antt =====
-- The exceptions of `operator()` in cpp/include/ma2a/authenticated_tcp_executor.hpp.
use ma2a.Base.{
  ◌≡◌, ◌≢◌, false, Bytes, codes, bytes_eq_iff, is_empty, [], Option, none, some, Result, ok, throw,
  undefined, unfinished, Exception, catch_all, >>=-ne-throw,
}
use ma2a.Contracts.{JobRequest, ed25519}
use ma2a.Wire.{canonical_job_request_json, canonical_failure_notice_json}
use ma2a.Crypto.{OpenSsl, signature_text, sign_job_request, sign_failure_notice}
use ma2a.Executor.{
  TcpEndpoint, Surroundings, AuthenticatedTcpAttemptExecutor, local_notice, local_failure, transact,
  attempt_at, attempt,
}

catch_all-ne-throw {ℓ} :
    {A : Type ℓ} (e : Exception) (m handler : Result A)
    → handler ≢ throw e
    → catch_all m handler ≢ throw e
catch_all-ne-throw e (ok a) handler h = λ p. cc
catch_all-ne-throw e (throw x) handler h = h
catch_all-ne-throw e undefined handler h = λ p. cc
catch_all-ne-throw e unfinished handler h = λ p. cc

module _ (ssl : OpenSsl) (executor : AuthenticatedTcpAttemptExecutor ssl) (around : Surroundings)
    (request : JobRequest) (target : Bytes)
    (signs : (message : Bytes) (e : Exception)
      → signature_text ssl (some executor.local_private_key) message ≢ throw e) where
  local_failure-ne-throw :
      (reason : Bytes) (e : Exception)
      → local_failure ssl executor around request target reason ≢ throw e
  unfolding local_failure sign_failure_notice
  local_failure-ne-throw reason e =
      >>=-ne-throw e
        (sign_failure_notice ssl (some executor.local_private_key)
          (local_notice ssl request target reason around.clock))
        _
        (>>=-ne-throw e
          (signature_text ssl (some executor.local_private_key)
            (canonical_failure_notice_json (local_notice ssl request target reason around.clock)))
          _ (signs _ e) λ x p. cc)
        λ n p. cc

  sign_job_request-ne-throw :
      (e : Exception) → sign_job_request ssl (some executor.local_private_key) request ≢ throw e
  unfolding sign_job_request
  sign_job_request-ne-throw e =
      >>=-ne-throw e
        (signature_text ssl (some executor.local_private_key) (
          canonical_job_request_json
            (record request { signature_algorithm = ed25519; signature = [] })))
        _ (signs _ e) λ x p. cc

  attempt_at-ne-throw :
      (endpoint : Option TcpEndpoint) (e : Exception)
      → attempt_at ssl executor around request target endpoint ≢ throw e
  unfolding attempt_at
  attempt_at-ne-throw none e = local_failure-ne-throw (codes "endpoint_unavailable") e
  attempt_at-ne-throw (some endpoint) e =
      >>=-ne-throw e (sign_job_request ssl (some executor.local_private_key) request) _
        (sign_job_request-ne-throw e)
        λ signed.
          catch_all-ne-throw e (transact ssl executor around request target endpoint signed)
            (local_failure ssl executor around request target (codes "transport_unavailable"))
            (local_failure-ne-throw (codes "transport_unavailable") e)

  -- If signing throws nothing and the endpoint resolver does not throw `e`, then an attempt at a
  -- named target, with a request for that target, does not throw `e`, whatever the kernel and the
  -- peer do and whatever the resolver of public keys throws.
  pub attempt-ne-throw :
      (e : Exception)
      → is_empty target ≡ false
      → request.target_node_id ≡ target
      → executor.endpoint_resolver target ≢ throw e
      → attempt ssl executor around request target ≢ throw e
  unfolding attempt
  attempt-ne-throw e named same answers =
      rw (named, (bytes_eq_iff request.target_node_id target).1 same)
        (>>=-ne-throw e (executor.endpoint_resolver target) _ answers
          λ endpoint. attempt_at-ne-throw endpoint e)
