-- ===== src/Executor.antt =====
-- cpp/include/ma2a/authenticated_tcp_executor.hpp: one attempt, from the signed request to the
-- evidence that the engine receives.
pub mod Honest
pub mod Evidence
pub mod Completion
pub mod Errors
pub mod Notices
pub mod Total
use ma2a.Base.{
  ℕ, Bool, true, false, not, ◌||◌, Bytes, codes, bytes_eq, is_empty, [], ◌∷◌, ◌++◌, List, Option,
  none, some, if◌then◌else◌, Result, ok, throw, ◌>>=◌, ◌>>◌, throw_if, catch_all,
  private_key_missing, endpoint_resolver_missing, public_key_resolver_missing,
  connect_timeout_not_positive, io_timeout_not_positive, target_required, target_mismatch,
}
use ma2a.Base.Int.{ℤ}
use ma2a.Contracts.{JobRequest, JobResult, FailureNotice, ed25519}
use ma2a.Wire.{job_request_envelope_json}
use ma2a.Wire.Parse.{
  wire_envelope_type, parse_job_result_envelope_json, parse_failure_notice_envelope_json,
}
use ma2a.Tcp.{SendAnswer, ReceiveAnswer, send_framed_json, recv_framed_json}
use ma2a.Connect.{ConnectAnswers, is_not_positive, connect_ipv4_with_timeout, set_socket_io_timeout}
use ma2a.Crypto.{
  OpenSsl, sign_job_request, sign_failure_notice, verify_job_result, verify_failure_notice,
}
use ma2a.Engine.{AttemptResponse, AttemptExecutor}

pub record TcpEndpoint : Type 0 where
  pub host : Bytes
  pub port : ℕ

-- What the kernel and the peer do in one attempt. What the peer answers may depend on the bytes
-- that it was sent.
pub record Peer : Type 0 where
  pub connecting : ConnectAnswers
  pub receive_timeout_set : Bool
  pub send_timeout_set : Bool
  pub sends : List SendAnswer
  pub respond : Bytes → List ReceiveAnswer

-- The surroundings of one attempt: the clock, in seconds, and who listens at an endpoint.
pub record Surroundings : Type 0 where
  pub clock : ℤ
  pub dial : TcpEndpoint → Peer

abbrev pub EndpointResolver : Type 0
EndpointResolver = Bytes → Result (Option TcpEndpoint)

-- `{nullopt, failure}` and `{result, nullopt}`
abbrev pub failure_response : FailureNotice → AttemptResponse
failure_response notice = record { result = none; failure = some notice }

abbrev pub result_response : JobResult → AttemptResponse
result_response r = record { result = some r; failure = none }

module _ (ssl : OpenSsl) where
  open ssl use {Key}

  abbrev pub PublicKeyResolver : Type 0
  PublicKeyResolver = Bytes → Result (Option Key)

  pub record AuthenticatedTcpAttemptExecutor : Type 0 where
    pub local_private_key : Key
    pub endpoint_resolver : EndpointResolver
    pub public_key_resolver : PublicKeyResolver
    pub connect_timeout : ℤ
    pub io_timeout : ℤ

  -- The constructor; a null key and an empty `std::function` are `none`.
  unfoldable pub new_executor :
      Option Key
      → Option EndpointResolver
      → Option PublicKeyResolver
      → ℤ
      → ℤ
      → Result AuthenticatedTcpAttemptExecutor
  new_executor none endpoints keys connect_timeout io_timeout = throw private_key_missing
  new_executor (some key) none keys connect_timeout io_timeout = throw endpoint_resolver_missing
  new_executor (some key) (some endpoints) none connect_timeout io_timeout =
      throw public_key_resolver_missing
  new_executor (some key) (some endpoints) (some keys) connect_timeout io_timeout = do
    throw_if (is_not_positive connect_timeout) connect_timeout_not_positive
    throw_if (is_not_positive io_timeout) io_timeout_not_positive
    ok (record {
      local_private_key = key;
      endpoint_resolver = endpoints;
      public_key_resolver = keys;
      connect_timeout = connect_timeout;
      io_timeout = io_timeout;
    })

  -- The notice of `local_failure`, before it is signed.
  abbrev pub local_notice : JobRequest → Bytes → Bytes → ℤ → FailureNotice
  local_notice request target reason clock = record {
    protocol_version = request.protocol_version;
    message_id = codes "local-failure-" ++ request.request_id ++ codes "-" ++ target;
    request_id = request.request_id;
    reporting_node_id = request.sender_node_id;
    failed_node_id = target;
    reason = reason;
    observed_at = clock;
    signature_algorithm = ed25519;
    signature = [];
  }

  module _ (executor : AuthenticatedTcpAttemptExecutor) (around : Surroundings) where
    unfoldable pub local_failure : JobRequest → Bytes → Bytes → Result AttemptResponse
    local_failure request target reason = do
      failure ←
          sign_failure_notice ssl (some executor.local_private_key)
            (local_notice request target reason around.clock)
      ok (failure_response failure)

    -- The `if` over the contract of a result.
    unfoldable pub breaks_result_contract : JobRequest → Bytes → JobResult → Bool
    breaks_result_contract request target result =
        not (bytes_eq result.request_id request.request_id)
        || not (bytes_eq result.responder_node_id target)
        || not (bytes_eq result.recipient_node_id request.sender_node_id)
        || not (bytes_eq result.status (codes "OK"))

    unfoldable pub judge_result : JobRequest → Bytes → JobResult → Result AttemptResponse
    judge_result request target result =
        if breaks_result_contract request target result
        then local_failure request target (codes "invalid_result_contract")
        else (do
          public_key ← executor.public_key_resolver result.responder_node_id
          verified ← verify_job_result ssl result public_key
          if verified
              then ok (result_response result)
              else local_failure request target (codes "invalid_result_signature"))

    -- The `if` over the contract of a failure notice.
    unfoldable pub breaks_failure_contract : JobRequest → Bytes → FailureNotice → Bool
    breaks_failure_contract request target failure =
        not (bytes_eq failure.request_id request.request_id)
        || not (bytes_eq failure.failed_node_id target)
        || is_empty failure.reporting_node_id

    unfoldable pub judge_failure : JobRequest → Bytes → FailureNotice → Result AttemptResponse
    judge_failure request target failure =
        if breaks_failure_contract request target failure
        then local_failure request target (codes "invalid_failure_contract")
        else (do
          public_key ← executor.public_key_resolver failure.reporting_node_id
          verified ← verify_failure_notice ssl failure public_key
          if verified
              then ok (failure_response failure)
              else local_failure request target (codes "invalid_failure_signature"))

    -- What is made of the response, by the type of its envelope.
    unfoldable pub judge : JobRequest → Bytes → Bytes → Bytes → Result AttemptResponse
    judge request target response_json type =
        if bytes_eq type (codes "JOB_RESULT")
        then parse_job_result_envelope_json response_json >>= judge_result request target
        else if bytes_eq type (codes "FAILURE_NOTICE")
        then parse_failure_notice_envelope_json response_json >>= judge_failure request target
        else local_failure request target (codes "unsupported_response_type")

    -- Connect, send the request and receive the response.
    unfoldable pub exchange : TcpEndpoint → JobRequest → Result Bytes
    exchange endpoint signed_request = do
      let peer = around.dial endpoint
      connect_ipv4_with_timeout executor.connect_timeout peer.connecting
      set ← set_socket_io_timeout executor.io_timeout peer.receive_timeout_set peer.send_timeout_set
      let sent = send_framed_json peer.sends (job_request_envelope_json signed_request)
      sent.result
      (recv_framed_json (peer.respond sent.wire)).result

    -- The body of the `try`.
    unfoldable pub transact : JobRequest → Bytes → TcpEndpoint → JobRequest → Result AttemptResponse
    transact request target endpoint signed_request = do
      response_json ← exchange endpoint signed_request
      type ← wire_envelope_type response_json
      judge request target response_json type

    -- What follows the answer of the endpoint resolver.
    unfoldable pub attempt_at : JobRequest → Bytes → Option TcpEndpoint → Result AttemptResponse
    attempt_at request target none = local_failure request target (codes "endpoint_unavailable")
    attempt_at request target (some endpoint) =
        sign_job_request ssl (some executor.local_private_key) request >>= λ signed_request.
        catch_all (transact request target endpoint signed_request)
          (local_failure request target (codes "transport_unavailable"))

    -- `operator()`
    unfoldable pub attempt : JobRequest → Bytes → Result AttemptResponse
    attempt request target = do
      throw_if (is_empty target) target_required
      throw_if (not (bytes_eq request.target_node_id target)) target_mismatch
      endpoint ← executor.endpoint_resolver target
      attempt_at request target endpoint

  -- The executor as the engine calls it: each attempt has surroundings of its own.
  unfoldable pub attempt_executor :
      {W : Type 0} → AuthenticatedTcpAttemptExecutor → (W → Surroundings × W) → AttemptExecutor W
  attempt_executor executor next w request target =
      let (around, w') = next w in
      attempt executor around request target >>= λ response. ok (response, w')
