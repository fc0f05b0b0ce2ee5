-- ===== src/Executor/Honest.antt =====
-- An attempt of cpp/include/ma2a/authenticated_tcp_executor.hpp at a node that answers as the
-- contract wants.
use ma2a.Base.{
  ◌≡◌, ap, ◌∙◌, true, false, Bytes, codes, bytes_eq, bytes_eq_iff, bytes_eq_refl, is_empty, List,
  some, ok,
}
use ma2a.Base.Int.{IsInt64}
use ma2a.Contracts.{JobRequest, JobResult}
use ma2a.Crypto.{OpenSsl, sign_job_request, sign_job_result, verify_job_result}
use ma2a.Crypto.Signing.{IsKeyPair, verify_job_result-sign_job_result}
use ma2a.Wire.{job_request_envelope_json, job_result_envelope_json}
use ma2a.Wire.Parse.{wire_envelope_type, parse_job_result_envelope_json}
use ma2a.Wire.Split.{split_envelope-job_result}
use ma2a.Wire.RoundTrip.{negation_overflows, parse_job_result-envelope}
use ma2a.Tcp.{ReceiveAnswer, send_framed_json}
use ma2a.Tcp.Delivery.{Arrives, Arrives-recv_framed_json}
use ma2a.Connect.{Timeval, connect_ipv4_with_timeout, set_socket_io_timeout}
use ma2a.Executor.{
  TcpEndpoint, Peer, Surroundings, AuthenticatedTcpAttemptExecutor, result_response,
  breaks_result_contract, judge_result, judge, exchange, transact, attempt_at, attempt,
}

-- The network does its part: the connection is made, its timeout is set, the request is sent, and
-- the frame of a text comes back.
pub record Carries {ssl : OpenSsl} (executor : AuthenticatedTcpAttemptExecutor ssl) (peer : Peer)
    (request : JobRequest) (text : Bytes) : Type 0 where
  pub timeval : Timeval
  pub more : List ReceiveAnswer
  pub connects : connect_ipv4_with_timeout executor.connect_timeout peer.connecting ≡ ok tt
  pub times :
      set_socket_io_timeout executor.io_timeout peer.receive_timeout_set peer.send_timeout_set
      ≡ ok timeval
  pub sends : (send_framed_json peer.sends (job_request_envelope_json request)).result ≡ ok tt
  pub arrives :
      Arrives text
        (peer.respond (send_framed_json peer.sends (job_request_envelope_json request)).wire)
        more

-- The contract of a result.
pub record Fulfils (request : JobRequest) (target : Bytes) (r : JobResult) : Type 0 where
  pub same_request : r.request_id ≡ request.request_id
  pub from_target : r.responder_node_id ≡ target
  pub to_sender : r.recipient_node_id ≡ request.sender_node_id
  pub successful : r.status ≡ codes "OK"

result_envelope_type :
    (r : JobResult) → wire_envelope_type (job_result_envelope_json r) ≡ ok (codes "JOB_RESULT")
unfolding wire_envelope_type
result_envelope_type r = rw (split_envelope-job_result r)

module _ (ssl : OpenSsl) (executor : AuthenticatedTcpAttemptExecutor ssl) (around : Surroundings)
    (request : JobRequest) (target : Bytes) where
  exchange-Carries :
      (endpoint : TcpEndpoint) (signed : JobRequest) (text : Bytes)
      → Carries executor (around.dial endpoint) signed text
      → exchange ssl executor around endpoint signed ≡ ok text
  unfolding exchange
  exchange-Carries endpoint signed text c =
      rw (c.connects, c.times, c.sends, Arrives-recv_framed_json _ c.more text c.arrives)

  Fulfils-contract :
      (r : JobResult)
      → Fulfils request target r
      → breaks_result_contract ssl executor around request target r ≡ false
  unfolding breaks_result_contract
  Fulfils-contract r f = rw (
    f.same_request,
    f.from_target,
    f.to_sender,
    f.successful,
    bytes_eq_refl request.request_id,
    bytes_eq_refl target,
    bytes_eq_refl request.sender_node_id,
    bytes_eq_refl (codes "OK"),
  )

  judge_result-Fulfils :
      (r : JobResult) (key : ssl.Key)
      → Fulfils request target r
      → executor.public_key_resolver target ≡ ok (some key)
      → verify_job_result ssl r (some key) ≡ ok true
      → judge_result ssl executor around request target r ≡ ok (result_response r)
  unfolding judge_result
  judge_result-Fulfils r key f found verified =
      rw (Fulfils-contract r f, ap executor.public_key_resolver f.from_target ∙ found, verified)

  -- The answer may be printed by any program.
  pub attempt-Carries :
      (endpoint : TcpEndpoint) (signed : JobRequest) (text : Bytes) (r : JobResult) (key : ssl.Key)
      → is_empty target ≡ false
      → request.target_node_id ≡ target
      → executor.endpoint_resolver target ≡ ok (some endpoint)
      → sign_job_request ssl (some executor.local_private_key) request ≡ ok signed
      → Carries executor (around.dial endpoint) signed text
      → wire_envelope_type text ≡ ok (codes "JOB_RESULT")
      → parse_job_result_envelope_json text ≡ ok r
      → Fulfils request target r
      → executor.public_key_resolver target ≡ ok (some key)
      → verify_job_result ssl r (some key) ≡ ok true
      → attempt ssl executor around request target ≡ ok (result_response r)
  unfolding attempt attempt_at transact judge bytes_eq
  attempt-Carries endpoint signed text r key named addressed resolves signs c type parses f found
        verified =
      rw (
        named,
        (bytes_eq_iff request.target_node_id target).1 addressed,
        resolves,
        signs,
        exchange-Carries endpoint signed text c,
        type,
        parses,
        judge_result-Fulfils r key f found verified,
      )

  -- An attempt hands over the very result that a node of this library answers, whatever bytes its
  -- strings hold, if the request is addressed to the node, which has a name, and the executor signs
  -- it; if the resolvers know the node, and the network does its part; if the node signs with its
  -- key a result that keeps the contract, at a 64-bit time that is not `INT64_MIN`; and if the pair
  -- of its keys behaves as OpenSSL documents.
  pub attempt-answered :
      (endpoint : TcpEndpoint) (signed : JobRequest) (unsigned r : JobResult)
      (private_key public_key : ssl.Key)
      → is_empty target ≡ false
      → request.target_node_id ≡ target
      → executor.endpoint_resolver target ≡ ok (some endpoint)
      → sign_job_request ssl (some executor.local_private_key) request ≡ ok signed
      → sign_job_result ssl (some private_key) unsigned ≡ ok r
      → IsInt64 r.completed_at
      → negation_overflows r.completed_at ≡ false
      → Fulfils request target r
      → Carries executor (around.dial endpoint) signed (job_result_envelope_json r)
      → executor.public_key_resolver target ≡ ok (some public_key)
      → IsKeyPair ssl private_key public_key
      → attempt ssl executor around request target ≡ ok (result_response r)
  attempt-answered endpoint signed unsigned r private_key public_key named addressed resolves signs
        answers int64 above f c found pair =
      attempt-Carries endpoint signed (job_result_envelope_json r) r public_key named addressed
        resolves signs c (result_envelope_type r) (parse_job_result-envelope r int64 ∙ rw above) f
        found (verify_job_result-sign_job_result ssl private_key public_key unsigned r pair answers)
