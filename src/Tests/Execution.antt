-- ===== src/Tests/Execution.antt =====
-- Whole executions on a network of two nodes: `a` has no endpoint, and `b` answers.
use ma2a.Base.{
  ◌≡◌, ◌≢◌, refl, ℕ, suc, true, false, Bytes, codes, bytes_eq, List, [], ◌∷◌, none, some,
  if◌then◌else◌, Result, ok, unfinished, ok-ne-unfinished, throw, Exception, arith,
}
use ma2a.Base.Int.{pos}
use ma2a.Contracts.{JobRequest, FailureNotice}
use ma2a.Json.{escape_char, escape, json_string, decimal, digits, key_text}
use ma2a.Wire.{
  job_result_envelope_json, job_request_envelope_json, signed_job_request_json,
  signed_job_result_json, organization_text,
}
use ma2a.Wire.Split.{wire_envelope_type-envelopes}
use ma2a.Wire.RoundTrip.{parse_job_result-envelope}
use ma2a.Framing.{with_header, encode_frame, decode_frame_size}
use ma2a.Tcp.{
  ReceiveAnswer, accepted, chunk, send_framed_json, send_framed, send_all, recv_framed_json,
  recv_exact, receive_loop, receive_rest, receive_body, header_size,
}
use ma2a.Crypto.{
  sign_failure_notice, sign_job_request, signature_text, ed25519_sign, base64url_encode, replace,
  verify_job_result, verify_text, base64url_decode, unpadded, padding, ed25519_verify,
}
use ma2a.Connect.{
  connect_ipv4_with_timeout, complete_connect, set_socket_io_timeout, timeval, connected,
}
use ma2a.Orchestrator.{
  Orchestrator, failed, ok_status, contains, exhausted, new_orchestrator, insert, mark_back,
  begin_attempt, accept_authenticated_failure, accept_authenticated_result,
}
use ma2a.Engine.{
  ResilientExecutionEngine, ResilientExecutionOutcome, retarget, execute, loop, pursue, round,
  accept, RouteProvider,
}
use ma2a.Engine.Round.{attempted}
use ma2a.Engine.Execute.{Ended, execute-Ended}
use ma2a.Engine.Ends.{execute-ne-unfinished}
use ma2a.Executor.{
  TcpEndpoint, Peer, Surroundings, AuthenticatedTcpAttemptExecutor, attempt, attempt_at,
  attempt_executor, local_failure, local_notice, failure_response, transact, exchange, judge,
  judge_result, breaks_result_contract, result_response,
}
use ma2a.Executor.Evidence.{Evidence, attempt-Evidence}
use ma2a.Executor.Completion.{authenticated_engine, IsCompletion, execute-IsCompletion}
use ma2a.Tests.{request, answer, notice, toy}

-- The header in one piece, and the body in another.
abbrev pub pieces : Result Bytes → List ReceiveAnswer
pieces (ok (a ∷ b ∷ c ∷ d ∷ e ∷ s)) = chunk a (b ∷ c ∷ d ∷ []) ∷ chunk e s ∷ []
pieces _ = []

abbrev pub peer : Peer
peer = record {
  connecting = record {
    socket = true;
    read_flags = true;
    set_nonblocking = true;
    address = true;
    connect = connected;
    polls = [];
    read_status = true;
    socket_error = 0;
    restore_flags = true;
  };
  receive_timeout_set = true;
  send_timeout_set = true;
  sends = accepted 5 ∷ accepted 5000 ∷ [];
  respond = λ wire. pieces (encode_frame (job_result_envelope_json answer));
}

abbrev pub around : Surroundings
around = record { clock = pos 105; dial = λ endpoint. peer }

abbrev pub executor : AuthenticatedTcpAttemptExecutor toy
executor = record {
  local_private_key = tt;
  endpoint_resolver = λ node. ok (
      if bytes_eq node (codes "b")
      then some (record { host = codes "127.0.0.1"; port = 7000 })
      else none);
  public_key_resolver = λ node. ok (some tt);
  connect_timeout = pos 500;
  io_timeout = pos 500;
}

abbrev pub to_b : JobRequest
to_b = retarget (codes "b") request

abbrev pub signed : JobRequest
signed = record to_b { signature = codes "YWJj" }

pub signs : sign_job_request toy (some tt) to_b ≡ ok signed
unfolding sign_job_request signature_text ed25519_sign base64url_encode replace
signs = refl

abbrev pub endpoint : TcpEndpoint
endpoint = record { host = codes "127.0.0.1"; port = 7000 }

exchanges : exchange toy executor around endpoint signed ≡ ok (job_result_envelope_json answer)
unfolding exchange connect_ipv4_with_timeout complete_connect set_socket_io_timeout timeval
    send_framed_json send_framed send_all encode_frame with_header job_request_envelope_json
    signed_job_request_json organization_text json_string escape escape_char decimal digits key_text
    job_result_envelope_json signed_job_result_json recv_framed_json recv_exact receive_loop
    receive_rest receive_body header_size decode_frame_size
exchanges = refl

-- The result of the answer is accepted.
judges : judge_result toy executor around to_b (codes "b") answer ≡ ok (result_response answer)
unfolding judge_result breaks_result_contract bytes_eq verify_job_result verify_text
    base64url_decode replace unpadded padding ed25519_verify
judges = refl

pub run_b : attempt toy executor around to_b (codes "b") ≡ ok (result_response answer)
unfolding attempt attempt_at transact judge bytes_eq
run_b = rw (
  signs,
  exchanges,
  (wire_envelope_type-envelopes request answer notice).1,
  parse_job_result-envelope answer (omega arith),
  judges,
)

attempt-Evidence_example : Evidence toy executor around to_b (codes "b") (result_response answer)
attempt-Evidence_example =
    attempt-Evidence toy executor around to_b (codes "b") (result_response answer) run_b

-- The world counts the attempts.
abbrev pub surround : ℕ → Surroundings × ℕ
surround n = (around, suc n)

-- `a` at first, then `b`.
abbrev pub route : RouteProvider ℕ
route n job [] = ok (some (codes "a"), n)
route n job (x ∷ excluded) = ok (some (codes "b"), n)

abbrev pub engine : ResilientExecutionEngine ℕ
engine = authenticated_engine toy executor surround route 3 request

abbrev pub own_notice : FailureNotice
own_notice =
    record (local_notice toy (retarget (codes "a") request) (codes "a")
      (codes "endpoint_unavailable") (pos 105)) { signature = codes "YWJj" }

pub run_a :
    attempt toy executor around (retarget (codes "a") request) (codes "a")
    ≡ ok (failure_response own_notice)
unfolding attempt attempt_at local_failure sign_failure_notice signature_text ed25519_sign
    base64url_encode replace bytes_eq
run_a = refl

abbrev outcome : ResilientExecutionOutcome
outcome = record {
  state = record {
    request_id = codes "r1";
    attempts = attempted (codes "a") failed ∷ attempted (codes "b") ok_status ∷ [];
    excluded_nodes = codes "a" ∷ [];
    completed = true;
    result = some answer;
  };
  exhausted = false;
}

executes : execute engine request 0 ≡ ok (outcome, 2)
unfolding execute loop pursue round accept attempt_executor new_orchestrator exhausted contains
    insert mark_back begin_attempt accept_authenticated_failure accept_authenticated_result bytes_eq
executes = rw (run_a, run_b)

execute-Ended_example :
    (o : Orchestrator) × Ended engine request (codes "r1") o
    × (outcome ≡ record { state = o.state; exhausted = exhausted o })
execute-Ended_example = execute-Ended engine request 0 2 outcome executes

execute-IsCompletion_example : IsCompletion toy executor surround route 3 request outcome
execute-IsCompletion_example =
    execute-IsCompletion toy executor surround route 3 request 0 2 outcome executes refl

-- No peer answers, and no third node is known.
abbrev silent : ResilientExecutionEngine ℕ
silent = record {
  route_provider =
      λ n job excluded. ok (if contains excluded (codes "a") then none else some (codes "a"), n);
  attempt_executor = λ n job target. ok (failure_response notice, n);
  max_attempts = 3;
}

execute-ne-unfinished_example : execute silent request 0 ≢ unfinished
execute-ne-unfinished_example =
    execute-ne-unfinished silent request (λ w job excluded. ok-ne-unfinished _)
      (λ w job target. ok-ne-unfinished _) 0

-- Signing does not fail here.
pub toy_signs :
    (message : Bytes) (e : Exception)
    → signature_text toy (some executor.local_private_key) message ≢ throw e
unfolding signature_text ed25519_sign base64url_encode
toy_signs message e = λ p. cc

resolver_answers : (e : Exception) → executor.endpoint_resolver (codes "b") ≢ throw e
resolver_answers e = λ p. cc

report_a :
    local_failure toy executor around
      (retarget (codes "a") request)
      (codes "a")
      (codes "endpoint_unavailable")
    ≡ ok (failure_response own_notice)
unfolding local_failure sign_failure_notice signature_text ed25519_sign base64url_encode replace
report_a = refl
