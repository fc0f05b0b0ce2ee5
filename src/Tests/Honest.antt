-- ===== src/Tests/Honest.antt =====
-- Attempts at nodes that answer: one of this library, and one of the Python reference.
use ma2a.Base.{
  ℕ, suc, ◌/◌, ◌%◌, ◌^◌, ◌≤◌, ◌≡◌, refl, subst, Bytes, bytes_eq, codes, length, [], ◌∷◌, append-nil,
  some, ok, arith,
}
use ma2a.Base.Int.{pos}
use ma2a.Framing.{max_frame_bytes, with_header, encode_frame}
use ma2a.Framing.RoundTrip.{encode_frame_lem, decode-encode}
use ma2a.Json.{escape_char, escape, json_string, decimal, digits, key_text}
use ma2a.Wire.{
  job_result_envelope_json, job_request_envelope_json, signed_job_request_json,
  signed_job_result_json, organization_text,
}
use ma2a.Tcp.{chunk, send_framed_json, send_framed, send_all}
use ma2a.Tcp.Stream.{Delivers, complete, piece}
use ma2a.Tcp.Delivery.{Arrives}
use ma2a.Connect.{connect_ipv4_with_timeout, complete_connect, set_socket_io_timeout, timeval}
use ma2a.Executor.{Peer, Surroundings, attempt, result_response}
use ma2a.Executor.Honest.{Carries, Fulfils, attempt-answered}
use ma2a.Python.{
  dumps, dumps_members, sort_members, insert_member, text_lt, join_members, dumps_text,
  ascii_escape, ascii_char, utf8, utf8_char,
}
use ma2a.Python.Messages.{result_dict, frame_body, encode_result}
use ma2a.Python.Served.{attempt-served}
use ma2a.Tests.{answer, toy}
use ma2a.Tests.Signatures.{toy-IsKeyPair, unsigned_answer, signs_answer}
use ma2a.Tests.Execution.{pieces, peer, around, executor, to_b, signed, signs, endpoint}
use ma2a.Tests.Python

whole_piece : (c : ℕ) (s : Bytes) → Delivers (suc (length s)) (chunk c s ∷ []) (c ∷ s)
whole_piece c s =
    subst (Delivers (suc (length s)) (chunk c s ∷ [])) (append-nil (c ∷ s))
      (piece c s (omega arith) (subst (λ (n : ℕ). Delivers n [] []) (omega arith) complete))

-- A frame that comes in two pieces arrives.
pieces-Arrives :
    (c : ℕ) (s : Bytes)
    → length (c ∷ s) ≤ max_frame_bytes
    → Arrives (c ∷ s) (pieces (encode_frame (c ∷ s))) []
unfolding with_header
pieces-Arrives c s h =
    let n = length (c ∷ s) in
    let e = encode_frame_lem (c ∷ s) (omega arith) h in
    let high = n / 2 ^ 24 % 256 in
    let low = (n / 2 ^ 16 % 256) ∷ (n / 2 ^ 8 % 256) ∷ (n % 256) ∷ [] in
    rw e (record {
      header = high ∷ low;
      heads = chunk high low ∷ [];
      bodies = chunk c s ∷ [];
      whole = refl;
      header_delivered = piece high low (omega arith) complete;
      body_delivered = whole_piece c s;
      is_frame = decode-encode (c ∷ s) (with_header n (c ∷ s)) e;
    })

answer-Carries : Carries executor peer signed (job_result_envelope_json answer)
unfolding connect_ipv4_with_timeout complete_connect set_socket_io_timeout timeval send_framed_json
    send_framed send_all encode_frame with_header job_request_envelope_json signed_job_request_json
    organization_text json_string escape escape_char decimal digits key_text
    job_result_envelope_json signed_job_result_json
answer-Carries = record {
  timeval = record { tv_sec = 0; tv_usec = 500000 };
  more = [];
  connects = refl;
  times = refl;
  sends = refl;
  arrives = pieces-Arrives _ _ (omega arith);
}

answer-Fulfils : Fulfils to_b (codes "b") answer
answer-Fulfils = record {
  same_request = refl;
  from_target = refl;
  to_sender = refl;
  successful = refl;
}

resolves_b : executor.endpoint_resolver (codes "b") ≡ ok (some endpoint)
unfolding bytes_eq
resolves_b = refl

attempt-answered_example :
    attempt toy executor around to_b (codes "b") ≡ ok (result_response answer)
attempt-answered_example =
    attempt-answered toy executor around to_b (codes "b") endpoint signed unsigned_answer answer tt
      tt refl refl resolves_b signs signs_answer (omega arith) refl answer-Fulfils answer-Carries
      refl toy-IsKeyPair

-- The same network, with a node of the Python reference.
abbrev served : Bytes
served = frame_body (codes "JOB_RESULT") (result_dict Python.signed_result)

abbrev python_peer : Peer
python_peer = record peer { respond = λ wire. pieces (encode_frame served) }

abbrev near_python : Surroundings
near_python = record { clock = pos 105; dial = λ e. python_peer }

served-Carries : Carries executor python_peer signed served
unfolding connect_ipv4_with_timeout complete_connect set_socket_io_timeout timeval send_framed_json
    send_framed send_all encode_frame with_header job_request_envelope_json signed_job_request_json
    organization_text json_string escape escape_char decimal digits key_text frame_body result_dict
    dumps dumps_members sort_members insert_member text_lt join_members dumps_text ascii_escape
    ascii_char
served-Carries = record {
  timeval = record { tv_sec = 0; tv_usec = 500000 };
  more = [];
  connects = refl;
  times = refl;
  sends = refl;
  arrives = pieces-Arrives _ _ (omega arith);
}

served-Fulfils : Fulfils to_b (codes "b") (encode_result Python.signed_result)
unfolding utf8 utf8_char
served-Fulfils = record {
  same_request = refl;
  from_target = refl;
  to_sender = refl;
  successful = refl;
}

attempt-served_example :
    attempt toy executor near_python to_b (codes "b")
    ≡ ok (result_response (encode_result Python.signed_result))
attempt-served_example =
    attempt-served Python.toy_python toy tt tt tt Python.toy-IsSameKey toy-IsKeyPair executor
      near_python to_b (codes "b") endpoint signed Python.plain_result Python.signed_result refl
      refl resolves_b signs Python.signs (omega arith) (omega arith) refl served-Fulfils
      served-Carries refl
