-- ===== src/Tests/Transport.antt =====
-- Frames, sockets, connections and the checks of a request, at concrete inputs.
use ma2a.Base.{bytes_eq, ◌≡◌, ◌↔◌, refl, true, false, Bytes, codes, List, [], ◌∷◌, ok, arith}
use ma2a.Base.Int.{pos}
use ma2a.Framing.{with_header, encode_frame, decode_complete_frame}
use ma2a.Framing.RoundTrip.{decode_complete_frame_iff}
use ma2a.Tcp.{SendAnswer, ReceiveAnswer, accepted, chunk, send_all, send_framed, send_framed_json}
use ma2a.Tcp.Stream.{Delivers, complete, piece, retry}
use ma2a.Connect.{
  is_not_positive, connected, in_progress, ConnectAnswers, connect_ipv4_with_timeout, Timeval,
  set_socket_io_timeout, timeval, await_writable, finish_connect, complete_connect,
}
use ma2a.Connect.Outcome.{IsConnected, connect_ipv4_with_timeout_iff}
use ma2a.Job.{validate_job_request, lacks_field, is_unsupported, has_no_window, is_outside}
use ma2a.Tests.{request}

abbrev text : Bytes
text = codes "{\"a\":1}"

abbrev frame : Bytes
frame = 0 ∷ 0 ∷ 0 ∷ 7 ∷ text

decode_complete_frame_iff_example :
    (decode_complete_frame frame ≡ ok text) ↔ (encode_frame text ≡ ok frame)
decode_complete_frame_iff_example = decode_complete_frame_iff frame text (ground arith)

encode_text : encode_frame text ≡ ok frame
unfolding encode_frame with_header
encode_text = refl

-- A signal, a short write, and the rest.
abbrev sends : List SendAnswer
sends = SendAnswer.interrupted ∷ accepted 3 ∷ accepted 8 ∷ []

sent_text : (send_framed_json sends text).result ≡ ok tt
unfolding send_framed_json send_framed send_all encode_frame with_header
sent_text = refl

wire_text : frame ≡ (send_framed_json sends text).wire
unfolding send_framed_json send_framed send_all encode_frame with_header
wire_text = refl

-- The header in two pieces with a signal between, and the body in one.
abbrev heads : List ReceiveAnswer
heads = chunk 0 (0 ∷ []) ∷ ReceiveAnswer.interrupted ∷ chunk 0 (7 ∷ []) ∷ []

heads-Delivers : Delivers 4 heads (0 ∷ 0 ∷ 0 ∷ 7 ∷ [])
heads-Delivers = piece 0 (0 ∷ []) (omega arith) (retry (piece 0 (7 ∷ []) (omega arith) complete))

abbrev bodies : List ReceiveAnswer
bodies = chunk b'{' (codes "\"a\":1}") ∷ []

bodies-Delivers : Delivers 7 bodies text
bodies-Delivers = piece b'{' (codes "\"a\":1}") (omega arith) complete

abbrev byte_by_byte : List SendAnswer
byte_by_byte =
    accepted 1
    ∷ accepted 1
    ∷ accepted 1
    ∷ SendAnswer.interrupted
    ∷ accepted 1
    ∷ accepted 1
    ∷ accepted 1
    ∷ accepted 1
    ∷ accepted 1
    ∷ accepted 1
    ∷ accepted 1
    ∷ accepted 1
    ∷ []

-- `connect` is in progress, a signal comes, and then the socket is ready.
abbrev slow : ConnectAnswers
slow = record {
  socket = true;
  read_flags = true;
  set_nonblocking = true;
  address = true;
  connect = in_progress;
  polls = ma2a.Connect.interrupted ∷ ma2a.Connect.ready ∷ [];
  read_status = true;
  socket_error = 0;
  restore_flags = true;
}

connect_ipv4_with_timeout_iff_example : (connect_ipv4_with_timeout (pos 500) slow ≡ ok tt) ↔ (
    (is_not_positive (pos 500) ≡ false)
    × (slow.socket ≡ true)
    × (slow.read_flags ≡ true)
    × (slow.set_nonblocking ≡ true)
    × (slow.address ≡ true)
    × IsConnected slow
    × (slow.restore_flags ≡ true))
connect_ipv4_with_timeout_iff_example = connect_ipv4_with_timeout_iff (pos 500) slow

set_1500 : set_socket_io_timeout (pos 1500) true true ≡ ok (record { tv_sec = 1; tv_usec = 500000 })
unfolding set_socket_io_timeout timeval
set_1500 = refl

valid_request : validate_job_request request (pos 120) ≡ ok tt
unfolding validate_job_request lacks_field is_unsupported has_no_window is_outside bytes_eq
valid_request = refl
