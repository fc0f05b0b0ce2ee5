-- ===== src/Tests/Sockets.antt =====
-- Handles, connections and deliveries, at concrete inputs.
use ma2a.Base.{
  ℕ, ◌≡◌, ◌↔◌, refl, ap, sym, ◌∙◌, true, false, All, Bytes, codes, List, [], ◌∷◌, Option, none,
  some, ok, if◌then◌else◌, arith, bytes_eq,
}
use ma2a.Base.Int.{pos}
use ma2a.Framing.{decode_frame_size}
use ma2a.Tcp.{ReceiveAnswer, chunk, recv_framed_json, recv_exact, receive_loop, header_size}
use ma2a.Tcp.Delivery.{Fits, FitsFrame, Arrives, recv_framed_json_iff}
use ma2a.Connect.{ConnectAnswers, in_progress, interrupted, ready, connect_ipv4_with_timeout}
use ma2a.Connect.Handle.{Flags, c_str, connect_ipv4_within}
use ma2a.Connect.Settled.{is_some, IsSettled, connect_ipv4_within-refines}
use ma2a.Socket.{Sockets, adopt, move_assign, destroy, close_held, close}
use ma2a.Socket.Ownership.{
  owners, adopts, assigns, destroys, start, Reach, here, next, Reach-one_owner,
}

-- Two sockets are adopted, the first is moved into the second, whose own is closed, and both are
-- destroyed.
abbrev two : Sockets
two = adopt 4 (adopt 3 start)

abbrev moved : Sockets
moved = move_assign 0 1 two

abbrev gone : Sockets
gone = destroy 1 (destroy 0 moved)

reaches : Reach gone
unfolding adopt move_assign destroy close_held close
reaches =
    next
      (next
        (next (next (next here (adopts 3 refl)) (adopts 4 refl))
          (assigns 0 1 (omega arith) (omega arith)))
        (destroys 0 (omega arith)))
      (destroys 1 (omega arith))

Reach-one_owner_example :
    ((n : ℕ) → owners n gone.handles ≡ (if gone.is_open n then 1 else 0))
    × (gone.bad_closes ≡ 0)
    × (All (λ h. h ≡ none) gone.handles → (n : ℕ) → gone.is_open n ≡ false)
Reach-one_owner_example = Reach-one_owner reaches

-- The connection takes a while, and `poll` is interrupted once.
abbrev slow : ConnectAnswers
slow = record {
  socket = true;
  read_flags = true;
  set_nonblocking = true;
  address = true;
  connect = in_progress;
  polls = interrupted ∷ ready ∷ [];
  read_status = true;
  socket_error = 0;
  restore_flags = true;
}

abbrev blocking : Flags
blocking = record { nonblocking = false; others = 2 }

-- One host is known.
abbrev localhost : Bytes → Option ℕ
localhost host = if bytes_eq host (codes "127.0.0.1") then some 2130706433 else none

connect_ipv4_within-refines_example :
    let c = connect_ipv4_within localhost (codes "127.0.0.1") 7000 (pos 500) blocking slow in
    (c.result
      ≡ connect_ipv4_with_timeout
          (pos 500)
          (record slow { address = is_some (localhost (c_str (codes "127.0.0.1"))) }))
    × IsSettled blocking c.result c.descriptor
connect_ipv4_within-refines_example =
    connect_ipv4_within-refines localhost (codes "127.0.0.1") 7000 blocking (pos 500) slow

-- The header in two pieces with a signal between, the body in one, and one answer more.
abbrev later : List ReceiveAnswer
later = chunk b'x' [] ∷ []

abbrev delivery : List ReceiveAnswer
delivery =
    chunk 0 (0 ∷ []) ∷ ReceiveAnswer.interrupted ∷ chunk 0 (2 ∷ []) ∷ chunk b'h' (b'i' ∷ []) ∷ later

abbrev body : List ReceiveAnswer
body = chunk b'h' (b'i' ∷ []) ∷ later

size_two : (n : ℕ) → header_size (0 ∷ 0 ∷ 0 ∷ 2 ∷ []) ≡ ok n → 2 ≡ n
unfolding header_size decode_frame_size
size_two n h = cc

body-Fits :
    (header : Bytes) (more : List ReceiveAnswer) (n : ℕ)
    → recv_exact delivery 4 ≡ record { result = ok header; answers = more }
    → header_size header ≡ ok n
    → Fits n more
unfolding recv_exact receive_loop
body-Fits header more n h k =
    let e : header ≡ 0 ∷ 0 ∷ 0 ∷ 2 ∷ [] = cc in
    let m : body ≡ more = cc in rw (← m, ← size_two n (ap header_size (sym e) ∙ k)) (omega arith)

fits : FitsFrame delivery
fits = (omega arith, body-Fits)

recv_framed_json_iff_example :
    (recv_framed_json delivery ≡ record { result = ok (codes "hi"); answers = later })
    ↔ Arrives (codes "hi") delivery later
recv_framed_json_iff_example = recv_framed_json_iff delivery later (codes "hi") fits
