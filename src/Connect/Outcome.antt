-- ===== src/Connect/Outcome.antt =====
-- When a connection is made, and what the socket's timeout is.
use ma2a.Base.{ℕ, ◌+◌, ◌*◌, ◌<◌, ◌≡◌, ◌↔◌, ◌⊎◌, Bool, true, false, List, [], ◌∷◌, ok, refl, arith}
use ma2a.Base.Int.{ℤ, pos, negsuc}
use ma2a.Connect.{
  is_not_positive, connected, in_progress, PollAnswer, ready, timed_out, interrupted, failed,
  ConnectAnswers, await_writable, finish_connect, complete_connect, connect_ipv4_with_timeout,
  Timeval, timeval, set_socket_io_timeout,
}

-- After signals, `poll` reports the socket.
pub data Writable : List PollAnswer → Type 0 where
  now : {polls : List PollAnswer} → Writable (ready ∷ polls)
  later : {polls : List PollAnswer} → Writable polls → Writable (interrupted ∷ polls)

await_writable_sound : (polls : List PollAnswer) → await_writable polls ≡ ok tt → Writable polls
unfolding await_writable
await_writable_sound [] h = cc
await_writable_sound (ready ∷ polls) h = now
await_writable_sound (interrupted ∷ polls) h = later (await_writable_sound polls h)
await_writable_sound (timed_out ∷ polls) h = cc
await_writable_sound (failed ∷ polls) h = cc

await_writable_complete : {polls : List PollAnswer} → Writable polls → await_writable polls ≡ ok tt
unfolding await_writable
await_writable_complete now = refl
await_writable_complete (later w) = await_writable_complete w

-- The kernel has made the connection, at once or within the time.
abbrev pub IsConnected : ConnectAnswers → Type 0
IsConnected a =
    (a.connect ≡ connected)
    ⊎ ((a.connect ≡ in_progress) × Writable a.polls × (a.read_status ≡ true) × (a.socket_error ≡ 0))

complete_connect_iff : (a : ConnectAnswers) → (complete_connect a.connect a ≡ ok tt) ↔ IsConnected a
unfolding complete_connect finish_connect
complete_connect_iff a =
    ground
      (arith, await_writable_sound a.polls, λ (w : Writable a.polls). await_writable_complete w)

-- `connect_ipv4_with_timeout` hands out a socket exactly when the timeout is positive, each call
-- before and after the connection succeeds, and the connection is made: at once, or, after signals
-- alone, `poll` reports the socket and no error is pending on it.
pub connect_ipv4_with_timeout_iff :
    (timeout : ℤ) (a : ConnectAnswers)
    → (connect_ipv4_with_timeout timeout a ≡ ok tt) ↔ (
        (is_not_positive timeout ≡ false)
        × (a.socket ≡ true)
        × (a.read_flags ≡ true)
        × (a.set_nonblocking ≡ true)
        × (a.address ≡ true)
        × IsConnected a
        × (a.restore_flags ≡ true))
unfolding connect_ipv4_with_timeout
connect_ipv4_with_timeout_iff timeout a =
    let (sound, complete) = complete_connect_iff a in
    (λ h. ground (arith, sound), λ (h : _). ground (arith, complete h.5))

-- The socket's timeout is the duration that was asked for, in seconds and microseconds, and the
-- microseconds are less than a second.
set_socket_io_timeout_lem :
    (timeout : ℤ) (receive_set send_set : Bool) (tv : Timeval)
    → set_socket_io_timeout timeout receive_set send_set ≡ ok tv
    → (ms : ℕ) × (timeout ≡ pos ms)
      × (0 < ms)
      × (tv.tv_sec * 1000000 + tv.tv_usec ≡ ms * 1000)
      × (tv.tv_usec < 1000000)
unfolding set_socket_io_timeout timeval
set_socket_io_timeout_lem (pos ms) r s tv h = (ms, refl, ground arith, ground arith, ground arith)
set_socket_io_timeout_lem (negsuc n) r s tv h = cc
