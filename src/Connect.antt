-- ===== src/Connect.antt =====
-- cpp/include/ma2a/tcp.hpp, before the first byte: `set_socket_io_timeout` and
-- `connect_ipv4_with_timeout`. The answers of the kernel are an argument.
pub mod Outcome
pub mod Handle
pub mod Settled
use ma2a.Base.{
  ℕ, ◌*◌, ◌/◌, ◌%◌, Bool, true, false, not, List, [], ◌∷◌, Option, none, some, ◌==◌, ◌≡◌,
  if◌then◌else◌, Result, ok, throw, unfinished, ◌>>=◌, ◌>>◌, throw_if, connect_timeout_not_positive,
  socket_failed, read_flags_failed, nonblocking_failed, invalid_address, connect_failed,
  connect_timed_out, poll_failed, connect_status_failed, restore_flags_failed,
  socket_timeout_not_positive, receive_timeout_not_set, send_timeout_not_set,
}
use ma2a.Base.Int.{ℤ, pos, negsuc}

-- `timeout.count() <= 0`
abbrev pub is_not_positive : ℤ → Bool
is_not_positive (pos n) = n == 0
is_not_positive (negsuc n) = true

-- `connect` returns 0, or fails with `EINPROGRESS` or another `errno`.
pub data ConnectAnswer : Type 0 where
  connected in_progress refused : ConnectAnswer

-- `poll` returns 1, 0, or fails with `EINTR` or another `errno`.
pub data PollAnswer : Type 0 where
  ready timed_out interrupted failed : PollAnswer

-- What the calls of one `connect_ipv4_with_timeout` return: whether a call succeeds, but for
-- `connect` and the calls of `poll`; `socket_error` is what `SO_ERROR` holds.
pub record ConnectAnswers : Type 0 where
  pub socket : Bool
  pub read_flags : Bool
  pub set_nonblocking : Bool
  pub address : Bool
  pub connect : ConnectAnswer
  pub polls : List PollAnswer
  pub read_status : Bool
  pub socket_error : ℕ
  pub restore_flags : Bool

-- The `do … while` around `poll`, and the two tests behind it.
unfoldable pub await_writable : List PollAnswer → Result (Unit {0})
await_writable [] = unfinished
await_writable (interrupted ∷ polls) = await_writable polls
await_writable (timed_out ∷ polls) = throw connect_timed_out
await_writable (failed ∷ polls) = throw poll_failed
await_writable (ready ∷ polls) = ok tt

-- The block under `if (connect_result != 0)`.
unfoldable pub finish_connect : ConnectAnswers → Result (Unit {0})
finish_connect answers = do
  await_writable answers.polls
  throw_if (not answers.read_status) connect_status_failed
  throw_if (not (answers.socket_error == 0)) connect_failed

unfoldable pub complete_connect : ConnectAnswer → ConnectAnswers → Result (Unit {0})
complete_connect connected answers = ok tt
complete_connect refused answers = throw connect_failed
complete_connect in_progress answers = finish_connect answers

-- A return hands out the connected socket; after a throw the socket is closed by its handle.
unfoldable pub connect_ipv4_with_timeout : ℤ → ConnectAnswers → Result (Unit {0})
connect_ipv4_with_timeout timeout answers = do
  throw_if (is_not_positive timeout) connect_timeout_not_positive
  throw_if (not answers.socket) socket_failed
  throw_if (not answers.read_flags) read_flags_failed
  throw_if (not answers.set_nonblocking) nonblocking_failed
  throw_if (not answers.address) invalid_address
  complete_connect answers.connect answers
  throw_if (not answers.restore_flags) restore_flags_failed

-- `struct timeval`
pub record Timeval : Type 0 where
  pub tv_sec : ℕ
  pub tv_usec : ℕ

-- The `timeval` of a timeout in milliseconds; one that is not positive is refused before.
unfoldable pub timeval : ℤ → Timeval
timeval (pos total_ms) = record { tv_sec = total_ms / 1000; tv_usec = total_ms % 1000 * 1000 }
timeval (negsuc n) = record { tv_sec = 0; tv_usec = 0 }

-- Whether the two calls of `setsockopt` succeed is an argument.
unfoldable pub set_socket_io_timeout : ℤ → Bool → Bool → Result Timeval
set_socket_io_timeout timeout receive_set send_set = do
  throw_if (is_not_positive timeout) socket_timeout_not_positive
  throw_if (not receive_set) receive_timeout_not_set
  throw_if (not send_set) send_timeout_not_set
  ok (timeval timeout)
