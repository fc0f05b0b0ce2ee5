-- ===== src/Connect/Handle.antt =====
-- cpp/include/ma2a/tcp.hpp: `ipv4_address`, `connect_ipv4` and `connect_ipv4_with_timeout` with the
-- descriptor that they make, the flags that they set on it, and the handle that closes it. What
-- the kernel and `inet_pton` answer is an argument.
use ma2a.Base.{
  ℕ, ◌+◌, ◌/◌, ◌%◌, Bool, true, false, not, Bytes, [], ◌∷◌, Option, none, some, ◌==◌, if◌then◌else◌,
  Result, ok, throw, undefined, unfinished, socket_failed, read_flags_failed, nonblocking_failed,
  invalid_address, connect_failed, restore_flags_failed, connect_timeout_not_positive, Exception,
}
use ma2a.Base.Int.{ℤ}
use ma2a.Connect.{is_not_positive, ConnectAnswers, complete_connect}

-- `sockaddr_in`, its port in network byte order.
pub record SocketAddress : Type 0 where
  pub port_high : ℕ
  pub port_low : ℕ
  pub address : ℕ

-- `host.c_str()`, as far as a reader of it gets.
unfoldable pub c_str : Bytes → Bytes
c_str [] = []
c_str (c ∷ s) = if c == 0 then [] else c ∷ c_str s

-- What `fcntl` reads and sets: `O_NONBLOCK`, and the other flags.
pub record Flags : Type 0 where
  pub nonblocking : Bool
  pub others : ℕ

-- The socket of one call: its flags, and how often it was closed.
pub record Descriptor : Type 0 where
  pub flags : Flags
  pub closes : ℕ

-- A piece of the body, on the descriptor that the handle `sock` holds.
abbrev pub Body : Type 0 → Type 0
Body A = Descriptor → Result A × Descriptor

infixl 5 ◌>>=◌ ◌>>◌
abbrev ◌>>=◌ : {A B : Type 0} → Body A → (A → Body B) → Body B
◌>>=◌ m f d =
    let (r, d') = m d in
    elim r [
      | ok a ↦ f a d'
      | throw e ↦ (throw e, d')
      | undefined ↦ (undefined, d')
      | unfinished ↦ (unfinished, d')
    ]

abbrev ◌>>◌ : {B : Type 0} → Body (Unit {0}) → Body B → Body B
m >> k = m >>= λ _. k

abbrev lift : {A : Type 0} → Result A → Body A
lift r d = (r, d)

abbrev throw_if : Bool → Exception → Body (Unit {0})
throw_if true e = lift (throw e)
throw_if false e = lift (ok tt)

-- `fcntl(fd, F_GETFL, 0)` and `fcntl(fd, F_SETFL, flags)`, which may fail.
abbrev get_flags : Bool → Body Flags
get_flags true d = (ok d.flags, d)
get_flags false d = (throw read_flags_failed, d)

abbrev set_flags : Bool → Exception → Flags → Body (Unit {0})
set_flags true e flags d = (ok tt, record d { flags = flags })
set_flags false e flags d = (throw e, d)

module _ (inet_pton : Bytes → Option ℕ) where
  unfoldable pub ipv4_address : Bytes → ℕ → Result SocketAddress
  ipv4_address host port = elim (inet_pton (c_str host)) [
    | none ↦ throw invalid_address
    | some address ↦
        ok (record { port_high = port / 256 % 256; port_low = port % 256; address = address })
  ]

  -- The body of `connect_ipv4`, on the handle's descriptor.
  unfoldable pub connect_body : Bytes → ℕ → Bool → Body (Unit {0})
  connect_body host port connects = do
    address ← lift (ipv4_address host port)
    throw_if (not connects) connect_failed

  -- The body of `connect_ipv4_with_timeout`, of the outcomes of its calls; `O_NONBLOCK` is set while
  -- the connection is made.
  unfoldable pub timed_body : Bytes → ℕ → Bool → Bool → Result (Unit {0}) → Bool → Body (Unit {0})
  timed_body host port read_flags set_nonblocking connect restore_flags = do
    flags ← get_flags read_flags
    set_flags set_nonblocking nonblocking_failed (record flags { nonblocking = true })
    address ← lift (ipv4_address host port)
    lift connect
    set_flags restore_flags restore_flags_failed flags

-- What a call leaves behind: its outcome, and the descriptor, if one was made.
pub record Connection : Type 0 where
  pub result : Result (Unit {0})
  pub descriptor : Option Descriptor

-- The destructor of `sock`: a return has moved the descriptor out of it, an exception has not.
unfoldable pub leave : Result (Unit {0}) × Descriptor → Connection
leave (ok u, d) = record { result = ok u; descriptor = some d }
leave (throw e, d) = record {
  result = throw e;
  descriptor = some (record d { closes = d.closes + 1 });
}
leave (undefined, d) = record { result = undefined; descriptor = some d }
leave (unfinished, d) = record { result = unfinished; descriptor = some d }

-- `SocketHandle sock(::socket(…))`, the test behind it, and the rest of the scope.
unfoldable pub with_socket : Bool → Flags → Body (Unit {0}) → Connection
with_socket true flags body = leave (body (record { flags = flags; closes = 0 }))
with_socket false flags body = record { result = throw socket_failed; descriptor = none }

module _ (inet_pton : Bytes → Option ℕ) (host : Bytes) (port : ℕ) where
  unfoldable pub connect_ipv4 : Bool → Flags → Bool → Connection
  connect_ipv4 socket flags connects =
      with_socket socket flags (connect_body inet_pton host port connects)

  -- `connect_ipv4_with_timeout`, of a timeout and a new socket's flags
  unfoldable pub connect_ipv4_within : ℤ → Flags → ConnectAnswers → Connection
  connect_ipv4_within timeout flags answers =
      if is_not_positive timeout
      then record { result = throw connect_timeout_not_positive; descriptor = none }
      else with_socket answers.socket flags (
          timed_body inet_pton host port answers.read_flags answers.set_nonblocking
            (complete_connect answers.connect answers) answers.restore_flags)
