-- ===== src/Connect/Settled.antt =====
-- What the connecting functions of cpp/include/ma2a/tcp.hpp leave open.
use ma2a.Base.{
  ℕ, ◌≡◌, refl, Bool, true, false, not, Bytes, Option, none, some, Result, ok, throw, undefined,
  unfinished, ◌>>◌, throw_if, Bool-cases, inl, inr, socket_failed, read_flags_failed,
  nonblocking_failed, invalid_address, restore_flags_failed,
}
use ma2a.Base.Int.{ℤ}
use ma2a.Connect.{
  is_not_positive, ConnectAnswer, connected, in_progress, refused, ConnectAnswers, finish_connect,
  complete_connect, connect_ipv4_with_timeout,
}
use ma2a.Connect.Handle.{
  c_str, Flags, Descriptor, ipv4_address, connect_body, timed_body, Connection, leave, with_socket,
  connect_ipv4, connect_ipv4_within,
}

abbrev pub is_some : Option ℕ → Bool
is_some none = false
is_some (some n) = true

-- No descriptor is open: none was made, or it was closed once.
abbrev pub IsClosed : Option Descriptor → Type 0
IsClosed none = Unit {0}
IsClosed (some d) = d.closes ≡ 1

-- What a caller has of a call: after a return an open socket with the flags that it was made with,
-- after an exception none.
abbrev pub IsSettled : Flags → Result (Unit {0}) → Option Descriptor → Type 0
IsSettled flags (ok u) d = d ≡ some (record { flags = flags; closes = 0 })
IsSettled flags (throw e) d = IsClosed d
IsSettled flags undefined d = Unit {0}
IsSettled flags unfinished d = Unit {0}

abbrev Agrees : Flags → Connection → Result (Unit {0}) → Type 0
Agrees flags c r = (c.result ≡ r) × IsSettled flags c.result c.descriptor

complete_connect-address :
    (c : ConnectAnswer) (answers : ConnectAnswers) (b : Bool)
    → complete_connect c (record answers { address = b }) ≡ complete_connect c answers
unfolding complete_connect finish_connect
complete_connect-address connected answers b = refl
complete_connect-address in_progress answers b = refl
complete_connect-address refused answers b = refl

module _ (inet_pton : Bytes → Option ℕ) (host : Bytes) (port : ℕ) (flags : Flags) where
  timed_body-Agrees :
      (socket read set : Bool) (address : Option ℕ) (c : Result (Unit {0})) (restore : Bool)
      → inet_pton (c_str host) ≡ address
      → Agrees flags
          (with_socket socket flags (timed_body inet_pton host port read set c restore))
          (do
            throw_if (not socket) socket_failed
            throw_if (not read) read_flags_failed
            throw_if (not set) nonblocking_failed
            throw_if (not (is_some address)) invalid_address
            c
            throw_if (not restore) restore_flags_failed)
  unfolding with_socket leave timed_body ipv4_address
  timed_body-Agrees false read set address c restore e = (refl, tt)
  timed_body-Agrees true false set address c restore e = (refl, refl)
  timed_body-Agrees true true false address c restore e = (refl, refl)
  timed_body-Agrees true true true none c restore e = rw (e, ipv4_address) (refl, refl)
  timed_body-Agrees true true true (some a) (ok u) true e = rw (e, ipv4_address) (refl, refl)
  timed_body-Agrees true true true (some a) (ok u) false e = rw (e, ipv4_address) (refl, refl)
  timed_body-Agrees true true true (some a) (throw x) restore e = rw (e, ipv4_address) (refl, refl)
  timed_body-Agrees true true true (some a) undefined restore e = rw (e, ipv4_address) (refl, tt)
  timed_body-Agrees true true true (some a) unfinished restore e = rw (e, ipv4_address) (refl, tt)

  -- `connect_ipv4_with_timeout`, with the descriptor that it makes, the flags on it and the handle that
  -- closes it, has the outcome of the sequence of calls alone; and after a return the socket is open
  -- and has the flags that it was made with, while after an exception no socket is open: none was
  -- made, or it was closed once.
  pub connect_ipv4_within-refines :
      (timeout : ℤ) (answers : ConnectAnswers)
      → let c = connect_ipv4_within inet_pton host port timeout flags answers in
        (c.result
          ≡ connect_ipv4_with_timeout timeout
              (record answers { address = is_some (inet_pton (c_str host)) }))
        × IsSettled flags c.result c.descriptor
  unfolding connect_ipv4_within connect_ipv4_with_timeout
  connect_ipv4_within-refines timeout answers = elim (Bool-cases (is_not_positive timeout)) [
    | inl e ↦ rw e (refl, tt)
    | inr e ↦
        rw (e, complete_connect-address answers.connect answers (is_some (inet_pton (c_str host))))
          (timed_body-Agrees answers.socket answers.read_flags answers.set_nonblocking
            (inet_pton (c_str host)) (complete_connect answers.connect answers)
            answers.restore_flags refl)
  ]

  -- So does `connect_ipv4`: a return leaves an open socket, and an exception none.
  connect_ipv4-settles :
      (socket connects : Bool) (address : Option ℕ)
      → inet_pton (c_str host) ≡ address
      → let c = connect_ipv4 inet_pton host port socket flags connects in
        IsSettled flags c.result c.descriptor
  unfolding connect_ipv4 with_socket leave connect_body ipv4_address
  connect_ipv4-settles false connects address e = tt
  connect_ipv4-settles true connects none e = rw (e, ipv4_address) refl
  connect_ipv4-settles true true (some a) e = rw (e, ipv4_address) refl
  connect_ipv4-settles true false (some a) e = rw (e, ipv4_address) refl
