-- ===== src/Tcp.antt =====
-- cpp/include/ma2a/tcp.hpp: the loops that send and receive. The kernel's answers to the
-- successive calls of `send` and `recv` are a list; a list that ends too early leaves a call
-- waiting, and the loop unfinished.
pub mod Stream
pub mod Delivery
use ma2a.Base.{
  ℕ, zero, suc, ◌+◌, ◌-◌, Bytes, length, take, drop, List, [], ◌∷◌, ◌++◌, Result, ok, throw,
  undefined, unfinished, send_timeout, send_failed, connection_closed, receive_timeout,
  receive_failed,
}
use ma2a.Framing.{encode_frame, decode_frame_size}

-- What a call of `send` returns: a count of bytes taken (`n > 0`), `n < 0` with the `errno` that
-- the loop tells apart, or zero.
pub data SendAnswer : Type 0 where
  accepted : ℕ → SendAnswer
  interrupted would_block failed : SendAnswer

-- What a call of `recv` returns: a byte and more, zero, or an `errno`.
pub data ReceiveAnswer : Type 0 where
  chunk : ℕ → Bytes → ReceiveAnswer
  closed interrupted would_block failed : ReceiveAnswer

-- What a call came to, the bytes that were handed to the kernel, and the answers that are left.
pub record Sent : Type 0 where
  pub result : Result (Unit {0})
  pub wire : Bytes
  pub answers : List SendAnswer

pub record Received : Type 0 where
  pub result : Result Bytes
  pub answers : List ReceiveAnswer

-- `send_all`, on the data that is not sent yet.
unfoldable pub send_all : List SendAnswer → Bytes → Bytes → Sent
send_all answers [] wire = record { result = ok tt; wire = wire; answers = answers }
send_all [] (c ∷ s) wire = record { result = unfinished; wire = wire; answers = [] }
send_all (accepted zero ∷ answers) (c ∷ s) wire = record {
  result = throw send_failed;
  wire = wire;
  answers = answers;
}
send_all (accepted (suc n) ∷ answers) (c ∷ s) wire =
    send_all answers (drop n s) (wire ++ c ∷ take n s)
send_all (interrupted ∷ answers) (c ∷ s) wire = send_all answers (c ∷ s) wire
send_all (would_block ∷ answers) (c ∷ s) wire = record {
  result = throw send_timeout;
  wire = wire;
  answers = answers;
}
send_all (failed ∷ answers) (c ∷ s) wire = record {
  result = throw send_failed;
  wire = wire;
  answers = answers;
}

-- `recv_exact`, on the count of bytes that are missing and the bytes so far.
unfoldable pub receive_loop : List ReceiveAnswer → ℕ → Bytes → Received
receive_loop answers zero out = record { result = ok out; answers = answers }
receive_loop [] (suc n) out = record { result = unfinished; answers = [] }
receive_loop (chunk c s ∷ answers) (suc n) out = receive_loop answers (n - length s) (out ++ c ∷ s)
receive_loop (closed ∷ answers) (suc n) out = record {
  result = throw connection_closed;
  answers = answers;
}
receive_loop (interrupted ∷ answers) (suc n) out = receive_loop answers (suc n) out
receive_loop (would_block ∷ answers) (suc n) out = record {
  result = throw receive_timeout;
  answers = answers;
}
receive_loop (failed ∷ answers) (suc n) out = record {
  result = throw receive_failed;
  answers = answers;
}

unfoldable pub recv_exact : List ReceiveAnswer → ℕ → Received
recv_exact answers size = receive_loop answers size []

unfoldable pub send_framed : List SendAnswer → Result Bytes → Sent
send_framed answers (ok frame) = send_all answers frame []
send_framed answers (throw e) = record { result = throw e; wire = []; answers = answers }
send_framed answers undefined = record { result = undefined; wire = []; answers = answers }
send_framed answers unfinished = record { result = unfinished; wire = []; answers = answers }

unfoldable pub send_framed_json : List SendAnswer → Bytes → Sent
send_framed_json answers json = send_framed answers (encode_frame json)

-- `recv_framed_json`, once the size is known.
unfoldable pub receive_body : List ReceiveAnswer → Result ℕ → Received
receive_body answers (ok body_size) = recv_exact answers body_size
receive_body answers (throw e) = record { result = throw e; answers = answers }
receive_body answers undefined = record { result = undefined; answers = answers }
receive_body answers unfinished = record { result = unfinished; answers = answers }

-- The size in the header; `recv_exact(fd, 4)` returns four bytes.
unfoldable pub header_size : Bytes → Result ℕ
header_size (a ∷ b ∷ c ∷ d ∷ []) = decode_frame_size a b c d
header_size _ = undefined

-- `recv_framed_json`, once the header is there.
unfoldable pub receive_rest : Received → Received
receive_rest r = elim r.result [
  | ok header_raw ↦ receive_body r.answers (header_size header_raw)
  | throw e ↦ r
  | undefined ↦ r
  | unfinished ↦ r
]

unfoldable pub recv_framed_json : List ReceiveAnswer → Received
recv_framed_json answers = receive_rest (recv_exact answers 4)
