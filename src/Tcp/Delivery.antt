-- ===== src/Tcp/Delivery.antt =====
-- What `recv_framed_json` of cpp/include/ma2a/tcp.hpp returns, against any answers of the kernel.
use ma2a.Base.{
  ℕ, zero, suc, ◌-◌, ◌≤◌, ◌≡◌, ◌↔◌, refl, sym, ◌∙◌, ap, Bytes, length, List, [], ◌∷◌, ◌++◌,
  append_assoc, append-nil, Result, ok, throw, undefined, unfinished, >>=-eq-ok, arith, subst,
}
use ma2a.Framing.{decode_frame_size, decode_complete_frame}
use ma2a.Tcp.{
  ReceiveAnswer, chunk, closed, receive_loop, recv_exact, receive_body, header_size, receive_rest,
  recv_framed_json,
}
use ma2a.Tcp.Stream.{Delivers, complete, piece, retry, receive_loop-Delivers, length-Delivers}

-- `recv` returns at most the count of bytes that it is asked for.
abbrev pub Fits : ℕ → List ReceiveAnswer → Type 0
Fits zero answers = Unit {0}
Fits (suc n) [] = Unit {0}
Fits (suc n) (chunk c s ∷ answers) = (length s ≤ n) × Fits (n - length s) answers
Fits (suc n) (ReceiveAnswer.interrupted ∷ answers) = Fits (suc n) answers
Fits (suc n) (_ ∷ answers) = Unit {0}

-- The same of the calls of `recv_framed_json`, for the header and for the body.
abbrev pub FitsFrame : List ReceiveAnswer → Type 0
FitsFrame answers =
    Fits 4 answers
    × ((header : Bytes) (more : List ReceiveAnswer) (n : ℕ)
        → recv_exact answers 4 ≡ record { result = ok header; answers = more }
        → header_size header ≡ ok n
        → Fits n more)

-- The answers that a loop takes, and those that it leaves.
record Taken (n : ℕ) (answers more : List ReceiveAnswer) (out : Bytes) : Type 0 where
  used : List ReceiveAnswer
  delivers : Delivers n used out
  whole : answers ≡ used ++ more

receive_loop_inv :
    (answers more : List ReceiveAnswer) (n : ℕ) (before out : Bytes)
    → Fits n answers
    → receive_loop answers n before ≡ record { result = ok out; answers = more }
    → (got : Bytes) × (out ≡ before ++ got) × Taken n answers more got
unfolding receive_loop
receive_loop_inv answers more zero before out fits h = (
  [],
  (let e : before ≡ out = cc in rw (append-nil) (sym e)),
  record { used = []; delivers = complete; whole = cc },
)
receive_loop_inv [] more (suc n) before out fits h = cc
receive_loop_inv (chunk c s ∷ answers) more (suc n) before out (le, fits) h =
    let (got, e, t) = receive_loop_inv answers more (n - length s) (before ++ c ∷ s) out fits h in
    (
      c ∷ s ++ got,
      e ∙ append_assoc before (c ∷ s) got,
      record {
        used = chunk c s ∷ t.used;
        delivers = piece c s le t.delivers;
        whole = ap (λ (l : List ReceiveAnswer). chunk c s ∷ l) t.whole;
      },
    )
receive_loop_inv (ReceiveAnswer.interrupted ∷ answers) more (suc n) before out fits h =
    let (got, e, t) = receive_loop_inv answers more (suc n) before out fits h in
    (
      got,
      e,
      record {
        used = ReceiveAnswer.interrupted ∷ t.used;
        delivers = retry t.delivers;
        whole = ap (λ (l : List ReceiveAnswer). ReceiveAnswer.interrupted ∷ l) t.whole;
      },
    )
receive_loop_inv (closed ∷ answers) more (suc n) before out fits h = cc
receive_loop_inv (ReceiveAnswer.would_block ∷ answers) more (suc n) before out fits h = cc
receive_loop_inv (ReceiveAnswer.failed ∷ answers) more (suc n) before out fits h = cc

recv_exact_inv :
    (answers more : List ReceiveAnswer) (n : ℕ) (out : Bytes)
    → Fits n answers
    → recv_exact answers n ≡ record { result = ok out; answers = more }
    → Taken n answers more out
unfolding recv_exact
recv_exact_inv answers more n out fits h =
    let (got, e, t) = receive_loop_inv answers more n [] out fits h in
    subst (Taken n answers more) (sym e) t

-- The answers deliver a whole frame of the text, in pieces, its header by the calls for the header.
pub record Arrives (json : Bytes) (answers more : List ReceiveAnswer) : Type 0 where
  pub header : Bytes
  pub heads : List ReceiveAnswer
  pub bodies : List ReceiveAnswer
  pub whole : answers ≡ heads ++ (bodies ++ more)
  pub header_delivered : Delivers 4 heads header
  pub body_delivered : Delivers (length json) bodies json
  pub is_frame : decode_complete_frame (header ++ json) ≡ ok json

-- A header and a body make a frame when the header has the size of the body.
frame_iff :
    (header json : Bytes)
    → length header ≡ 4
    → (decode_complete_frame (header ++ json) ≡ ok json) ↔ (header_size header ≡ ok (length json))
unfolding decode_complete_frame header_size
frame_iff [] json l = absurd (omega arith)
frame_iff (a ∷ []) json l = absurd (omega arith)
frame_iff (a ∷ b ∷ []) json l = absurd (omega arith)
frame_iff (a ∷ b ∷ c ∷ []) json l = absurd (omega arith)
frame_iff (a ∷ b ∷ c ∷ d ∷ []) json l = (
  λ h.
      let (n, size, rest) = >>=-eq-ok (decode_frame_size a b c d) _ h in
      let e : length json ≡ n = ground arith in size ∙ ap ok (sym e),
  λ (h : _). rw h (ground arith),
)
frame_iff (a ∷ b ∷ c ∷ d ∷ x ∷ header) json l = absurd (omega arith)

receive_body_inv :
    (size : Result ℕ) (mid more : List ReceiveAnswer) (json : Bytes)
    → receive_body mid size ≡ record { result = ok json; answers = more }
    → (n : ℕ) × (size ≡ ok n) × (recv_exact mid n ≡ record { result = ok json; answers = more })
unfolding receive_body
receive_body_inv (ok n) mid more json h = (n, refl, h)
receive_body_inv (throw e) mid more json h = cc
receive_body_inv undefined mid more json h = cc
receive_body_inv unfinished mid more json h = cc

receive_rest_inv :
    (r : Result Bytes) (mid more : List ReceiveAnswer) (json : Bytes)
    → receive_rest (record { result = r; answers = mid })
      ≡ record { result = ok json; answers = more }
    → (header : Bytes) × (n : ℕ) × (r ≡ ok header)
      × (header_size header ≡ ok n)
      × (recv_exact mid n ≡ record { result = ok json; answers = more })
unfolding receive_rest
receive_rest_inv (ok header) mid more json h =
    let (n, size, rest) = receive_body_inv (header_size header) mid more json h in
    (header, n, refl, size, rest)
receive_rest_inv (throw e) mid more json h = cc
receive_rest_inv undefined mid more json h = cc
receive_rest_inv unfinished mid more json h = cc

recv_framed_json-Arrives :
    (answers more : List ReceiveAnswer) (json : Bytes)
    → FitsFrame answers
    → recv_framed_json answers ≡ record { result = ok json; answers = more }
    → Arrives json answers more
unfolding recv_framed_json
recv_framed_json-Arrives answers more json (fits, later) h =
    let r = recv_exact answers 4 in
    let (header, n, e, size, rest) = receive_rest_inv r.result r.answers more json h in
    let got : r ≡ record { result = ok header; answers = r.answers } =
      ap (λ (x : Result Bytes). record { result = x; answers = r.answers }) e in
    let head = recv_exact_inv answers r.answers 4 header fits got in
    let body = recv_exact_inv r.answers more n json (later header r.answers n got size) rest in
    let long = length-Delivers body.delivers in
    record {
      header = header;
      heads = head.used;
      bodies = body.used;
      whole = head.whole ∙ ap (λ (l : List ReceiveAnswer). head.used ++ l) body.whole;
      header_delivered = head.delivers;
      body_delivered = rw long body.delivers;
      is_frame =
          (frame_iff header json (length-Delivers head.delivers)).1 (size ∙ ap ok (sym long));
    }

pub Arrives-recv_framed_json :
    (answers more : List ReceiveAnswer) (json : Bytes)
    → Arrives json answers more
    → recv_framed_json answers ≡ record { result = ok json; answers = more }
unfolding recv_framed_json receive_rest recv_exact receive_body
Arrives-recv_framed_json answers more json a =
    let size = (frame_iff a.header json (length-Delivers a.header_delivered)).0 a.is_frame in
    rw (a.whole, receive_loop-Delivers (a.bodies ++ more) [] a.header_delivered, size)
      (receive_loop-Delivers more [] a.body_delivered)

-- If `recv` never returns more bytes than it is asked for, `recv_framed_json` returns a text, and
-- leaves the answers `more`, exactly when the answers in front of those deliver a header and the
-- text, in pieces, that `decode_complete_frame` accepts together as a frame of the text.
pub recv_framed_json_iff :
    (answers more : List ReceiveAnswer) (json : Bytes)
    → FitsFrame answers
    → (recv_framed_json answers ≡ record { result = ok json; answers = more })
      ↔ Arrives json answers more
recv_framed_json_iff answers more json fits =
    (recv_framed_json-Arrives answers more json fits, Arrives-recv_framed_json answers more json)
