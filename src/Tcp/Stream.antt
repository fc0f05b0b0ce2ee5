-- ===== src/Tcp/Stream.antt =====
-- The loops of cpp/include/ma2a/tcp.hpp, on both sides of a connection.
use ma2a.Base.{
  ℕ, zero, suc, ◌-◌, ◌/◌, ◌%◌, ◌^◌, ◌≤◌, ◌≡◌, refl, sym, ◌∙◌, ap, All, Bytes, length, take, drop,
  List, [], ◌∷◌, ◌++◌, append_assoc, append-nil, Result, ok, throw, undefined, unfinished,
  length-append, arith, ◌<◌, ◌⊎◌, inl, inr, ◌≢◌,
}
use ma2a.Framing.{with_header, encode_frame, decode_frame_size}
use ma2a.Framing.RoundTrip.{encode_frame_bounds, encode_frame_lem, decode_frame_size-bytes}
use ma2a.Tcp.{
  SendAnswer, ReceiveAnswer, accepted, interrupted, would_block, failed, chunk, send_all,
  receive_loop, recv_exact, send_framed, send_framed_json, receive_body, header_size, receive_rest,
  recv_framed_json,
}

take-append-drop {ℓ} : {A : Type ℓ} (n : ℕ) (xs : List A) → take n xs ++ drop n xs ≡ xs
take-append-drop zero xs = refl
take-append-drop (suc n) [] = refl
take-append-drop (suc n) (x ∷ xs) = rw (take-append-drop n xs)

-- The bytes that are sent, with those that are not, are the data; none is missing on success.
pub send_all_lem :
    (answers : List SendAnswer) (s wire : Bytes)
    → (rest : Bytes) × ((send_all answers s wire).wire ++ rest ≡ wire ++ s)
      × ((send_all answers s wire).result ≡ ok tt → rest ≡ [])
unfolding send_all
send_all_lem answers [] wire = ([], refl, λ _. refl)
send_all_lem [] (c ∷ s) wire = (c ∷ s, refl, λ h. cc)
send_all_lem (accepted zero ∷ answers) (c ∷ s) wire = (c ∷ s, refl, λ h. cc)
send_all_lem (accepted (suc n) ∷ answers) (c ∷ s) wire =
    let (rest, whole, all) = send_all_lem answers (drop n s) (wire ++ c ∷ take n s) in
    (rest, whole ∙ rw append_assoc (ap (λ t. wire ++ c ∷ t) (take-append-drop n s)), all)
send_all_lem (interrupted ∷ answers) (c ∷ s) wire = send_all_lem answers (c ∷ s) wire
send_all_lem (would_block ∷ answers) (c ∷ s) wire = (c ∷ s, refl, λ h. cc)
send_all_lem (failed ∷ answers) (c ∷ s) wire = (c ∷ s, refl, λ h. cc)

-- A call that returns has sent the whole frame.
sent_frame :
    (json : Bytes) (sends : List SendAnswer)
    → (send_framed_json sends json).result ≡ ok tt
    → (frame : Bytes) × (encode_frame json ≡ ok frame)
      × ((send_framed_json sends json).wire ≡ frame)
unfolding send_framed_json send_framed
sent_frame json sends = go (encode_frame json) refl
  where
    go :
        (r : Result Bytes)
        → encode_frame json ≡ r
        → (send_framed sends r).result ≡ ok tt
        → (frame : Bytes) × (encode_frame json ≡ ok frame) × ((send_framed sends r).wire ≡ frame)
    go (ok frame) e h =
        let (rest, whole, all) = send_all_lem sends frame [] in
        (
          frame,
          e,
          sym (append-nil _) ∙ ap (λ t. (send_all sends frame []).wire ++ t) (sym (all h)) ∙ whole,
        )
    go (throw x) e h = cc
    go undefined e h = cc
    go unfinished e h = cc

-- Answers that deliver `size` bytes in pieces, the calls that a signal interrupts among them. No
-- answer is longer than the count that is asked for.
pub data Delivers : ℕ → List ReceiveAnswer → Bytes → Type 0 where
  complete : Delivers 0 [] []
  piece :
      {n : ℕ} (c : ℕ) (s : Bytes) {answers : List ReceiveAnswer} {out : Bytes}
      → length s ≤ n
      → Delivers (n - length s) answers out
      → Delivers (suc n) (chunk c s ∷ answers) (c ∷ s ++ out)
  retry :
      {n : ℕ} {answers : List ReceiveAnswer} {out : Bytes}
      → Delivers (suc n) answers out
      → Delivers (suc n) (ReceiveAnswer.interrupted ∷ answers) out

pub receive_loop-Delivers :
    {n : ℕ} {answers : List ReceiveAnswer} {out : Bytes} (more : List ReceiveAnswer)
    (before : Bytes)
    → Delivers n answers out
    → receive_loop (answers ++ more) n before
      ≡ record { result = ok (before ++ out); answers = more }
unfolding receive_loop
receive_loop-Delivers more before complete = rw append-nil
receive_loop-Delivers more before (piece c s h d) =
    receive_loop-Delivers more (before ++ c ∷ s) d ∙ rw append_assoc
receive_loop-Delivers more before (retry d) = receive_loop-Delivers more before d

pub length-Delivers :
    {n : ℕ} {answers : List ReceiveAnswer} {out : Bytes} → Delivers n answers out → length out ≡ n
length-Delivers complete = refl
length-Delivers (piece c s {out = out} h d) = omega (arith, length-append s out, length-Delivers d)
length-Delivers (retry d) = length-Delivers d

-- Four bytes that begin a frame with a header are its header.
header_of_frame :
    (n : ℕ) (payload h body : Bytes)
    → length h ≡ 4
    → h ++ body ≡ with_header n payload
    → (header_size h
        ≡ decode_frame_size (n / 2 ^ 24 % 256) (n / 2 ^ 16 % 256) (n / 2 ^ 8 % 256) (n % 256))
      × (body ≡ payload)
unfolding with_header header_size
header_of_frame n payload [] body l e = absurd (omega arith)
header_of_frame n payload (a ∷ []) body l e = absurd (omega arith)
header_of_frame n payload (a ∷ b ∷ []) body l e = absurd (omega arith)
header_of_frame n payload (a ∷ b ∷ c ∷ []) body l e = absurd (omega arith)
header_of_frame n payload (a ∷ b ∷ c ∷ d ∷ []) body l e = (cc, cc)
header_of_frame n payload (a ∷ b ∷ c ∷ d ∷ x ∷ h) body l e = absurd (omega arith)

-- A frame that is delivered in pieces is received as its body, and what follows is left alone.
pub recv_framed_json-encode_frame :
    (json frame : Bytes) {h body : Bytes} {heads bodies : List ReceiveAnswer}
    (more : List ReceiveAnswer)
    → encode_frame json ≡ ok frame
    → Delivers 4 heads h
    → Delivers (length body) bodies body
    → h ++ body ≡ frame
    → recv_framed_json (heads ++ (bodies ++ more)) ≡ record { result = ok json; answers = more }
unfolding recv_framed_json receive_rest recv_exact receive_body
recv_framed_json-encode_frame json frame {h} {body} {heads} {bodies} more e dh db whole =
    let (lo, hi) = encode_frame_bounds json frame e in
    let framed : frame ≡ with_header (length json) json = cc (encode_frame_lem json lo hi) in
    let (size, same) =
      header_of_frame (length json) json h body (length-Delivers dh) (whole ∙ framed) in
    rw
      (
        receive_loop-Delivers (bodies ++ more) [] dh,
        size,
        decode_frame_size-bytes (length json) lo hi,
        ← same,
      )
      (receive_loop-Delivers more [] db)

-- What `send_framed_json` sends in pieces, `recv_framed_json` receives in pieces: if the send
-- returns, if the kernel delivers the bytes that were sent, the first four by the calls for the
-- header, and if calls that a signal interrupts are all that comes between, then the receiver has
-- the text that was sent, and later answers are left.
recv_framed_json-send_framed_json :
    (json : Bytes) (sends : List SendAnswer) {h body : Bytes} {heads bodies : List ReceiveAnswer}
    (more : List ReceiveAnswer)
    → (send_framed_json sends json).result ≡ ok tt
    → Delivers 4 heads h
    → Delivers (length body) bodies body
    → h ++ body ≡ (send_framed_json sends json).wire
    → recv_framed_json (heads ++ (bodies ++ more)) ≡ record { result = ok json; answers = more }
recv_framed_json-send_framed_json json sends {h} {body} more sent dh db whole =
    let (frame, encoded, wire) = sent_frame json sends sent in
    recv_framed_json-encode_frame json frame more encoded dh db (whole ∙ wire)

-- An answer that makes progress, or asks for another call.
abbrev pub IsUsable : SendAnswer → Type 0
IsUsable (accepted n) = 0 < n
IsUsable SendAnswer.interrupted = Unit
IsUsable SendAnswer.would_block = ⊥
IsUsable SendAnswer.failed = ⊥

-- How many answers take bytes.
abbrev pub advances : List SendAnswer → ℕ
advances [] = 0
advances (accepted n ∷ answers) = suc (advances answers)
advances (_ ∷ answers) = advances answers

length-drop-le {ℓ} : {A : Type ℓ} (n : ℕ) (xs : List A) → length (drop n xs) ≤ length xs
length-drop-le zero xs = omega arith
length-drop-le (suc n) [] = omega arith
length-drop-le (suc n) (x ∷ xs) = omega (arith, length-drop-le n xs)

send_all-ok :
    (answers : List SendAnswer) (s wire : Bytes)
    → All IsUsable answers
    → length s ≤ advances answers
    → (send_all answers s wire).result ≡ ok tt
unfolding send_all
send_all-ok answers [] wire good h = refl
send_all-ok [] (c ∷ s) wire good h = absurd (omega arith)
send_all-ok (accepted zero ∷ answers) (c ∷ s) wire good h = absurd (omega arith)
send_all-ok (accepted (suc n) ∷ answers) (c ∷ s) wire (_, good) h =
    send_all-ok answers (drop n s) _ good (omega (arith, length-drop-le n s))
send_all-ok (SendAnswer.interrupted ∷ answers) (c ∷ s) wire (_, good) h =
    send_all-ok answers (c ∷ s) wire good h
send_all-ok (SendAnswer.would_block ∷ answers) (c ∷ s) wire (bad, _) h = absurd bad
send_all-ok (SendAnswer.failed ∷ answers) (c ∷ s) wire (bad, _) h = absurd bad

-- Whatever the kernel answers, `send_framed_json` hands it a prefix of the text's frame, and the
-- whole frame if the call returns.
send_framed_json-prefix :
    (json frame : Bytes) (answers : List SendAnswer)
    → encode_frame json ≡ ok frame
    → (rest : Bytes) × ((send_framed_json answers json).wire ++ rest ≡ frame)
      × ((rest ≡ []) ⊎ ((send_framed_json answers json).result ≢ ok tt))
unfolding send_framed_json send_framed
send_framed_json-prefix json frame answers e =
    let (rest, whole, all) = send_all_lem answers frame [] in rw e (rest, whole, settled rest all)
  where
    settled :
        (rest : Bytes) {r : Result (Unit {0})} → (r ≡ ok tt → rest ≡ []) → (rest ≡ []) ⊎ (r ≢ ok tt)
    settled [] all = inl refl
    settled (c ∷ s) all = inr (λ h. cc (all h))

-- If every answer takes some bytes or reports a signal, and as many of them take some as the frame
-- has bytes, `send_framed_json` returns and has sent the whole frame.
send_framed_json-progress :
    (json frame : Bytes) (answers : List SendAnswer)
    → encode_frame json ≡ ok frame
    → All IsUsable answers
    → length frame ≤ advances answers
    → ((send_framed_json answers json).result ≡ ok tt)
      × ((send_framed_json answers json).wire ≡ frame)
unfolding send_framed_json send_framed
send_framed_json-progress json frame answers e usable enough =
    let returned : (send_framed_json answers json).result ≡ ok tt =
      rw e (send_all-ok answers frame [] usable enough) in
    let (framed, encoded, sent) = sent_frame json answers returned in (returned, ground arith)
