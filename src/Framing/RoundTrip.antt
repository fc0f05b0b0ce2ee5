-- ===== src/Framing/RoundTrip.antt =====
-- Writing and reading of the frames of cpp/include/ma2a/framing.hpp.
use ma2a.Base.{
  ℕ, ◌+◌, ◌*◌, ◌/◌, ◌%◌, ◌^◌, ◌≤◌, ◌<◌, ◌≡◌, ◌↔◌, Bytes, length, All, [], ◌∷◌, ok, ap, arith, ltb,
  suc, false, >>=-eq-ok,
}
use ma2a.Framing.{
  max_frame_bytes, with_header, encode_frame, decode_frame_size, decode_complete_frame,
}

abbrev pub IsByte : ℕ → Type 0
IsByte c = c < 256

-- The size of a body is read back from its header.
pub decode_frame_size-bytes :
    (n : ℕ)
    → 0 < n
    → n ≤ max_frame_bytes
    → decode_frame_size (n / 2 ^ 24 % 256) (n / 2 ^ 16 % 256) (n / 2 ^ 8 % 256) (n % 256) ≡ ok n
unfolding decode_frame_size
decode_frame_size-bytes n h k =
    let e : n / 2 ^ 24 % 256 * 2 ^ 24
          + n / 2 ^ 16 % 256 * 2 ^ 16
          + n / 2 ^ 8 % 256 * 2 ^ 8
          + n % 256
        ≡ n =
      omega arith in
    rw e (ground arith)

pub encode_frame_lem :
    (payload : Bytes)
    → 0 < length payload
    → length payload ≤ max_frame_bytes
    → encode_frame payload ≡ ok (with_header (length payload) payload)
unfolding encode_frame
encode_frame_lem [] h k = absurd (omega arith)
encode_frame_lem (c ∷ s) h k =
    let fits : ltb max_frame_bytes (suc (length s)) ≡ false = ground arith in
    let small : suc (length s) % 2 ^ 32 ≡ suc (length s) = omega arith in rw (fits, small)

-- An encoded body is not empty and within the limit.
pub encode_frame_bounds :
    (payload frame : Bytes)
    → encode_frame payload ≡ ok frame
    → (0 < length payload) × (length payload ≤ max_frame_bytes)
unfolding encode_frame
encode_frame_bounds [] frame h = cc
encode_frame_bounds (c ∷ s) frame h = ground arith

decode-with_header :
    (payload : Bytes)
    → 0 < length payload
    → length payload ≤ max_frame_bytes
    → decode_complete_frame (with_header (length payload) payload) ≡ ok payload
unfolding decode_complete_frame with_header
decode-with_header payload h k = rw (decode_frame_size-bytes (length payload) h k) (ground arith)

-- A frame that is written is read back as its body.
pub decode-encode :
    (payload frame : Bytes)
    → encode_frame payload ≡ ok frame
    → decode_complete_frame frame ≡ ok payload
decode-encode payload frame h =
    let (lo, hi) = encode_frame_bounds payload frame h in
    let e : frame ≡ with_header (length payload) payload = cc (encode_frame_lem payload lo hi) in
    rw e (decode-with_header payload lo hi)

-- The header of an accepted size is that of the size.
decode_frame_size_inv :
    (a b c d n : ℕ)
    → decode_frame_size a b c d ≡ ok n
    → (n ≡ a * 2 ^ 24 + b * 2 ^ 16 + c * 2 ^ 8 + d) × (0 < n) × (n ≤ max_frame_bytes)
unfolding decode_frame_size
decode_frame_size_inv a b c d n h = ground arith

with_header_bytes :
    (a b c d n : ℕ) (body : Bytes)
    → IsByte a
    → IsByte b
    → IsByte c
    → IsByte d
    → n ≡ a * 2 ^ 24 + b * 2 ^ 16 + c * 2 ^ 8 + d
    → with_header n body ≡ a ∷ b ∷ c ∷ d ∷ body
unfolding with_header
with_header_bytes a b c d n body ha hb hc hd e = ground arith

-- What is accepted as a frame was written by `encode_frame`.
pub encode-decode :
    (frame payload : Bytes)
    → All IsByte frame
    → decode_complete_frame frame ≡ ok payload
    → encode_frame payload ≡ ok frame
unfolding decode_complete_frame
encode-decode [] payload bytes h = cc
encode-decode (a ∷ []) payload bytes h = cc
encode-decode (a ∷ b ∷ []) payload bytes h = cc
encode-decode (a ∷ b ∷ c ∷ []) payload bytes h = cc
encode-decode (a ∷ b ∷ c ∷ d ∷ body) payload (ha, (hb, (hc, (hd, _)))) h =
    let (n, size, rest) = >>=-eq-ok (decode_frame_size a b c d) _ h in
    let (sum, lo, hi) = decode_frame_size_inv a b c d n size in
    let same : payload ≡ body = ground arith in
    let len : length body ≡ n = ground arith in
    rw (same, encode_frame_lem body (omega arith) (omega arith), len)
      (ap ok (with_header_bytes a b c d n body ha hb hc hd sum))

-- A byte string is accepted as a frame, with the body `payload`, exactly when it is the frame that
-- `encode_frame` writes for `payload`.
pub decode_complete_frame_iff :
    (frame payload : Bytes)
    → All IsByte frame
    → (decode_complete_frame frame ≡ ok payload) ↔ (encode_frame payload ≡ ok frame)
decode_complete_frame_iff frame payload bytes =
    (encode-decode frame payload bytes, decode-encode payload frame)
