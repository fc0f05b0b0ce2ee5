-- ===== src/Framing.antt =====
-- cpp/include/ma2a/framing.hpp: a frame is the length of its body in four bytes, high byte first,
-- and the body. A byte is a number below 256.
pub mod RoundTrip
use ma2a.Base.{
  ℕ, ◌+◌, ◌*◌, ◌/◌, ◌%◌, ◌^◌, Bytes, length, [], ◌∷◌, ltb, ◌==◌, if◌then◌else◌, Result, ok, throw,
  ◌>>=◌, ◌>>◌, throw_if, empty_frame, frame_too_large, incomplete_header, frame_size_mismatch,
  is_empty, not,
}

-- `kMaxFrameBytes`
abbrev pub max_frame_bytes : ℕ
max_frame_bytes = 1024 * 1024

-- The four bytes of an `std::uint32_t`, and the body behind them.
unfoldable pub with_header : ℕ → Bytes → Bytes
with_header n payload =
    (n / 2 ^ 24 % 256) ∷ (n / 2 ^ 16 % 256) ∷ (n / 2 ^ 8 % 256) ∷ (n % 256) ∷ payload

unfoldable pub encode_frame : Bytes → Result Bytes
encode_frame payload = do
  throw_if (is_empty payload) empty_frame
  throw_if (ltb max_frame_bytes (length payload)) frame_too_large
  ok (with_header (length payload % 2 ^ 32) payload)

-- The four bytes are shifted to disjoint places, so `|` is `+`.
unfoldable pub decode_frame_size : ℕ → ℕ → ℕ → ℕ → Result ℕ
decode_frame_size a b c d = do
  let n = a * 2 ^ 24 + b * 2 ^ 16 + c * 2 ^ 8 + d
  throw_if (n == 0) empty_frame
  throw_if (ltb max_frame_bytes n) frame_too_large
  ok n

unfoldable pub decode_complete_frame : Bytes → Result Bytes
decode_complete_frame (a ∷ b ∷ c ∷ d ∷ body) = do
  n ← decode_frame_size a b c d
  throw_if (not (length body + 4 == 4 + n)) frame_size_mismatch
  ok body
decode_complete_frame _ = throw incomplete_header
