-- ===== src/Wire/Total.antt =====
-- The parsers of cpp/include/ma2a/wire_parse.hpp on arbitrary text, valid or not.
use ma2a.Base.{
  ℕ, ◌+◌, ◌<◌, ◌≡◌, ◌≢◌, refl, Bool, true, false, not, Bytes, codes, length, bytes_eq, [], ◌∷◌,
  ◌++◌, Option, none, some, ◌==◌, Result, ok, throw, unfinished, ◌>>◌, throw_if, >>=-ne-unfinished,
  >>=-ne-throw, throw_if-ne-unfinished, ok-ne-unfinished, Bool-cases, inl, inr, invalid_nesting,
  arith, Exception, trailing_job_result, trailing_failure_notice, expected_job_result,
  expected_failure_notice,
}
use ma2a.Json.Reader.{Read, expect, key, done}
use ma2a.Json.Total.{Within-ne-unfinished, expect-Within, string-Within, key-Within, integer-Within}
use ma2a.Wire.Parse.{
  Scan, Round, go_on, payload_end, negative_depth, scan, scan_char, scan_string_char, close_brace,
  strip_prefix, envelope_prefix, split_payload, closing_quote, envelope_type, split_envelope,
  split_behind, wire_envelope_type, before_comma, read_string, string_field, int_field,
  read_job_result, parse_job_result_envelope_json, read_failure_notice,
  parse_failure_notice_envelope_json,
}

-- How the loop goes on after a round.
abbrev resume : ℕ → Bytes → Bytes → Round → Read Bytes
resume ch s taken (go_on st) = scan s st (taken ++ ch ∷ [])
resume ch s taken payload_end = ok (taken ++ ch ∷ [], s)
resume ch s taken negative_depth = throw invalid_nesting

scan_step :
    (ch : ℕ) (s : Bytes) (st : Scan) (taken : Bytes)
    → scan (ch ∷ s) st taken ≡ resume ch s taken (scan_char ch st)
unfolding scan
scan_step ch s st taken = ground arith

scan-ne-unfinished : (s : Bytes) (st : Scan) (taken : Bytes) → scan s st taken ≢ unfinished
scan-ne-unfinished [] st taken = unfold scan in λ h. cc
scan-ne-unfinished (ch ∷ s) st taken =
    rw (scan_step ch s st taken)
      (go (scan_char ch st) (λ st'. scan-ne-unfinished s st' (taken ++ ch ∷ [])))
  where
    go :
        (r : Round)
        → ((st' : Scan) → scan s st' (taken ++ ch ∷ []) ≢ unfinished)
        → resume ch s taken r ≢ unfinished
    go (go_on st') ih = ih st'
    go payload_end ih = λ h. cc
    go negative_depth ih = λ h. cc

-- Between two rounds the loop is inside an object.
scan_char-go_on :
    (ch : ℕ) (st st' : Scan) → 0 < st.depth → scan_char ch st ≡ go_on st' → 0 < st'.depth
unfolding scan_char scan_string_char close_brace
scan_char-go_on ch st st' h e = ground arith

scan_char-ne-negative_depth : (ch : ℕ) (st : Scan) → 0 < st.depth → scan_char ch st ≢ negative_depth
unfolding scan_char close_brace
scan_char-ne-negative_depth ch st h = ground arith

scan-ne-invalid_nesting :
    (s : Bytes) (st : Scan) (taken : Bytes) → 0 < st.depth → scan s st taken ≢ throw invalid_nesting
scan-ne-invalid_nesting [] st taken h = unfold scan in λ h. cc
scan-ne-invalid_nesting (ch ∷ s) st taken h =
    rw (scan_step ch s st taken)
      (go (scan_char ch st) refl (λ st'. scan-ne-invalid_nesting s st' (taken ++ ch ∷ [])))
  where
    go :
        (r : Round)
        → scan_char ch st ≡ r
        → ((st' : Scan) → 0 < st'.depth → scan s st' (taken ++ ch ∷ []) ≢ throw invalid_nesting)
        → resume ch s taken r ≢ throw invalid_nesting
    go (go_on st') e ih = ih st' (scan_char-go_on ch st st' h e)
    go payload_end e ih = λ k. cc
    go negative_depth e ih = absurd (scan_char-ne-negative_depth ch st h e)

scan_char_open :
    (c : ℕ)
    → (c == b'{') ≡ true
    → scan_char c (record { in_string = false; escaped = false; depth = 0 })
      ≡ go_on (record { in_string = false; escaped = false; depth = 0 + 1 })
unfolding scan_char
scan_char_open c h = ground arith

split_payload-ne :
    (s : Bytes) → (split_payload s ≢ unfinished) × (split_payload s ≢ throw invalid_nesting)
unfolding split_payload
split_payload-ne [] = (λ h. cc, λ h. cc)
split_payload-ne (c ∷ s) = elim (Bool-cases (c == b'{')) [
  | inl e ↦ rw e (
    scan-ne-unfinished (c ∷ s) _ [],
    rw (scan_step c s _ [], scan_char_open c e)
        (scan-ne-invalid_nesting s _ (c ∷ []) (omega arith)),
  )
  | inr e ↦ rw e (λ h. cc, λ h. cc)
]

envelope_type-ne :
    (s : Bytes) → (envelope_type s ≢ unfinished) × (envelope_type s ≢ throw invalid_nesting)
unfolding envelope_type closing_quote
envelope_type-ne s = (ground arith, ground arith)

split_envelope-ne :
    (s : Bytes) → (split_envelope s ≢ unfinished) × (split_envelope s ≢ throw invalid_nesting)
unfolding split_envelope
split_envelope-ne s = go (strip_prefix envelope_prefix s)
  where
    go :
        (o : Option Bytes)
        → (split_behind o ≢ unfinished) × (split_behind o ≢ throw invalid_nesting)
    go none = (λ h. cc, λ h. cc)
    go (some t) =
        let (p, q) = split_payload-ne t in
        (
          >>=-ne-unfinished (split_payload t) _ p λ (payload, suffix) _.
              >>=-ne-unfinished (envelope_type suffix) _ (envelope_type-ne suffix).0
                λ type _. ok-ne-unfinished _,
          >>=-ne-throw invalid_nesting (split_payload t) _ q λ (payload, suffix).
              >>=-ne-throw invalid_nesting (envelope_type suffix) _ (envelope_type-ne suffix).1
                λ type h. cc,
        )

-- Of all the errors of an envelope, "invalid envelope nesting" is never raised: the loop has left
-- the payload's object before its depth could fall below zero.
wire_envelope_type-ne-invalid_nesting :
    (json : Bytes) → wire_envelope_type json ≢ throw invalid_nesting
unfolding wire_envelope_type
wire_envelope_type-ne-invalid_nesting json =
    >>=-ne-throw invalid_nesting (split_envelope json) _ (split_envelope-ne json).1
      λ (payload, type) h. cc

read_string-ends : (k s : Bytes) → read_string k s ≢ unfinished
unfolding read_string
read_string-ends k s =
    >>=-ne-unfinished (key k s) _ (Within-ne-unfinished (key-Within k s))
      λ (_, s₁) _. Within-ne-unfinished (string-Within s₁)

expect-ends : (ch : ℕ) (s : Bytes) → expect ch s ≢ unfinished
expect-ends ch s = Within-ne-unfinished (expect-Within ch (length s) s (omega arith))

before_comma-ends {ℓ} : {A : Type ℓ} (m : Read A) → m ≢ unfinished → before_comma m ≢ unfinished
before_comma-ends m h = >>=-ne-unfinished m _ h λ (x, s) _.
    >>=-ne-unfinished (expect b',' s) _ (expect-ends b',' s) λ (_, s') _. ok-ne-unfinished _

string_field-ends : (k s : Bytes) → string_field k s ≢ unfinished
unfolding string_field
string_field-ends k s = before_comma-ends (read_string k s) (read_string-ends k s)

int_field-ends : (k s : Bytes) → int_field k s ≢ unfinished
unfolding int_field
int_field-ends k s = before_comma-ends _ (
    >>=-ne-unfinished (key k s) _ (Within-ne-unfinished (key-Within k s))
      λ (_, s') _. Within-ne-unfinished (integer-Within s'))

-- A check in front of a parser that ends.
checked-ends {ℓ} :
    {A : Type ℓ} (b : Bool) (e : Exception) {m : Result A}
    → m ≢ unfinished
    → (throw_if b e >> m) ≢ unfinished
checked-ends b e h = >>=-ne-unfinished (throw_if b e) _ (throw_if-ne-unfinished b e) λ _ _. h

read_job_result-ends : (payload : Bytes) → read_job_result payload ≢ unfinished
unfolding read_job_result
read_job_result-ends payload = >>=-ne-unfinished _ _ (expect-ends _ _) λ _ _.
    >>=-ne-unfinished _ _ (int_field-ends _ _) λ _ _.
      >>=-ne-unfinished _ _ (string_field-ends _ _) λ _ _.
        >>=-ne-unfinished _ _ (string_field-ends _ _) λ _ _.
          >>=-ne-unfinished _ _ (string_field-ends _ _) λ _ _.
            >>=-ne-unfinished _ _ (string_field-ends _ _) λ _ _.
              >>=-ne-unfinished _ _ (string_field-ends _ _) λ _ _.
                >>=-ne-unfinished _ _ (string_field-ends _ _) λ _ _.
                  >>=-ne-unfinished _ _ (string_field-ends _ _) λ _ _.
                    >>=-ne-unfinished _ _ (string_field-ends _ _) λ _ _.
                      >>=-ne-unfinished _ _ (read_string-ends _ _) λ _ _.
                        >>=-ne-unfinished _ _ (expect-ends _ _)
                          λ (_, s) _. checked-ends (not (done s)) trailing_job_result (λ h. cc)

read_failure_notice-ends : (payload : Bytes) → read_failure_notice payload ≢ unfinished
unfolding read_failure_notice
read_failure_notice-ends payload = >>=-ne-unfinished _ _ (expect-ends _ _) λ _ _.
    >>=-ne-unfinished _ _ (string_field-ends _ _) λ _ _.
      >>=-ne-unfinished _ _ (string_field-ends _ _) λ _ _.
        >>=-ne-unfinished _ _ (int_field-ends _ _) λ _ _.
          >>=-ne-unfinished _ _ (string_field-ends _ _) λ _ _.
            >>=-ne-unfinished _ _ (string_field-ends _ _) λ _ _.
              >>=-ne-unfinished _ _ (string_field-ends _ _) λ _ _.
                >>=-ne-unfinished _ _ (string_field-ends _ _) λ _ _.
                  >>=-ne-unfinished _ _ (string_field-ends _ _) λ _ _.
                    >>=-ne-unfinished _ _ (read_string-ends _ _) λ _ _.
                      >>=-ne-unfinished _ _ (expect-ends _ _)
                        λ (_, s) _. checked-ends (not (done s)) trailing_failure_notice (λ h. cc)

-- The parsers of an envelope come to an end on every text, valid or not.
pub parsers_end :
    (json : Bytes)
    → (wire_envelope_type json ≢ unfinished)
      × (parse_job_result_envelope_json json ≢ unfinished)
      × (parse_failure_notice_envelope_json json ≢ unfinished)
unfolding wire_envelope_type parse_job_result_envelope_json parse_failure_notice_envelope_json
parsers_end json = (
  >>=-ne-unfinished (split_envelope json) _ (split_envelope-ne json).0 λ _ _. ok-ne-unfinished _,
  >>=-ne-unfinished (split_envelope json) _ (split_envelope-ne json).0 λ (payload, type) _.
      checked-ends (not (bytes_eq type (codes "JOB_RESULT"))) expected_job_result
        (read_job_result-ends payload),
  >>=-ne-unfinished (split_envelope json) _ (split_envelope-ne json).0 λ (payload, type) _.
      checked-ends (not (bytes_eq type (codes "FAILURE_NOTICE"))) expected_failure_notice
        (read_failure_notice-ends payload),
)
