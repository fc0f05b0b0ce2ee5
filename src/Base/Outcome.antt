-- ===== src/Base/Outcome.antt =====
-- The outcome of a piece of C++: a value, an exception, undefined behaviour (signed overflow), or
-- a run that is cut off because the fuel of a loop or the script of a socket is used up.
use mathlib.Core.Path.{◌≡◌, refl, subst}
use mathlib.Core.Logic.{◌≢◌}
use mathlib.Core.Bool.{Bool, true, false}
use ma2a.Base.Tests.{if◌then◌else◌}

-- One constructor for each message that the modelled code throws.
pub data Exception : Type 0 where
  -- wire_parse.hpp
  invalid_code_point invalid_unicode_escape unexpected_token unexpected_key : Exception
  invalid_control_character truncated_escape missing_low_surrogate : Exception
  invalid_low_surrogate unexpected_low_surrogate unsupported_escape : Exception
  unterminated_string missing_integer invalid_integer truncated_unicode_escape : Exception
  invalid_envelope payload_not_object invalid_nesting unterminated_payload : Exception
  invalid_envelope_type invalid_envelope_suffix expected_job_result : Exception
  trailing_job_result expected_failure_notice trailing_failure_notice : Exception
  -- framing.hpp
  empty_frame frame_too_large incomplete_header frame_size_mismatch : Exception
  -- job.hpp
  missing_request_field unsupported_operation invalid_window outside_window : Exception
  unsupported_algorithm missing_result_field invalid_status negative_completion : Exception
  -- capability.py
  missing_failure_field negative_observation missing_capability_field : Exception
  negative_sequence capability_outside_window negative_capacity : Exception
  load_out_of_range scopes_empty invalid_scope : Exception
  -- execution_orchestrator.hpp, resilient_execution.hpp
  request_id_required max_attempts_not_positive already_completed node_id_required : Exception
  retry_excluded attempts_exhausted failure_id_mismatch failed_node_required : Exception
  failure_not_authenticated result_id_mismatch result_not_authenticated : Exception
  result_not_successful routed_to_excluded both_results no_evidence : Exception
  failure_of_other_node route_provider_required attempt_executor_required : Exception
  -- tcp.hpp
  send_timeout send_failed connection_closed receive_timeout receive_failed : Exception
  -- crypto.hpp, job_auth.hpp, authenticated_tcp_executor.hpp
  digest_context sign_init signature_sizing signing_failed verify_init : Exception
  base64_encode base64_length base64_invalid private_key_required : Exception
  resize_too_long private_key_missing endpoint_resolver_missing : Exception
  public_key_resolver_missing connect_timeout_not_positive io_timeout_not_positive : Exception
  target_required target_mismatch : Exception
  private_key_failed public_key_failed : Exception
  -- tcp.hpp, before the first byte
  socket_failed read_flags_failed nonblocking_failed invalid_address connect_failed : Exception
  connect_timed_out poll_failed connect_status_failed restore_flags_failed : Exception
  socket_timeout_not_positive receive_timeout_not_set send_timeout_not_set : Exception

pub data Result {ℓ} (A : Type ℓ) : Type ℓ where
  ok : A → Result A
  throw : Exception → Result A
  undefined unfinished : Result A

infixl 5 ◌>>=◌ ◌>>◌
abbrev pub ◌>>=◌ {ℓ κ} : {A : Type ℓ} {B : Type κ} → Result A → (A → Result B) → Result B
ok a >>= f = f a
throw e >>= f = throw e
undefined >>= f = undefined
unfinished >>= f = unfinished

abbrev pub ◌>>◌ {ℓ} : {B : Type ℓ} → Result (Unit {0}) → Result B → Result B
m >> k = m >>= λ _. k

-- `if (c) throw e;`
abbrev pub throw_if : Bool → Exception → Result (Unit {0})
throw_if true e = throw e
throw_if false e = ok tt

pub >>=-ne-unfinished {ℓ κ} :
    {A : Type ℓ} {B : Type κ} (m : Result A) (f : A → Result B)
    → m ≢ unfinished
    → ((a : A) → m ≡ ok a → f a ≢ unfinished)
    → (m >>= f) ≢ unfinished
>>=-ne-unfinished (ok a) f h k = k a refl
>>=-ne-unfinished (throw e) f h k = λ p. cc
>>=-ne-unfinished undefined f h k = λ p. cc
>>=-ne-unfinished unfinished f h k = absurd (h refl)

pub if-ne-unfinished {ℓ} :
    {A : Type ℓ} (b : Bool) (x y : Result A)
    → x ≢ unfinished
    → y ≢ unfinished
    → (if b then x else y) ≢ unfinished
if-ne-unfinished true x y h k = h
if-ne-unfinished false x y h k = k

-- Inversion of a successful chain.
pub >>=-eq-ok {ℓ κ} :
    {A : Type ℓ} {B : Type κ} (first : Result A) (rest : A → Result B) {end : B}
    → (first >>= rest) ≡ ok end
    → (x : A) × (first ≡ ok x) × (rest x ≡ ok end)
>>=-eq-ok (ok x) rest h = (x, refl, h)
>>=-eq-ok (throw e) rest h = cc
>>=-eq-ok undefined rest h = cc
>>=-eq-ok unfinished rest h = cc

pub ok-ne-unfinished {ℓ} : {A : Type ℓ} (a : A) → ok a ≢ unfinished
ok-ne-unfinished a h = cc

pub throw_if-ne-unfinished : (b : Bool) (e : Exception) → throw_if b e ≢ unfinished
throw_if-ne-unfinished true e = λ h. cc
throw_if-ne-unfinished false e = λ h. cc

-- `try { … } catch (...) { … }`: undefined behaviour is not caught.
abbrev pub catch_all {ℓ} : {A : Type ℓ} → Result A → Result A → Result A
catch_all (ok a) handler = ok a
catch_all (throw e) handler = handler
catch_all undefined handler = undefined
catch_all unfinished handler = unfinished

-- What holds of a value that is returned.
abbrev pub Yields {ℓ κ} : {A : Type ℓ} → (A → Type κ) → Result A → Type (ℓ ⊔ κ)
Yields P m = (a : _) → m ≡ ok a → P a

module _ {ℓ κ} {A : Type ℓ} (P : A → Type κ) where
  pub Yields-bind {ℓ'} :
      {B : Type ℓ'} (m : Result B) (f : B → Result A)
      → ((b : B) → m ≡ ok b → Yields P (f b))
      → Yields P (m >>= f)
  Yields-bind (ok b) f h = h b refl
  Yields-bind (throw e) f h = λ a p. cc
  Yields-bind undefined f h = λ a p. cc
  Yields-bind unfinished f h = λ a p. cc

  pub Yields-if :
      (b : Bool) {x y : Result A}
      → (b ≡ true → Yields P x)
      → (b ≡ false → Yields P y)
      → Yields P (if b then x else y)
  Yields-if true h k = h refl
  Yields-if false h k = k refl

  pub Yields-catch_all :
      (m handler : Result A) → Yields P m → Yields P handler → Yields P (catch_all m handler)
  Yields-catch_all (ok a) handler h k = h
  Yields-catch_all (throw e) handler h k = k
  Yields-catch_all undefined handler h k = λ a p. cc
  Yields-catch_all unfinished handler h k = λ a p. cc

  pub Yields-ok : (a : A) → P a → Yields P (ok a)
  Yields-ok a h b p = subst P (cc) h

  pub Yields-throw_if :
      (b : Bool) (e : Exception) {m : Result A}
      → (b ≡ false → Yields P m)
      → Yields P (throw_if b e >> m)
  Yields-throw_if true e h = λ a p. cc
  Yields-throw_if false e h = h refl

pub >>=-ne-throw {ℓ κ} :
    {A : Type ℓ} {B : Type κ} (e : Exception) (m : Result A) (f : A → Result B)
    → m ≢ throw e
    → ((a : A) → f a ≢ throw e)
    → (m >>= f) ≢ throw e
>>=-ne-throw e (ok a) f h k = k a
>>=-ne-throw e (throw e') f h k = λ p. h (cc)
>>=-ne-throw e undefined f h k = λ p. cc
>>=-ne-throw e unfinished f h k = λ p. cc

-- The same, where the rest may use what the first part returned.
pub >>=-ne-throw_of {ℓ κ} :
    {A : Type ℓ} {B : Type κ} (e : Exception) (m : Result A) (f : A → Result B)
    → m ≢ throw e
    → ((a : A) → m ≡ ok a → f a ≢ throw e)
    → (m >>= f) ≢ throw e
>>=-ne-throw_of e (ok a) f h k = k a refl
>>=-ne-throw_of e (throw e') f h k = λ p. h (cc)
>>=-ne-throw_of e undefined f h k = λ p. cc
>>=-ne-throw_of e unfinished f h k = λ p. cc
