-- ===== src/Crypto/Verification.antt =====
-- `verify_job_result` and `verify_failure_notice` of cpp/include/ma2a/job_auth.hpp and
-- failure_notice.hpp, on arbitrary messages and keys.
use ma2a.Base.{
  ◌%◌, ◌≡◌, ◌≢◌, ◌↔◌, ◌⊎◌, inr, refl, Bool, true, false, not, ◌||◌, Bytes, bytes_eq, bytes_eq_iff,
  length, is_empty, is_empty_iff, [], Option, none, some, ◌==◌, if◌then◌else◌, Result, ok, throw,
  undefined, unfinished, catch_all, ◌>>=◌, ◌>>◌, throw_if, >>=-eq-ok, subst, Exception,
  base64_length, arith,
}
use ma2a.Contracts.{JobResult, FailureNotice, ed25519}
use ma2a.Wire.{canonical_job_result_json, canonical_failure_notice_json}
use ma2a.Crypto.{
  OpenSsl, replace, base64url_decode, unpadded, ed25519_verify, verify_text, verify_job_result,
  verify_failure_notice,
}

-- OpenSSL accepts the bytes that the text stands for as the key's signature of the message.
pub record IsAccepted (ssl : OpenSsl) (key : ssl.Key) (message text : Bytes) : Type 0 where
  pub bytes : Bytes
  pub decoded : base64url_decode ssl text ≡ ok bytes
  pub context : ssl.md_ctx_new ≡ true
  pub usable : ssl.digest_verify_init (some key) ≡ true
  pub accepted : ssl.digest_verify (some key) message bytes ≡ true

ed25519_verify_iff :
    (ssl : OpenSsl) (key : Option ssl.Key) (message s : Bytes)
    → (ed25519_verify ssl key message s ≡ ok true) ↔ (
        (ssl.md_ctx_new ≡ true)
        × (ssl.digest_verify_init key ≡ true)
        × (ssl.digest_verify key message s ≡ true))
unfolding ed25519_verify
ed25519_verify_iff ssl key message s = ground arith

verify_text_iff :
    (ssl : OpenSsl) (key : ssl.Key) (message text : Bytes)
    → (verify_text ssl (some key) message text ≡ ok true) ↔ IsAccepted ssl key message text
unfolding verify_text
verify_text_iff ssl key message text = (sound, complete)
  where
    sound : verify_text ssl (some key) message text ≡ ok true → IsAccepted ssl key message text
    sound h =
        let (s, decoded, checked) = >>=-eq-ok (base64url_decode ssl text) _ h in
        let (context, usable, accepted) = (ed25519_verify_iff ssl (some key) message s).0 checked in
        record {
          bytes = s;
          decoded = decoded;
          context = context;
          usable = usable;
          accepted = accepted;
        }

    complete : IsAccepted ssl key message text → verify_text ssl (some key) message text ≡ ok true
    complete a =
        rw a.decoded
          ((ed25519_verify_iff ssl (some key) message a.bytes).1 (a.context, a.usable, a.accepted))

catch_all-false : (m : Result Bool) → (catch_all m (ok false) ≡ ok true) ↔ (m ≡ ok true)
catch_all-false (ok b) = ground arith
catch_all-false (throw e) = ground arith
catch_all-false undefined = ground arith
catch_all-false unfinished = ground arith

-- The tests in front of the call of OpenSSL.
tested_iff :
    (algorithm signature : Bytes) (m : Result Bool)
    → ((if not (bytes_eq algorithm ed25519) || is_empty signature
          then ok false
          else catch_all m (ok false))
        ≡ ok true)
      ↔ ((algorithm ≡ ed25519) × (signature ≢ []) × (m ≡ ok true))
tested_iff algorithm signature m =
    ground (arith, bytes_eq_iff algorithm ed25519, is_empty_iff signature, catch_all-false m)

-- A value or an exception.
abbrev IsDefined {ℓ} : {A : Type ℓ} → Result A → Type ℓ
IsDefined m = (m ≢ undefined) × (m ≢ unfinished)

IsDefined-bind {ℓ κ} :
    {A : Type ℓ} {B : Type κ} (m : Result A) (f : A → Result B)
    → IsDefined m
    → ((x : A) → IsDefined (f x))
    → IsDefined (m >>= f)
IsDefined-bind (ok x) f h k = k x
IsDefined-bind (throw e) f h k = (λ p. cc, λ p. cc)
IsDefined-bind undefined f h k = absurd (h.0 refl)
IsDefined-bind unfinished f h k = absurd (h.1 refl)

IsDefined-check {ℓ} :
    {A : Type ℓ} (b : Bool) (e : Exception) {m : Result A}
    → IsDefined m
    → IsDefined (throw_if b e >> m)
IsDefined-check true e h = (λ p. cc, λ p. cc)
IsDefined-check false e h = h

tested-Bool :
    (b : Bool) (m : Result Bool)
    → IsDefined m
    → ((if b then ok false else catch_all m (ok false)) ≡ ok true)
      ⊎ ((if b then ok false else catch_all m (ok false)) ≡ ok false)
tested-Bool true m h = inr refl
tested-Bool false (ok b) h = ground arith
tested-Bool false (throw e) h = inr refl
tested-Bool false undefined (h, k) = absurd (h refl)
tested-Bool false unfinished (h, k) = absurd (k refl)

unpadded-IsDefined :
    (ssl : OpenSsl) (input : Bytes) (out : Option Bytes) → IsDefined (unpadded ssl input out)
unfolding unpadded
unpadded-IsDefined ssl input none = (λ p. cc, λ p. cc)
unpadded-IsDefined ssl input (some out) = (ground arith, ground arith)

ed25519_verify-IsDefined :
    (ssl : OpenSsl) (key : Option ssl.Key) (message s : Bytes)
    → IsDefined (ed25519_verify ssl key message s)
unfolding ed25519_verify
ed25519_verify-IsDefined ssl key message s = (ground arith, ground arith)

verify_text-IsDefined :
    (ssl : OpenSsl) (key : Option ssl.Key) (message text : Bytes)
    → IsDefined (verify_text ssl key message text)
unfolding verify_text base64url_decode
verify_text-IsDefined ssl key message text =
    IsDefined-bind (base64url_decode ssl text) _
      (IsDefined-check (not (length (replace (replace text b'-' b'+') b'_' b'/') % 4 == 0))
        base64_length (unpadded-IsDefined ssl _ _))
      λ s. ed25519_verify-IsDefined ssl key message s

-- `verify_job_result` accepts exactly a result of the algorithm Ed25519 with a signature that is
-- not empty and that OpenSSL accepts as the key's signature of the canonical text; without a key it
-- accepts none.
pub verify_job_result_iff :
    (ssl : OpenSsl) (r : JobResult) (key : Option ssl.Key)
    → (verify_job_result ssl r key ≡ ok true) ↔ (
        (k : ssl.Key) × (key ≡ some k)
        × (r.signature_algorithm ≡ ed25519)
        × (r.signature ≢ [])
        × IsAccepted ssl k (canonical_job_result_json r) r.signature)
unfolding verify_job_result
verify_job_result_iff ssl r none = ground arith
verify_job_result_iff ssl r (some k) =
    let (tested, passes) =
      tested_iff r.signature_algorithm r.signature
        (verify_text ssl (some k) (canonical_job_result_json r) r.signature) in
    let (sound, complete) = verify_text_iff ssl k (canonical_job_result_json r) r.signature in
    (
      λ h. let (named, signed, checked) = tested h in (k, refl, named, signed, sound checked),
      λ (k', same, named, signed, accepted). passes (
        named,
        signed,
        complete
            (subst (λ x. IsAccepted ssl x (canonical_job_result_json r) r.signature) (cc) accepted),
      ),
    )

-- `verify_job_result` and `verify_failure_notice` answer yes or no to every message and every key:
-- what OpenSSL refuses, a text that is no base64 included, is a no.
verify_answers :
    (ssl : OpenSsl) (r : JobResult) (n : FailureNotice) (key : Option ssl.Key)
    → ((verify_job_result ssl r key ≡ ok true) ⊎ (verify_job_result ssl r key ≡ ok false))
      × ((verify_failure_notice ssl n key ≡ ok true) ⊎ (verify_failure_notice ssl n key ≡ ok false))
unfolding verify_job_result verify_failure_notice
verify_answers ssl r n key = (
  tested-Bool _ _ (verify_text-IsDefined ssl key (canonical_job_result_json r) r.signature),
  tested-Bool _ _ (verify_text-IsDefined ssl key (canonical_failure_notice_json n) n.signature),
)

-- What `verify_failure_notice` accepts is signed.
pub verify_failure_notice_signed :
    (ssl : OpenSsl) (n : FailureNotice) (key : Option ssl.Key)
    → verify_failure_notice ssl n key ≡ ok true
    → n.signature ≢ []
unfolding verify_failure_notice
verify_failure_notice_signed ssl n key h =
    ((tested_iff n.signature_algorithm n.signature
        (verify_text ssl key (canonical_failure_notice_json n) n.signature)).0
      h).1
