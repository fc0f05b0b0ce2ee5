-- ===== src/Executor/Total.antt =====
-- The exceptions of `execute` in cpp/include/ma2a/resilient_execution.hpp, with the executor of
-- authenticated_tcp_executor.hpp.
use native.Mathlib.Decide.{dec_le}
use ma2a.Base.{
  ℕ, zero, suc, ◌<◌, ◌≡◌, ◌≢◌, refl, sym, ◌∙◌, ap, subst, true, false, Bytes, length, is_empty,
  is_empty_iff, List, [], ◌∷◌, Option, none, some, inl, inr, ok, throw, Exception, >>=-eq-ok,
  >>=-ne-throw, >>=-ne-throw_of, arith,
}
use ma2a.Contracts.{JobRequest, FailureNotice}
use ma2a.Orchestrator.{Orchestrator, contains}
use ma2a.Crypto.{OpenSsl, signature_text}
use ma2a.Crypto.Signing.{IsKeyPair, verify_text-signature_text, sign_failure_notice_inv}
use ma2a.Crypto.Verification.{verify_job_result_iff, verify_failure_notice_signed}
use ma2a.Engine.{AttemptResponse, RouteProvider, accept, retarget, round, pursue, loop, execute}
use ma2a.Engine.Round.{begun, after_failures, Answered, RoundEnds, round-RoundEnds}
use ma2a.Engine.Execute.{loop_full, loop_room, loop-completed}
use ma2a.Engine.Accepted.{
  begin_attempt_room, new_orchestrator_lem, accept_result-ne-throw, accept_failure-ne-throw,
}
use ma2a.Executor.{
  Surroundings, AuthenticatedTcpAttemptExecutor, local_notice, attempt, attempt_executor,
}
use ma2a.Executor.Evidence.{
  Evidence, genuine_result, genuine_failure, own_observation, attempt-Evidence,
}
use ma2a.Executor.Errors.{attempt-ne-throw}
use ma2a.Executor.Completion.{authenticated_engine}

module _ (ssl : OpenSsl) {W : Type 0} (executor : AuthenticatedTcpAttemptExecutor ssl)
    (next : W → Surroundings × W) (route : RouteProvider W) (cap : ℕ) (original : JobRequest) where
  -- What the engine relies on: a key pair that behaves as OpenSSL documents, with which signing
  -- works; an endpoint resolver that throws nothing; and a route provider that throws nothing and
  -- names a node with a name, and none that is excluded.
  pub record IsReliable : Type 0 where
    pub public_key : ssl.Key
    pub pair : IsKeyPair ssl executor.local_private_key public_key
    pub signs :
        (message : Bytes) (e : Exception)
        → signature_text ssl (some executor.local_private_key) message ≢ throw e
    pub resolves : (target : Bytes) (e : Exception) → executor.endpoint_resolver target ≢ throw e
    pub routes :
        (w : W) (excluded : List Bytes) (e : Exception) → route w original excluded ≢ throw e
    pub fresh :
        (w w' : W) (excluded : List Bytes) (target : Bytes)
        → route w original excluded ≡ ok (some target, w')
        → (contains excluded target ≡ false) × (is_empty target ≡ false)

  accept-Evidence-ne-throw :
      IsReliable
      → (around : Surroundings) (nodes : List Bytes) (target : Bytes) {response : AttemptResponse}
        (e : Exception)
      → is_empty target ≡ false
      → Evidence ssl executor around (retarget target original) target response
      → accept target response.result response.failure (begun original.request_id cap nodes target)
        ≢ throw e
  accept-Evidence-ne-throw sound around nodes target e named (genuine_result r g) =
      let (k, same, algorithm, signed, accepted) =
        (verify_job_result_iff ssl r g.key).0 g.verified in
      accept_result-ne-throw original.request_id cap nodes target r e g.same_request g.successful
        ((is_empty_iff r.signature).1 signed)
  accept-Evidence-ne-throw sound around nodes target e named (genuine_failure n g) =
      accept_failure-ne-throw original.request_id cap nodes target n e g.same_request g.of_target
        named ((is_empty_iff n.signature).1 (verify_failure_notice_signed ssl n g.key g.verified))
  accept-Evidence-ne-throw sound around nodes target e named (own_observation n reason h) =
      let start = local_notice ssl (retarget target original) target reason around.clock in
      let (x, made, same) =
        sign_failure_notice_inv ssl (some executor.local_private_key) start n h in
      let (_, some_text) =
        verify_text-signature_text ssl executor.local_private_key sound.public_key _ x sound.pair
          made in
      let signed : is_empty n.signature ≡ false =
        ap (λ (y : FailureNotice). is_empty y.signature) same ∙ (is_empty_iff x).1 some_text in
      accept_failure-ne-throw original.request_id cap nodes target n e
        (ap (λ (y : FailureNotice). y.request_id) same)
        (ap (λ (y : FailureNotice). y.failed_node_id) same) named signed

  attempt_executor-ne-throw :
      IsReliable
      → (w : W) (target : Bytes) (e : Exception) → is_empty target ≡ false
      → attempt_executor ssl executor next w (retarget target original) target ≢ throw e
  unfolding attempt_executor
  attempt_executor-ne-throw sound w target e named =
      >>=-ne-throw e (attempt ssl executor (next w).0 (retarget target original) target) _
        (attempt-ne-throw ssl executor (next w).0 (retarget target original) target sound.signs e
          named refl (sound.resolves target e))
        λ response h. cc

  attempt_executor-Evidence :
      (w w' : W) (target : Bytes) (response : AttemptResponse)
      → attempt_executor ssl executor next w (retarget target original) target ≡ ok (response, w')
      → Evidence ssl executor (next w).0 (retarget target original) target response
  unfolding attempt_executor
  attempt_executor-Evidence w w' target response ran =
      let (response', returned, same) =
        >>=-eq-ok (attempt ssl executor (next w).0 (retarget target original) target) _ ran in
      let e : response' ≡ response = ground arith in
      subst (Evidence ssl executor (next w).0 (retarget target original) target) e (
        attempt-Evidence ssl executor (next w).0 (retarget target original) target response'
          returned)

  round-ne-throw :
      IsReliable
      → (nodes : List Bytes) (target : Bytes) (w : W) (e : Exception)
      → contains nodes target ≡ false
      → is_empty target ≡ false
      → length nodes < cap
      → round
          (authenticated_engine ssl executor next route cap original)
          original
          target
          (after_failures original.request_id cap nodes)
          w
        ≢ throw e
  unfolding round
  round-ne-throw sound nodes target w e fresh named room =
      let engine = authenticated_engine ssl executor next route cap original in
      rw (fresh, begin_attempt_room original.request_id cap nodes target fresh named room)
        (>>=-ne-throw_of e (engine.attempt_executor w (retarget target original) target) _
          (attempt_executor-ne-throw sound w target e named)
          λ (response, w') ran.
            >>=-ne-throw e
              (accept target response.result response.failure
                (begun original.request_id cap nodes target))
              _
              (accept-Evidence-ne-throw sound (next w).0 nodes target e named
                (attempt_executor-Evidence w w' target response ran))
              λ o h. cc)

  after_round-ne-throw :
      (fuel : ℕ) (nodes : List Bytes) (target : Bytes) (p : Orchestrator) (w : W) (e : Exception)
      → let engine = authenticated_engine ssl executor next route cap original in
        RoundEnds (Answered engine original target) original.request_id cap nodes target p
        → loop engine original fuel (after_failures original.request_id cap (target ∷ nodes)) w
          ≢ throw e
        → loop engine original fuel p w ≢ throw e
  after_round-ne-throw fuel nodes target p w e (inl same) ih =
      subst
        (λ x.
          loop (authenticated_engine ssl executor next route cap original) original fuel x w
          ≢ throw e)
        (sym same) ih
  after_round-ne-throw zero nodes target p w e (inr (r, same, _, _)) ih = unfold loop in λ h. cc
  after_round-ne-throw (suc fuel) nodes target p w e (inr (r, same, _, _)) ih =
      let engine = authenticated_engine ssl executor next route cap original in
      let done : p.state.completed ≡ true = cc in
      rw (loop-completed engine original fuel p w done) (λ h. cc)

  pursue-ne-throw :
      IsReliable
      → (fuel : ℕ) (nodes : List Bytes) (answer : Option Bytes) (w₀ w : W) (e : Exception)
      → length nodes < cap
      → route w₀ original nodes ≡ ok (answer, w)
      → let engine = authenticated_engine ssl executor next route cap original in
        ((t : Bytes) (w₂ : W)
          → loop engine original fuel (after_failures original.request_id cap (t ∷ nodes)) w₂
            ≢ throw e)
        → pursue engine original
            (loop engine original fuel)
            (after_failures original.request_id cap nodes)
            (answer, w)
          ≢ throw e
  unfolding pursue
  pursue-ne-throw sound fuel nodes none w₀ w e room asked ih = λ h. cc
  pursue-ne-throw sound fuel nodes (some t) w₀ w e room asked ih =
      let engine = authenticated_engine ssl executor next route cap original in
      let (fresh, named) = sound.fresh w₀ w nodes t asked in
      let o = after_failures original.request_id cap nodes in
      >>=-ne-throw_of e (round engine original t o w) _
        (round-ne-throw sound nodes t w e fresh named room)
        λ (p, w₁) ran.
          let (_, _, ends) =
            round-RoundEnds engine original original.request_id cap nodes t w w₁ p ran in
          after_round-ne-throw fuel nodes t p w₁ e ends (ih t w₁)

  loop-ne-throw :
      IsReliable
      → (fuel : ℕ) (nodes : List Bytes) (w : W) (e : Exception)
      → loop
          (authenticated_engine ssl executor next route cap original)
          original
          fuel
          (after_failures original.request_id cap nodes)
          w
        ≢ throw e
  loop-ne-throw sound zero nodes w e = unfold loop in λ h. cc
  loop-ne-throw sound (suc fuel) nodes w e =
      let engine = authenticated_engine ssl executor next route cap original in
      elim (dec_le cap (length nodes)) [
        | yes full ↦ rw (loop_full engine original original.request_id fuel nodes w full) (λ h. cc)
        | no room ↦ rw (loop_room engine original original.request_id fuel nodes w (omega arith)) (
            >>=-ne-throw_of e (route w original nodes) _ (sound.routes w nodes e)
              λ (answer, w₁) asked.
                pursue-ne-throw sound fuel nodes answer w w₁ e (omega arith) asked
                  λ t w₂. loop-ne-throw sound fuel (t ∷ nodes) w₂ e)
      ]

  -- Under these conditions, an execution of a request with an id, by an engine that allows at least
  -- one attempt, throws nothing, whatever the kernel, the peers and the resolver of public keys do.
  pub execute-ne-throw :
      IsReliable
      → (w : W) (e : Exception) → is_empty original.request_id ≡ false
      → 0 < cap
      → execute (authenticated_engine ssl executor next route cap original) original w ≢ throw e
  unfolding execute
  execute-ne-throw sound w e named allowed =
      let engine = authenticated_engine ssl executor next route cap original in
      rw (named, new_orchestrator_lem original.request_id cap named allowed)
        (>>=-ne-throw e
          (loop engine original (suc cap) (after_failures original.request_id cap []) w) _
          (loop-ne-throw sound (suc cap) [] w e) λ r h. cc)
