-- ===== src/Engine/Ends.antt =====
-- The termination of `execute` in cpp/include/ma2a/resilient_execution.hpp.
use native.Mathlib.Decide.{dec_le}
use ma2a.Base.{
  ℕ, zero, suc, ◌+◌, ◌≤◌, ◌<◌, ◌≡◌, ◌≢◌, inl, inr, true, Bytes, length, is_empty, List, [], ◌∷◌,
  Option, none, some, subst, unfinished, >>=-ne-unfinished, throw_if-ne-unfinished,
  ok-ne-unfinished, sym, request_id_required, arith,
}
use ma2a.Contracts.{JobRequest, JobResult, FailureNotice}
use ma2a.Orchestrator.{
  Orchestrator, new_orchestrator, begin_attempt, accept_authenticated_failure,
  accept_authenticated_result,
}
use ma2a.Engine.{ResilientExecutionEngine, accept, retarget, round, pursue, loop, execute}
use ma2a.Engine.Round.{after_failures, Answered, RoundEnds, round-RoundEnds}
use ma2a.Engine.Execute.{loop_full, loop_room, loop-completed, new_orchestrator-after_failures}

begin_attempt-ne-unfinished : (t : Bytes) (o : Orchestrator) → begin_attempt t o ≢ unfinished
unfolding begin_attempt
begin_attempt-ne-unfinished t o = ground arith

new_orchestrator-ne-unfinished : (id : Bytes) (cap : ℕ) → new_orchestrator id cap ≢ unfinished
unfolding new_orchestrator
new_orchestrator-ne-unfinished id cap = ground arith

accept-ne-unfinished :
    (t : Bytes) (r : Option JobResult) (f : Option FailureNotice) (o : Orchestrator)
    → accept t r f o ≢ unfinished
unfolding accept accept_authenticated_result accept_authenticated_failure
accept-ne-unfinished t (some r) (some f) o = ground arith
accept-ne-unfinished t none none o = ground arith
accept-ne-unfinished t (some r) none o = ground arith
accept-ne-unfinished t none (some f) o = ground arith

module _ {W : Type 0} (engine : ResilientExecutionEngine W) (original : JobRequest)
    (routes : (w : W) (j : JobRequest) (excluded : List Bytes)
      → engine.route_provider w j excluded ≢ unfinished)
    (attempts : (w : W) (j : JobRequest) (target : Bytes)
      → engine.attempt_executor w j target ≢ unfinished) where
  round-ne-unfinished :
      (t : Bytes) (o : Orchestrator) (w : W) → round engine original t o w ≢ unfinished
  unfolding round
  round-ne-unfinished t o w = >>=-ne-unfinished _ _ (throw_if-ne-unfinished _ _) λ _ _.
      >>=-ne-unfinished (begin_attempt t o) _ (begin_attempt-ne-unfinished t o) λ b _.
        >>=-ne-unfinished (engine.attempt_executor w (retarget t original) t) _ (attempts w _ t)
          λ (r, w₁) _.
            >>=-ne-unfinished (accept t r.result r.failure b) _
              (accept-ne-unfinished t r.result r.failure b) λ o' _. ok-ne-unfinished (o', w₁)

  after_round-ne-unfinished :
      (fuel : ℕ) (id : Bytes) (nodes : List Bytes) (target : Bytes) (p : Orchestrator) (w : W)
      → 0 < fuel
      → RoundEnds (Answered engine original target) id engine.max_attempts nodes target p
      → (loop engine original fuel (after_failures id engine.max_attempts (target ∷ nodes)) w
          ≢ unfinished)
      → loop engine original fuel p w ≢ unfinished
  after_round-ne-unfinished fuel id nodes target p w b (inl e) ih =
      subst (λ x. loop engine original fuel x w ≢ unfinished) (sym e) ih
  after_round-ne-unfinished zero id nodes target p w b (inr (r, e, _, _)) ih = absurd (omega arith)
  after_round-ne-unfinished (suc fuel) id nodes target p w b (inr (r, e, _, _)) ih =
      let done : p.state.completed ≡ true = cc in
      rw (loop-completed engine original fuel p w done) (ok-ne-unfinished (p, w))

  pursue-ne-unfinished :
      (fuel : ℕ) (id : Bytes) (nodes : List Bytes) (answer : Option Bytes) (w : W)
      → 0 < fuel
      → ((t : Bytes) (w₂ : W)
          → loop engine original fuel (after_failures id engine.max_attempts (t ∷ nodes)) w₂
            ≢ unfinished)
      → pursue engine original
          (loop engine original fuel)
          (after_failures id engine.max_attempts nodes)
          (answer, w)
        ≢ unfinished
  unfolding pursue
  pursue-ne-unfinished fuel id nodes none w b ih = ok-ne-unfinished _
  pursue-ne-unfinished fuel id nodes (some t) w b ih =
      let o = after_failures id engine.max_attempts nodes in
      >>=-ne-unfinished (round engine original t o w) _ (round-ne-unfinished t o w) λ (p, w₁) ran.
        let (_, _, ends) =
          round-RoundEnds engine original id engine.max_attempts nodes t w w₁ p ran in
        after_round-ne-unfinished fuel id nodes t p w₁ b ends (ih t w₁)

  loop-ne-unfinished :
      (fuel : ℕ) (id : Bytes) (nodes : List Bytes) (w : W)
      → length nodes ≤ engine.max_attempts
      → engine.max_attempts < fuel + length nodes
      → loop engine original fuel (after_failures id engine.max_attempts nodes) w ≢ unfinished
  loop-ne-unfinished zero id nodes w b h = absurd (omega arith)
  loop-ne-unfinished (suc fuel) id nodes w b h = elim (dec_le engine.max_attempts (length nodes)) [
    | yes full ↦
        rw (loop_full engine original id fuel nodes w full)
          (ok-ne-unfinished (after_failures id engine.max_attempts nodes, w))
    | no room ↦ rw (loop_room engine original id fuel nodes w (omega arith)) (
        >>=-ne-unfinished (engine.route_provider w original nodes) _ (routes w original nodes)
          λ (answer, w₁) _.
            pursue-ne-unfinished fuel id nodes answer w₁ (omega arith)
              (λ t w₂. loop-ne-unfinished fuel id (t ∷ nodes) w₂ (omega arith) (omega arith)))
  ]

  -- `execute` returns or throws, whatever the cap: the loop never runs out of the fuel that the
  -- model gives it, provided that every call of the route provider and of the attempt executor
  -- comes to an end.
  pub execute-ne-unfinished : (w : W) → execute engine original w ≢ unfinished
  unfolding execute
  execute-ne-unfinished w =
      >>=-ne-unfinished _ _
        (throw_if-ne-unfinished (is_empty original.request_id) request_id_required)
        λ _ _.
          >>=-ne-unfinished (new_orchestrator original.request_id engine.max_attempts) _
            (new_orchestrator-ne-unfinished original.request_id engine.max_attempts)
            λ start made.
              >>=-ne-unfinished (loop engine original (suc engine.max_attempts) start w) _
                (rw
                  (new_orchestrator-after_failures engine original original.request_id
                    engine.max_attempts start made)
                  (loop-ne-unfinished (suc engine.max_attempts) original.request_id [] w
                    (omega arith) (omega arith)))
                λ r _. ok-ne-unfinished _
