-- ===== src/Engine/Execute.antt =====
-- The final states of `execute` in cpp/include/ma2a/resilient_execution.hpp.
use native.Mathlib.Decide.{dec_le}
use ma2a.Base.{
  ℕ, zero, suc, ◌≤◌, ◌<◌, ◌≡◌, refl, ◌⊎◌, inl, inr, ap, true, false, Bytes, length, length-append,
  is_empty, List, [], ◌∷◌, leb, Option, none, some, Bool-cases, subst, ok, ◌>>=◌, >>=-eq-ok, arith,
}
use ma2a.Contracts.{JobRequest, JobResult}
use ma2a.Orchestrator.{
  Orchestrator, contains, exhausted, new_orchestrator, begin_attempt, accept_authenticated_failure,
  accept_authenticated_result,
}
use ma2a.Engine.{ResilientExecutionEngine, ResilientExecutionOutcome, round, pursue, loop, execute}
use ma2a.Engine.Round.{
  attempted, failures, Distinct, after_failures, after_success, IsAcceptable, Answered, RoundEnds,
  round-RoundEnds,
}

length-failures : (nodes : List Bytes) → length (failures nodes) ≡ length nodes
length-failures [] = refl
length-failures (node ∷ nodes) = omega (
  arith,
  length-append (failures nodes) (attempted node (ma2a.Orchestrator.failed) ∷ []),
  length-failures nodes,
)

pub exhausted-after_failures :
    (id : Bytes) (cap : ℕ) (nodes : List Bytes)
    → exhausted (after_failures id cap nodes) ≡ leb cap (length nodes)
unfolding exhausted
exhausted-after_failures id cap nodes = ap (leb cap) (length-failures nodes)

module _ {W : Type 0} (engine : ResilientExecutionEngine W) (original : JobRequest) where
  -- Why an execution without a result ended: no attempt is left, or the route provider named no
  -- node when it was told the nodes that failed.
  abbrev pub Stopped : List Bytes → Type 0
  Stopped nodes =
      (engine.max_attempts ≤ length nodes)
      ⊎ ((w w' : W) × (engine.route_provider w original nodes ≡ ok (none, w')))

  -- The state at the end, after failures at `nodes`, the latest first.
  pub data Ended (id : Bytes) : Orchestrator → Type 0 where
    without_result :
        (nodes : List Bytes)
        → Distinct nodes
        → length nodes ≤ engine.max_attempts
        → Stopped nodes
        → Ended id (after_failures id engine.max_attempts nodes)
    with_result :
        (nodes : List Bytes) (target : Bytes) (r : JobResult)
        → Distinct (target ∷ nodes)
        → length nodes < engine.max_attempts
        → IsAcceptable id r
        → Answered engine original target r
        → Ended id (after_success id engine.max_attempts nodes target r)

  pub loop-completed :
      (fuel : ℕ) (o : Orchestrator) (w : W)
      → o.state.completed ≡ true
      → loop engine original (suc fuel) o w ≡ ok (o, w)
  unfolding loop
  loop-completed fuel o w h = rw h

  pub loop_full :
      (id : Bytes) (fuel : ℕ) (nodes : List Bytes) (w : W)
      → engine.max_attempts ≤ length nodes
      → loop engine original (suc fuel) (after_failures id engine.max_attempts nodes) w
        ≡ ok (after_failures id engine.max_attempts nodes, w)
  unfolding loop
  loop_full id fuel nodes w h =
      let full : leb engine.max_attempts (length nodes) ≡ true = ground arith in
      rw (exhausted-after_failures id engine.max_attempts nodes, full)

  pub loop_room :
      (id : Bytes) (fuel : ℕ) (nodes : List Bytes) (w : W)
      → length nodes < engine.max_attempts
      → loop engine original (suc fuel) (after_failures id engine.max_attempts nodes) w ≡ (
          engine.route_provider w original nodes
          >>= pursue engine original
              (loop engine original fuel)
              (after_failures id engine.max_attempts nodes))
  unfolding loop
  loop_room id fuel nodes w h =
      let room : leb engine.max_attempts (length nodes) ≡ false = ground arith in
      rw (exhausted-after_failures id engine.max_attempts nodes, room)

  after_round :
      (id : Bytes) (fuel : ℕ) (nodes : List Bytes) (target : Bytes) (w w' : W) (p o : Orchestrator)
      → Distinct (target ∷ nodes)
      → length nodes < engine.max_attempts
      → RoundEnds (Answered engine original target) id engine.max_attempts nodes target p
      → ((w₂ : W)
          → loop engine original fuel (after_failures id engine.max_attempts (target ∷ nodes)) w₂
            ≡ ok (o, w')
          → Ended id o)
      → loop engine original fuel p w ≡ ok (o, w')
      → Ended id o
  after_round id fuel nodes target w w' p o d b (inl e) ih h =
      ih w (subst (λ x. loop engine original fuel x w ≡ ok (o, w')) e h)
  after_round id zero nodes target w w' p o d b (inr (r, e, good, came)) ih h = unfold loop in cc
  after_round id (suc fuel) nodes target w w' p o d b (inr (r, e, good, came)) ih h =
      let done : loop engine original (suc fuel)
            (after_success id engine.max_attempts nodes target r) w
          ≡ ok (after_success id engine.max_attempts nodes target r, w) =
        loop-completed fuel _ w refl in
      let same : after_success id engine.max_attempts nodes target r ≡ o =
        cc (done, subst (λ x. loop engine original (suc fuel) x w ≡ ok (o, w')) e h) in
      subst (Ended id) same (with_result nodes target r d b good came)

  pursue-Ended :
      (id : Bytes) (fuel : ℕ) (nodes : List Bytes) (answer : Option Bytes) (w₀ w w' : W)
      (o : Orchestrator)
      → Distinct nodes
      → length nodes < engine.max_attempts
      → engine.route_provider w₀ original nodes ≡ ok (answer, w)
      → ((target : Bytes) (w₂ : W)
          → Distinct (target ∷ nodes)
          → loop engine original fuel (after_failures id engine.max_attempts (target ∷ nodes)) w₂
            ≡ ok (o, w')
          → Ended id o)
      → pursue engine original
          (loop engine original fuel)
          (after_failures id engine.max_attempts nodes)
          (answer, w)
        ≡ ok (o, w')
      → Ended id o
  unfolding pursue
  pursue-Ended id fuel nodes none w₀ w w' o d b asked ih h =
      let same : after_failures id engine.max_attempts nodes ≡ o = cc in
      subst (Ended id) same (without_result nodes d (omega arith) (inr (w₀, w, asked)))
  pursue-Ended id fuel nodes (some target) w₀ w w' o d b asked ih h =
      let ((p, w₁), ran, h₁) =
        >>=-eq-ok (round engine original target (after_failures id engine.max_attempts nodes) w) _
          h in
      let (fresh, named, ends) =
        round-RoundEnds engine original id engine.max_attempts nodes target w w₁ p ran in
      after_round id fuel nodes target w₁ w' p o (fresh, named, d) b ends
        (λ w₂. ih target w₂ (fresh, named, d)) h₁

  loop-Ended :
      (id : Bytes) (fuel : ℕ) (nodes : List Bytes) (w w' : W) (o : Orchestrator)
      → Distinct nodes
      → length nodes ≤ engine.max_attempts
      → loop engine original fuel (after_failures id engine.max_attempts nodes) w ≡ ok (o, w')
      → Ended id o
  loop-Ended id zero nodes w w' o d b h = unfold loop in cc
  loop-Ended id (suc fuel) nodes w w' o d b h = elim (dec_le engine.max_attempts (length nodes)) [
    | yes full ↦
        let same : after_failures id engine.max_attempts nodes ≡ o =
          cc (loop_full id fuel nodes w full) in
        subst (Ended id) same (without_result nodes d b (inl full))
    | no room ↦
        let h' = rw (loop_room id fuel nodes w (omega arith)) at h in
        let ((answer, w₁), asked, h₁) = >>=-eq-ok (engine.route_provider w original nodes) _ h' in
        pursue-Ended id fuel nodes answer w w₁ w' o d (omega arith) asked
          (λ target w₂ d'. loop-Ended id fuel (target ∷ nodes) w₂ w' o d' (omega arith)) h₁
  ]

  pub new_orchestrator-after_failures :
      (id : Bytes) (cap : ℕ) (o : Orchestrator)
      → new_orchestrator id cap ≡ ok o
      → o ≡ after_failures id cap []
  unfolding new_orchestrator
  new_orchestrator-after_failures id cap o h = ground arith

  -- Every execution that returns ends in one of two ways. Without a result: all attempts failed, at
  -- distinct nodes, which are the excluded ones, at most as many as allowed, and either that many
  -- were made or the route provider named no further node. With a result: it carries the request's
  -- id, the status `OK` and a signature, and the attempt executor answered with it in the last
  -- attempt, at a node that is none of those whose attempts failed before. `exhausted` tells whether the cap is reached.
  pub execute-Ended :
      (w w' : W) (outcome : ResilientExecutionOutcome)
      → execute engine original w ≡ ok (outcome, w')
      → (o : Orchestrator) × Ended original.request_id o
        × (outcome ≡ record { state = o.state; exhausted = exhausted o })
  unfolding execute
  execute-Ended w w' outcome h = elim (Bool-cases (is_empty original.request_id)) [
    | inl anonymous ↦ absurd (ground (arith, rw anonymous at h))
    | inr named ↦
        let (start, made, h₁) =
          >>=-eq-ok (new_orchestrator original.request_id engine.max_attempts) _ (rw named at h) in
        let e =
          new_orchestrator-after_failures original.request_id engine.max_attempts start made in
        let ((o, w₁), ran, h₂) =
          >>=-eq-ok (loop engine original (suc engine.max_attempts) start w) _ h₁ in
        let ended =
          loop-Ended original.request_id (suc engine.max_attempts) [] w w₁ o tt (omega arith)
            (subst (λ x. loop engine original (suc engine.max_attempts) x w ≡ ok (o, w₁)) e ran) in
        (o, ended, ground arith)
  ]
