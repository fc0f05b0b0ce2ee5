-- ===== src/Engine/Failover.antt =====
-- The failover of `execute` in cpp/include/ma2a/resilient_execution.hpp, from node to node until one
-- answers.
use ma2a.Base.{
  ℕ, zero, suc, ◌+◌, ◌≤◌, ◌<◌, ◌≡◌, refl, ◌∙◌, ap, false, Bytes, length, bytes_eq_iff, is_empty,
  List, [], ◌∷◌, leb, none, some, ok, arith,
}
use ma2a.Contracts.{JobRequest, JobResult, FailureNotice}
use ma2a.Orchestrator.{
  Orchestrator, ok_status, failed, in_flight, contains, insert, exhausted,
  accept_authenticated_failure, accept_authenticated_result,
}
use ma2a.Orchestrator.Attempts.{mark_back_last}
use ma2a.Engine.{ResilientExecutionEngine, accept, retarget, round, pursue, loop, execute}
use ma2a.Engine.Round.{
  failures, begun, after_failures, after_success, IsAcceptable, mark_back_success,
}
use ma2a.Engine.Execute.{exhausted-after_failures, loop-completed}
use ma2a.Engine.Accepted.{begin_attempt_room, new_orchestrator_lem}

-- What is tested of a notice before it fails an attempt.
abbrev pub IsBlame : Bytes → Bytes → FailureNotice → Type 0
IsBlame id node n = (n.request_id ≡ id) × (n.failed_node_id ≡ node) × (is_empty n.signature ≡ false)

accept-IsAcceptable :
    (id : Bytes) (cap : ℕ) (nodes : List Bytes) (target : Bytes) (r : JobResult)
    → IsAcceptable id r
    → accept target (some r) none (begun id cap nodes target)
      ≡ ok (after_success id cap nodes target r)
unfolding accept accept_authenticated_result
accept-IsAcceptable id cap nodes target r (same, good, signed) = ground (
  arith,
  mark_back_success target r.responder_node_id (failures nodes),
  bytes_eq_iff r.request_id id,
  bytes_eq_iff r.status ok_status,
)

accept-IsBlame :
    (id : Bytes) (cap : ℕ) (nodes : List Bytes) (node : Bytes) (n : FailureNotice)
    → contains nodes node ≡ false
    → is_empty node ≡ false
    → IsBlame id node n
    → accept node none (some n) (begun id cap nodes node)
      ≡ ok (after_failures id cap (node ∷ nodes))
unfolding accept accept_authenticated_failure insert
accept-IsBlame id cap nodes node n fresh named (same, blamed, signed) = ground (
  arith,
  mark_back_last node in_flight failed (failures nodes),
  bytes_eq_iff n.request_id id,
  bytes_eq_iff n.failed_node_id node,
)

module _ {W : Type 0} (engine : ResilientExecutionEngine W) (original : JobRequest) where
  -- A node that may be attempted next.
  abbrev pub Next : W → List Bytes → Bytes → W → Type 0
  Next w nodes node w' =
      (engine.route_provider w original nodes ≡ ok (some node, w'))
      × (contains nodes node ≡ false)
      × (is_empty node ≡ false)

  -- After failures at `nodes`, the nodes that the route provider names fail, each with a notice that
  -- blames it, until the failures are those at `failing`; then `target` brings the result `r`.
  pub data Answers (failing : List Bytes) (target : Bytes) (r : JobResult) (end : W)
      : W → List Bytes → Type 0 where
    answers :
        {w : W} {nodes : List Bytes} (w₁ : W)
        → failing ≡ nodes
        → Next w nodes target w₁
        → engine.attempt_executor w₁ (retarget target original) target
          ≡ ok (record { result = some r; failure = none }, end)
        → IsAcceptable original.request_id r
        → Answers failing target r end w nodes
    fails :
        {w : W} {nodes : List Bytes} (node : Bytes) (n : FailureNotice) (w₁ w₂ : W)
        → Next w nodes node w₁
        → engine.attempt_executor w₁ (retarget node original) node
          ≡ ok (record { result = none; failure = some n }, w₂)
        → IsBlame original.request_id node n
        → Answers failing target r end w₂ (node ∷ nodes)
        → Answers failing target r end w nodes

  module _ (failing : List Bytes) (target : Bytes) (r : JobResult) (end : W) where
    length-Answers :
        {w : W} {nodes : List Bytes}
        → Answers failing target r end w nodes
        → length nodes ≤ length failing
    length-Answers (answers w₁ e next ran good) = omega (arith, ap length e)
    length-Answers (fails node n w₁ w₂ next ran blame a) = omega (arith, length-Answers a)

    round-answers :
        (w₁ : W) (nodes : List Bytes)
        → contains nodes target ≡ false
        → is_empty target ≡ false
        → length nodes < engine.max_attempts
        → engine.attempt_executor w₁ (retarget target original) target
          ≡ ok (record { result = some r; failure = none }, end)
        → IsAcceptable original.request_id r
        → round engine original target
            (after_failures original.request_id engine.max_attempts nodes)
            w₁
          ≡ ok (after_success original.request_id engine.max_attempts nodes target r, end)
    unfolding round
    round-answers w₁ nodes fresh named room ran good = rw (
      fresh,
      begin_attempt_room original.request_id engine.max_attempts nodes target fresh named room,
      ran,
      accept-IsAcceptable original.request_id engine.max_attempts nodes target r good,
    )

    round-fails :
        (w₁ w₂ : W) (nodes : List Bytes) (node : Bytes) (n : FailureNotice)
        → contains nodes node ≡ false
        → is_empty node ≡ false
        → length nodes < engine.max_attempts
        → engine.attempt_executor w₁ (retarget node original) node
          ≡ ok (record { result = none; failure = some n }, w₂)
        → IsBlame original.request_id node n
        → round engine original node
            (after_failures original.request_id engine.max_attempts nodes)
            w₁
          ≡ ok (after_failures original.request_id engine.max_attempts (node ∷ nodes), w₂)
    unfolding round
    round-fails w₁ w₂ nodes node n fresh named room ran blame = rw (
      fresh,
      begin_attempt_room original.request_id engine.max_attempts nodes node fresh named room,
      ran,
      accept-IsBlame original.request_id engine.max_attempts nodes node n fresh named blame,
    )

    -- One pass through the loop, with a round that succeeds.
    loop-round :
        (fuel : ℕ) (w w₁ w₂ : W) (nodes : List Bytes) (node : Bytes) (o : Orchestrator)
        → length nodes < engine.max_attempts
        → Next w nodes node w₁
        → round engine original node
            (after_failures original.request_id engine.max_attempts nodes)
            w₁
          ≡ ok (o, w₂)
        → loop engine original
            (suc fuel)
            (after_failures original.request_id engine.max_attempts nodes)
            w
          ≡ loop engine original fuel o w₂
    unfolding loop pursue
    loop-round fuel w w₁ w₂ nodes node o room (named, fresh, some_name) ran =
        let open_test : leb engine.max_attempts (length nodes) ≡ false = ground arith in
        rw (
          exhausted-after_failures original.request_id engine.max_attempts nodes,
          open_test,
          named,
          ran,
        )

    loop-Answers :
        (fuel : ℕ) {w : W} {nodes : List Bytes}
        → Answers failing target r end w nodes
        → length failing < engine.max_attempts
        → length failing + 2 ≤ fuel + length nodes
        → loop engine original fuel (after_failures original.request_id engine.max_attempts nodes) w
          ≡ ok (after_success original.request_id engine.max_attempts failing target r, end)
    loop-Answers zero a room enough = absurd (omega (arith, length-Answers a))
    loop-Answers (suc zero) a room enough = absurd (omega (arith, length-Answers a))
    loop-Answers (suc (suc fuel)) {w} {nodes} (answers w₁ e (routed, fresh, named) ran good) room
          enough =
        let open_room : length nodes < engine.max_attempts = omega (arith, ap length e) in
        loop-round (suc fuel) w w₁ end nodes target _ open_room (routed, fresh, named)
          (round-answers w₁ nodes fresh named open_room ran good)
        ∙ loop-completed engine original fuel _ end refl
        ∙ rw e refl
    loop-Answers (suc (suc fuel)) {w} {nodes}
          (fails node n w₁ w₂ (routed, fresh, named) ran blame a) room enough =
        let open_room : length nodes < engine.max_attempts = omega (arith, length-Answers a) in
        loop-round (suc fuel) w w₁ w₂ nodes node _ open_room (routed, fresh, named)
          (round-fails w₁ w₂ nodes node n fresh named open_room ran blame)
        ∙ loop-Answers (suc fuel) a room (omega arith)

    -- `execute` reaches the answer: if the nodes that the route provider names fail, each with a notice
    -- that blames it, and the next one brings a result that is tested good, then the execution of a
    -- request with an id is completed with that result, provided that the failures are fewer than the
    -- cap of attempts; the nodes that failed are excluded, and every attempt is on record.
    pub execute-Answers :
        (w : W)
        → is_empty original.request_id ≡ false
        → length failing < engine.max_attempts
        → Answers failing target r end w []
        → let o = after_success original.request_id engine.max_attempts failing target r in
          execute engine original w ≡ ok (record { state = o.state; exhausted = exhausted o }, end)
    unfolding execute
    execute-Answers w named room a = rw (
      named,
      new_orchestrator_lem original.request_id engine.max_attempts named (omega arith),
      loop-Answers (suc engine.max_attempts) a room (omega arith),
    )
