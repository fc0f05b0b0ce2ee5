-- ===== src/Tests/Failover.antt =====
-- The execution that fails over from `a` to `b`, at a concrete input.
use ma2a.Base.{◌≡◌, refl, codes, bytes_eq, [], ◌∷◌, none, some, ok, arith}
use ma2a.Orchestrator.{exhausted, contains}
use ma2a.Engine.{retarget, execute}
use ma2a.Engine.Round.{after_success}
use ma2a.Engine.Failover.{Answers, answers, fails, execute-Answers}
use ma2a.Executor.{attempt_executor}
use ma2a.Tests.{request, answer}
use ma2a.Tests.Execution.{engine, own_notice, run_a, run_b}

attempts_a :
    engine.attempt_executor 0 (retarget (codes "a") request) (codes "a")
    ≡ ok (record { result = none; failure = some own_notice }, 1)
unfolding attempt_executor
attempts_a = rw run_a

attempts_b :
    engine.attempt_executor 1 (retarget (codes "b") request) (codes "b")
    ≡ ok (record { result = some answer; failure = none }, 2)
unfolding attempt_executor
attempts_b = rw run_b

b-Answers : Answers engine request (codes "a" ∷ []) (codes "b") answer 2 0 []
unfolding contains bytes_eq
b-Answers =
    fails (codes "a") own_notice 0 1 (refl, refl, refl) attempts_a (refl, refl, refl)
      (answers 1 refl (refl, refl, refl) attempts_b (refl, refl, refl))

execute-Answers_example :
    let o = after_success (codes "r1") 3 (codes "a" ∷ []) (codes "b") answer in
    execute engine request 0 ≡ ok (record { state = o.state; exhausted = exhausted o }, 2)
execute-Answers_example =
    execute-Answers engine request (codes "a" ∷ []) (codes "b") answer 2 0 refl (omega arith)
      b-Answers
