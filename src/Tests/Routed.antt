-- ===== src/Tests/Routed.antt =====
-- A life cycle with a refused call, and a routed execution, at concrete inputs.
use ma2a.Base.{
  ◌≡◌, ◌≢◌, refl, false, Bytes, codes, List, [], ◌∷◌, throw, Exception, connection_closed, arith,
}
use ma2a.Orchestrator.Refinement.{
  open_with, Call, begins, fails, succeeds, promise, perform, observe, new_orchestrator-refines,
}
use ma2a.Engine.{execute}
use ma2a.Executor.Completion.{authenticated_engine}
use ma2a.Routing.{resolutive_routing_provider}
use ma2a.Routing.Execution.{execute_routed-ne-throw}
use ma2a.Tests.{request, answer, notice, toy}
use ma2a.Tests.Signatures.{toy-IsKeyPair}
use ma2a.Tests.Lifecycle.{start, starts, first, first_selects}
use ma2a.Tests.Execution.{executor, around, toy_signs}

-- The second attempt at `a` is refused, and the execution goes on.
abbrev calls : List Call
calls =
    begins (codes "a")
    ∷ fails notice
    ∷ begins (codes "a")
    ∷ begins (codes "b")
    ∷ succeeds answer
    ∷ []

new_orchestrator-refines_example :
    observe perform calls start ≡ observe (promise (codes "r1")) calls (open_with 3 (λ node. false))
new_orchestrator-refines_example = new_orchestrator-refines (codes "r1") 3 start calls starts

resolves : (target : Bytes) (e : Exception) → executor.endpoint_resolver target ≢ throw e
resolves target e = λ p. cc

execute_routed-ne-throw_example :
    execute
      (authenticated_engine toy executor
        (λ (w : Unit {0}). (around, w))
        (resolutive_routing_provider first (codes "a" ∷ codes "b" ∷ []))
        3
        request)
      request
      tt
    ≢ throw connection_closed
execute_routed-ne-throw_example =
    execute_routed-ne-throw first toy executor (λ w. (around, w)) (codes "a" ∷ codes "b" ∷ []) 3
      request tt tt connection_closed (λ r. first_selects) (refl, (refl, tt)) toy-IsKeyPair
      toy_signs resolves refl (omega arith)
