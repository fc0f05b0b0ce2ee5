-- ===== src/Tests/Lifecycle.antt =====
-- Sequences of calls on an orchestrator, and the routing adapter, at concrete inputs.
use ma2a.Base.{
  ◌≡◌, ◌≢◌, refl, true, false, Bytes, codes, bytes_eq, bytes_eq_iff, List, [], ◌∷◌, Option, none,
  some, ok, arith,
}
use ma2a.Orchestrator.{
  Orchestrator, in_flight, failed, ok_status, contains, insert, mark_back, new_orchestrator,
  exhausted, begin_attempt, accept_authenticated_failure, accept_authenticated_result,
}
use ma2a.Orchestrator.Invariant.{here, next, begin, failure, success, IsValid, Reach-IsValid}
use ma2a.Orchestrator.History.{never_retried}
use ma2a.Engine.Round.{attempted}
use ma2a.Routing.{RoutingLibrary, names, eligible, provide}
use ma2a.Tests.{request, answer, notice}

abbrev pub start : Orchestrator
start = record {
  state = record {
    request_id = codes "r1";
    attempts = [];
    excluded_nodes = [];
    completed = false;
    result = none;
  };
  max_attempts = 3;
}

abbrev at_a : Orchestrator
at_a = record start {
  state = record (start.state) { attempts = attempted (codes "a") in_flight ∷ [] };
}

abbrev without_a : Orchestrator
without_a = record start {
  state = record (start.state) {
    attempts = attempted (codes "a") failed ∷ [];
    excluded_nodes = codes "a" ∷ [];
  };
}

abbrev at_b : Orchestrator
at_b = record without_a {
  state = record (without_a.state) {
    attempts = attempted (codes "a") failed ∷ attempted (codes "b") in_flight ∷ [];
  };
}

abbrev finished : Orchestrator
finished = record at_b {
  state = record (at_b.state) {
    attempts = attempted (codes "a") failed ∷ attempted (codes "b") ok_status ∷ [];
    completed = true;
    result = some answer;
  };
}

pub starts : new_orchestrator (codes "r1") 3 ≡ ok start
unfolding new_orchestrator
starts = refl

begins_a : begin_attempt (codes "a") start ≡ ok at_a
unfolding begin_attempt contains exhausted
begins_a = refl

excludes_a : accept_authenticated_failure notice at_a ≡ ok without_a
unfolding accept_authenticated_failure contains insert mark_back bytes_eq
excludes_a = refl

begins_b : begin_attempt (codes "b") without_a ≡ ok at_b
unfolding begin_attempt contains exhausted bytes_eq
begins_b = refl

finishes : accept_authenticated_result answer at_b ≡ ok finished
unfolding accept_authenticated_result mark_back bytes_eq
finishes = refl

Reach-IsValid_example : IsValid (codes "r1") 3 finished
Reach-IsValid_example = Reach-IsValid (codes "r1") 3 starts (
    next
      (next (next (next here (begin (codes "a") begins_a)) (failure notice excludes_a))
        (begin (codes "b") begins_b))
      (success answer finishes))

never_retried_example : begin_attempt (codes "a") finished ≢ ok start
never_retried_example =
    never_retried notice at_a without_a finished start excludes_a
      (next (next here (begin (codes "b") begins_b)) (success answer finishes))

-- The first of the snapshots that are given is selected.
abbrev first_id : List Bytes → Option Bytes
first_id [] = none
first_id (x ∷ xs) = some x

abbrev pub first : RoutingLibrary
first = record {
  NodeSnapshot = Bytes;
  node_id = λ id. id;
  RequestType = Unit {0};
  echo = tt;
  Scope = Unit {0};
  private_scope = tt;
  Request = Unit {0};
  make_request = λ request type scope source organization. tt;
  route = λ request snapshots. first_id snapshots;
}

pub first_selects :
    (given : List Bytes) (id : Bytes) → first_id given ≡ some id → names first given id ≡ true
unfolding names
first_selects [] id h = cc
first_selects (x ∷ xs) id h = ground (arith, bytes_eq_iff x id)

provides_b : provide first (codes "a" ∷ codes "b" ∷ []) request (codes "a" ∷ []) ≡ some (codes "b")
unfolding provide eligible contains bytes_eq
provides_b = refl
