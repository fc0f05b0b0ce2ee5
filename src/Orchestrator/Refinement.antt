-- ===== src/Orchestrator/Refinement.antt =====
-- cpp/include/ma2a/execution_orchestrator.hpp against an abstract life cycle: an execution that is
-- open, with so many attempts left and a set of barred nodes, or that is finished with a result. It
-- forgets the attempts, their outcomes, and the order and the representation of the set.
use mathlib.Core.Path.{fun_ext}
use native.Mathlib.Decide.{dec_le}
use ma2a.Base.{
  ℕ, zero, suc, ◌-◌, ◌≡◌, refl, ◌⊎◌, inl, inr, ◌+◌, leb, Bool, true, false, not, ◌||◌, Bytes,
  bytes_eq, is_empty, length, length-append, List, [], ◌∷◌, Option, none, some, Result, ok, throw,
  undefined, unfinished, if◌then◌else◌, already_completed, node_id_required, retry_excluded,
  attempts_exhausted, failure_id_mismatch, failed_node_required, failure_not_authenticated,
  result_id_mismatch, result_not_authenticated, result_not_successful, arith,
}
use ma2a.Contracts.{JobResult, FailureNotice}
use ma2a.Orchestrator.{
  Orchestrator, in_flight, failed, ok_status, contains, insert, new_orchestrator, exhausted,
  begin_attempt, accept_authenticated_failure, accept_authenticated_result,
}
use ma2a.Orchestrator.Attempts.{length-mark_back, contains-insert}
use ma2a.Orchestrator.Invariant.{
  Step, begin, failure, success, HasResult, IsValid, Step-IsValid, new_orchestrator-IsValid,
}

pub data Lifecycle : Type 0 where
  open_with : (left : ℕ) (barred : Bytes → Bool) → Lifecycle
  finished : JobResult → Lifecycle

pub data Call : Type 0 where
  begins : Bytes → Call
  fails : FailureNotice → Call
  succeeds : JobResult → Call

-- An attempt uses up one of those that are left.
abbrev use_up : ℕ → (Bytes → Bool) → Result Lifecycle
use_up zero barred = throw attempts_exhausted
use_up (suc left) barred = ok (open_with left barred)

-- What a call promises, in an execution of the request `id`.
unfoldable pub promise : Bytes → Call → Lifecycle → Result Lifecycle
promise id call (finished r) = throw already_completed
promise id (begins node) (open_with left barred) =
    if is_empty node
    then throw node_id_required
    else if barred node
    then throw retry_excluded
    else use_up left barred
promise id (fails notice) (open_with left barred) =
    if not (bytes_eq notice.request_id id)
    then throw failure_id_mismatch
    else if is_empty notice.failed_node_id
    then throw failed_node_required
    else if is_empty notice.signature
    then throw failure_not_authenticated
    else ok (open_with left (λ node. bytes_eq notice.failed_node_id node || barred node))
promise id (succeeds r) (open_with left barred) =
    if not (bytes_eq r.request_id id)
    then throw result_id_mismatch
    else if is_empty r.signature
    then throw result_not_authenticated
    else if not (bytes_eq r.status ok_status)
    then throw result_not_successful
    else ok (finished r)

-- The same calls, on the orchestrator.
abbrev pub perform : Call → Orchestrator → Result Orchestrator
perform (begins node) = begin_attempt node
perform (fails notice) = accept_authenticated_failure notice
perform (succeeds r) = accept_authenticated_result r

-- What a caller sees of one call, and the state that it leaves: the old one after an exception.
abbrev reply {ℓ} : {S : Type ℓ} → Result S → Result (Unit {0})
reply (ok s) = ok tt
reply (throw e) = throw e
reply undefined = undefined
reply unfinished = unfinished

abbrev settle {ℓ} : {S : Type ℓ} → S → Result S → S
settle s (ok s') = s'
settle s _ = s

-- What a caller sees of a sequence of calls, some of which may throw.
unfoldable pub observe {ℓ} :
    {S : Type ℓ} → (Call → S → Result S) → List Call → S → List (Result (Unit {0}))
observe step [] s = []
observe step (call ∷ calls) s = reply (step call s) ∷ observe step calls (settle s (step call s))

abbrev view_of : Option JobResult → ℕ → (Bytes → Bool) → Lifecycle
view_of none left barred = open_with left barred
view_of (some r) left barred = finished r

abbrev pub view : Orchestrator → Lifecycle
view o =
    view_of o.state.result (o.max_attempts - length o.state.attempts)
      (contains o.state.excluded_nodes)

abbrev view_result : Result Orchestrator → Result Lifecycle
view_result (ok o) = ok (view o)
view_result (throw e) = throw e
view_result undefined = undefined
view_result unfinished = unfinished

-- An execution is open without a result, or completed with one.
phase :
    (id : Bytes) (completed : Bool) (result : Option JobResult)
    → HasResult id completed result
    → ((completed ≡ false) × (result ≡ none))
      ⊎ ((r : JobResult) × (completed ≡ true) × (result ≡ some r))
phase id false none h = inl (refl, refl)
phase id true (some r) h = inr (r, refl, refl)
phase id false (some r) h = absurd h
phase id true none h = absurd h

use_up-exhausted :
    (cap n : ℕ) (barred : Bytes → Bool)
    → use_up (cap - n) barred
      ≡ (if leb cap n then throw attempts_exhausted else ok (open_with (cap - (n + 1)) barred))
use_up-exhausted cap n barred = elim (dec_le cap n) [
  | yes full ↦
      let none_left : cap - n ≡ 0 = omega arith in
      let test : leb cap n ≡ true = ground arith in rw (none_left, test)
  | no room ↦
      let more : cap - n ≡ suc (cap - (n + 1)) = omega arith in
      let test : leb cap n ≡ false = ground arith in rw (more, test)
]

begin_attempt-promise :
    (id : Bytes) (cap : ℕ) (node : Bytes) (o : Orchestrator)
    → IsValid id cap o
    → view_result (begin_attempt node o) ≡ promise id (begins node) (view o)
unfolding begin_attempt promise exhausted
begin_attempt-promise id cap node o v = elim (phase id _ _ v.outcome) [
  | inl (e, n) ↦
      rw (e, n)
        (ground (
          arith,
          use_up-exhausted o.max_attempts (length o.state.attempts)
              (contains o.state.excluded_nodes),
          length-append o.state.attempts (record { node_id = node; outcome = in_flight } ∷ []),
        ))
  | inr (r, e, n) ↦ rw (e, n) refl
]

accept_authenticated_failure-promise :
    (id : Bytes) (cap : ℕ) (notice : FailureNotice) (o : Orchestrator)
    → IsValid id cap o
    → view_result (accept_authenticated_failure notice o) ≡ promise id (fails notice) (view o)
unfolding accept_authenticated_failure promise
accept_authenticated_failure-promise id cap notice o v = elim (phase id _ _ v.outcome) [
  | inl (e, n) ↦
      let barred : ◌≡◌ {A = Bytes → Bool}
          (contains (insert notice.failed_node_id o.state.excluded_nodes))
          (λ node. bytes_eq notice.failed_node_id node || contains o.state.excluded_nodes node) =
        fun_ext (λ node. contains-insert notice.failed_node_id node o.state.excluded_nodes) in
      rw (e, n)
        (ground (arith, length-mark_back notice.failed_node_id failed o.state.attempts, barred))
  | inr (r, e, n) ↦ rw (e, n) refl
]

accept_authenticated_result-promise :
    (id : Bytes) (cap : ℕ) (r : JobResult) (o : Orchestrator)
    → IsValid id cap o
    → view_result (accept_authenticated_result r o) ≡ promise id (succeeds r) (view o)
unfolding accept_authenticated_result promise
accept_authenticated_result-promise id cap r o v = elim (phase id _ _ v.outcome) [
  | inl (e, n) ↦ rw (e, n) (ground arith)
  | inr (r, e, n) ↦ rw (e, n) refl
]

perform-promise :
    (id : Bytes) (cap : ℕ) (call : Call) (o : Orchestrator)
    → IsValid id cap o
    → view_result (perform call o) ≡ promise id call (view o)
perform-promise id cap (begins node) = begin_attempt-promise id cap node
perform-promise id cap (fails notice) = accept_authenticated_failure-promise id cap notice
perform-promise id cap (succeeds r) = accept_authenticated_result-promise id cap r

perform-Step : (call : Call) (o o' : Orchestrator) → perform call o ≡ ok o' → Step o o'
perform-Step (begins node) o o' h = begin node h
perform-Step (fails notice) o o' h = failure notice h
perform-Step (succeeds r) o o' h = success r h

settle-IsValid :
    (id : Bytes) (cap : ℕ) (call : Call) (o : Orchestrator) (m : Result Orchestrator)
    → IsValid id cap o
    → perform call o ≡ m
    → IsValid id cap (settle o m)
settle-IsValid id cap call o (ok o') v h = Step-IsValid id cap v (perform-Step call o o' h)
settle-IsValid id cap call o (throw e) v h = v
settle-IsValid id cap call o undefined v h = v
settle-IsValid id cap call o unfinished v h = v

reply-view : (m : Result Orchestrator) → reply m ≡ reply (view_result m)
reply-view (ok o) = refl
reply-view (throw e) = refl
reply-view undefined = refl
reply-view unfinished = refl

settle-view :
    (o : Orchestrator) (m : Result Orchestrator)
    → view (settle o m) ≡ settle (view o) (view_result m)
settle-view o (ok o') = refl
settle-view o (throw e) = refl
settle-view o undefined = refl
settle-view o unfinished = refl

observe-perform :
    (id : Bytes) (cap : ℕ) (calls : List Call) (o : Orchestrator)
    → IsValid id cap o
    → observe perform calls o ≡ observe (promise id) calls (view o)
unfolding observe
observe-perform id cap [] o v = refl
observe-perform id cap (call ∷ calls) o v =
    let same = perform-promise id cap call o v in
    let after = settle-IsValid id cap call o (perform call o) v refl in
    let rest = observe-perform id cap calls (settle o (perform call o)) after in
    rw (← same, ← settle-view o (perform call o), ← reply-view (perform call o), rest) refl

-- A new orchestrator answers every sequence of calls, in which some may throw and be survived, as
-- the abstract life cycle with `cap` attempts and no barred node does: the same calls return, and
-- the others throw the same error.
pub new_orchestrator-refines :
    (id : Bytes) (cap : ℕ) (o : Orchestrator) (calls : List Call)
    → new_orchestrator id cap ≡ ok o
    → observe perform calls o ≡ observe (promise id) calls (open_with cap (λ node. false))
unfolding new_orchestrator contains
new_orchestrator-refines id cap o calls made =
    let start : view o ≡ open_with cap (λ node. false) = ground arith in
    rw (← start) (observe-perform id cap calls o (new_orchestrator-IsValid id cap o made))
