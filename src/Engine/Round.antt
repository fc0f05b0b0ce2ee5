-- ===== src/Engine/Round.antt =====
-- The states between the rounds of `execute` in cpp/include/ma2a/resilient_execution.hpp.
use ma2a.Base.{
  ℕ, ◌≡◌, refl, ◌⊎◌, inl, inr, ap, true, false, Bytes, bytes_eq, bytes_eq_iff, is_empty, List, [],
  ◌∷◌, ◌++◌, Option, none, some, if◌then◌else◌, Bool-cases, subst, ok, >>=-eq-ok, arith,
}
use ma2a.Contracts.{JobRequest, JobResult, FailureNotice}
use ma2a.Orchestrator.{
  ExecutionAttempt, Orchestrator, in_flight, failed, ok_status, contains, insert, mark_back,
  begin_attempt, accept_authenticated_failure, accept_authenticated_result,
}
use ma2a.Orchestrator.Attempts.{mark_back_last}
use ma2a.Engine.{AttemptResponse, ResilientExecutionEngine, accept, retarget, round}

abbrev pub attempted : Bytes → Bytes → ExecutionAttempt
attempted node outcome = record { node_id = node; outcome = outcome }

-- The attempts of an execution whose attempts at these nodes, the latest first, all failed.
abbrev pub failures : List Bytes → List ExecutionAttempt
failures [] = []
failures (node ∷ nodes) = failures nodes ++ attempted node failed ∷ []

-- No node twice, and none without a name.
abbrev pub Distinct : List Bytes → Type 0
Distinct [] = Unit
Distinct (node ∷ nodes) = (contains nodes node ≡ false) × (is_empty node ≡ false) × Distinct nodes

-- The state after failures at these nodes.
abbrev pub after_failures : Bytes → ℕ → List Bytes → Orchestrator
after_failures id cap nodes = record {
  state = record {
    request_id = id;
    attempts = failures nodes;
    excluded_nodes = nodes;
    completed = false;
    result = none;
  };
  max_attempts = cap;
}

-- The state after failures at these nodes, and a result that the attempt at `target` brought. The
-- attempt is marked only if the responder is its node.
abbrev pub after_success : Bytes → ℕ → List Bytes → Bytes → JobResult → Orchestrator
after_success id cap nodes target r = record {
  state = record {
    request_id = id;
    attempts =
        failures nodes
        ++ attempted target (if bytes_eq target r.responder_node_id then ok_status else in_flight)
          ∷ [];
    excluded_nodes = nodes;
    completed = true;
    result = some r;
  };
  max_attempts = cap;
}

-- What is tested of a result before it completes the execution.
abbrev pub IsAcceptable : Bytes → JobResult → Type 0
IsAcceptable id r = (r.request_id ≡ id) × (r.status ≡ ok_status) × (is_empty r.signature ≡ false)

abbrev pub begun : Bytes → ℕ → List Bytes → Bytes → Orchestrator
begun id cap nodes target = record {
  state = record {
    request_id = id;
    attempts = failures nodes ++ attempted target in_flight ∷ [];
    excluded_nodes = nodes;
    completed = false;
    result = none;
  };
  max_attempts = cap;
}

-- What a round leaves behind, with a result that `Came`.
abbrev pub RoundEnds : (JobResult → Type 0) → Bytes → ℕ → List Bytes → Bytes → Orchestrator → Type 0
RoundEnds Came id cap nodes target o =
    (o ≡ after_failures id cap (target ∷ nodes))
    ⊎ ((r : JobResult) × (o ≡ after_success id cap nodes target r) × IsAcceptable id r × Came r)

begin_attempt-after_failures :
    (id : Bytes) (cap : ℕ) (nodes : List Bytes) (target : Bytes) (o : Orchestrator)
    → begin_attempt target (after_failures id cap nodes) ≡ ok o
    → (is_empty target ≡ false) × (o ≡ begun id cap nodes target)
unfolding begin_attempt
begin_attempt-after_failures id cap nodes target o h = ground arith

pub mark_back_success :
    (target responder : Bytes) (xs : List ExecutionAttempt)
    → mark_back responder ok_status (xs ++ attempted target in_flight ∷ [])
      ≡ xs ++ attempted target (if bytes_eq target responder then ok_status else in_flight) ∷ []
unfolding mark_back
mark_back_success target responder [] = ground arith
mark_back_success target responder (a ∷ []) =
    ap (λ t. a ∷ t) (mark_back_success target responder [])
mark_back_success target responder (a ∷ b ∷ xs) =
    ap (λ t. a ∷ t) (mark_back_success target responder (b ∷ xs))

accept_result :
    (id : Bytes) (cap : ℕ) (nodes : List Bytes) (target : Bytes) (r : JobResult) (o : Orchestrator)
    → accept_authenticated_result r (begun id cap nodes target) ≡ ok o
    → (o ≡ after_success id cap nodes target r) × IsAcceptable id r
unfolding accept_authenticated_result
accept_result id cap nodes target r o h = ground (
  arith,
  mark_back_success target r.responder_node_id (failures nodes),
  bytes_eq_iff r.request_id id,
  bytes_eq_iff r.status ok_status,
)

accept_failure :
    (id : Bytes) (cap : ℕ) (nodes : List Bytes) (target : Bytes) (notice : FailureNotice)
    (o : Orchestrator)
    → contains nodes target ≡ false
    → notice.failed_node_id ≡ target
    → accept_authenticated_failure notice (begun id cap nodes target) ≡ ok o
    → o ≡ after_failures id cap (target ∷ nodes)
unfolding accept_authenticated_failure insert
accept_failure id cap nodes target notice o fresh e h =
    ground (arith, mark_back_last target in_flight failed (failures nodes))

accept_failure_inv :
    (target : Bytes) (notice : FailureNotice) (o o' : Orchestrator)
    → accept target none (some notice) o ≡ ok o'
    → (notice.failed_node_id ≡ target) × (accept_authenticated_failure notice o ≡ ok o')
unfolding accept
accept_failure_inv target notice o o' h = ground (arith, bytes_eq_iff notice.failed_node_id target)

accept-RoundEnds :
    (id : Bytes) (cap : ℕ) (nodes : List Bytes) (target : Bytes) (r : Option JobResult)
    (f : Option FailureNotice) (o : Orchestrator)
    → contains nodes target ≡ false
    → accept target r f (begun id cap nodes target) ≡ ok o
    → RoundEnds (λ x. r ≡ some x) id cap nodes target o
unfolding accept
accept-RoundEnds id cap nodes target (some r) (some n) o fresh h = cc
accept-RoundEnds id cap nodes target none none o fresh h = cc
accept-RoundEnds id cap nodes target (some r) none o fresh h =
    let (e, good) = accept_result id cap nodes target r o h in inr (r, e, good, refl)
accept-RoundEnds id cap nodes target none (some n) o fresh h =
    let (same, h') = accept_failure_inv target n (begun id cap nodes target) o h in
    inl (accept_failure id cap nodes target n o fresh same h')

module _ {W : Type 0} (engine : ResilientExecutionEngine W) (original : JobRequest) where
  -- The attempt executor answered a request to `target` with the result `r`.
  abbrev pub Answered : Bytes → JobResult → Type 0
  Answered target r =
      (w w' : W) × (response : AttemptResponse) × (engine.attempt_executor w
          (retarget target original) target
        ≡ ok (response, w'))
      × (response.result ≡ some r)

  -- A round that returns has attempted a node with a name that is not excluded.
  pub round-RoundEnds :
      (id : Bytes) (cap : ℕ) (nodes : List Bytes) (target : Bytes) (w w' : W) (o : Orchestrator)
      → round engine original target (after_failures id cap nodes) w ≡ ok (o, w')
      → (contains nodes target ≡ false)
        × (is_empty target ≡ false)
        × RoundEnds (Answered target) id cap nodes target o
  unfolding round
  round-RoundEnds id cap nodes target w w' o h = elim (Bool-cases (contains nodes target)) [
    | inl old ↦ absurd (ground (arith, rw old at h))
    | inr fresh ↦
        let (b, hb, h₁) =
          >>=-eq-ok (begin_attempt target (after_failures id cap nodes)) _ (rw fresh at h) in
        let (named, eb) = begin_attempt-after_failures id cap nodes target b hb in
        let ((response, w₁), ran, h₂) =
          >>=-eq-ok (engine.attempt_executor w (retarget target original) target) _ h₁ in
        let (o', ho, h₃) = >>=-eq-ok (accept target response.result response.failure b) _ h₂ in
        let same : o' ≡ o = ground arith in
        let ends =
          accept-RoundEnds id cap nodes target response.result response.failure o' fresh
            (subst (λ x. accept target response.result response.failure x ≡ ok o') eb ho) in
        (
          fresh,
          named,
          came response w₁ ran
              (subst (RoundEnds (λ x. response.result ≡ some x) id cap nodes target) same ends),
        )
  ]
    where
      came :
          (response : AttemptResponse) (w₁ : W)
          → engine.attempt_executor w (retarget target original) target ≡ ok (response, w₁)
          → RoundEnds (λ x. response.result ≡ some x) id cap nodes target o
          → RoundEnds (Answered target) id cap nodes target o
      came response w₁ ran (inl e) = inl e
      came response w₁ ran (inr (r, e, good, brought)) =
          inr (r, e, good, (w, w₁, response, ran, brought))
