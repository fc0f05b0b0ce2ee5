-- ===== src/Orchestrator/Attempts.antt =====
-- The list of attempts and the set of excluded nodes.
use ma2a.Base.{
  suc, ◌≡◌, refl, inl, inr, ap, ◌||◌, Bytes, length, bytes_eq, bytes_eq_iff, bytes_eq_refl, List,
  [], ◌∷◌, ◌++◌, Bool-cases, arith,
}
use ma2a.Orchestrator.{ExecutionAttempt, contains, insert, mark_back}

pub length-mark_back :
    (node outcome : Bytes) (attempts : List ExecutionAttempt)
    → length (mark_back node outcome attempts) ≡ length attempts
unfolding mark_back
length-mark_back node outcome [] = refl
length-mark_back node outcome (a ∷ []) = refl
length-mark_back node outcome (a ∷ b ∷ attempts) =
    ap suc (length-mark_back node outcome (b ∷ attempts))

-- The attempted nodes, in order.
abbrev pub nodes : List ExecutionAttempt → List Bytes
nodes [] = []
nodes (a ∷ attempts) = a.node_id ∷ nodes attempts

pub nodes-mark_back :
    (node outcome : Bytes) (attempts : List ExecutionAttempt)
    → nodes (mark_back node outcome attempts) ≡ nodes attempts
unfolding mark_back
nodes-mark_back node outcome [] = refl
nodes-mark_back node outcome (a ∷ []) = ground arith
nodes-mark_back node outcome (a ∷ b ∷ attempts) =
    ap (λ t. a.node_id ∷ t) (nodes-mark_back node outcome (b ∷ attempts))

pub mark_back_last :
    (node o o' : Bytes) (attempts : List ExecutionAttempt)
    → mark_back node o' (attempts ++ record { node_id = node; outcome = o } ∷ [])
      ≡ attempts ++ record { node_id = node; outcome = o' } ∷ []
unfolding mark_back
mark_back_last node o o' [] = rw (bytes_eq_refl node)
mark_back_last node o o' (a ∷ []) = ap (λ t. a ∷ t) (mark_back_last node o o' [])
mark_back_last node o o' (a ∷ b ∷ attempts) =
    ap (λ t. a ∷ t) (mark_back_last node o o' (b ∷ attempts))

pub contains-insert :
    (a b : Bytes) (nodes : List Bytes)
    → contains (insert a nodes) b ≡ (bytes_eq a b || contains nodes b)
unfolding contains insert
contains-insert a b nodes = elim (Bool-cases (contains nodes a)) [
  | inl old ↦ rw old (ground (arith, bytes_eq_iff a b))
  | inr new ↦ rw new
]
