-- ===== src/Python/Conflict/Divergence.antt =====
-- Two updates that reach nodes in different orders.
use mathlib.Core.List.{Mem, forall_mem-cons, not-mem-nil}
use mathlib.Core.List.Perm
use native.Mathlib.Bridge.{le_prop}
use native.Mathlib.Decide.{ℕ_discrete}
use ma2a.Python.{IsScalar}
use ma2a.Base.{ℕ, inl, inr, All, ◌≡◌, ◌≢◌, sym, ◌∙◌, ap, ◌↔◌, List, [], ◌∷◌, true, arith}
use ma2a.Base.Int.{ℤ}
use ma2a.Python.Order.{ltb_ℤ}
use ma2a.Python.Conflict.{DeltaMeta, reject_stale, resolve, kept, process}
use ma2a.Python.Conflict.Convergence.{IsDescendant, IsText, process-descendant, process-perm}

ℤ-discrete : Discrete ℤ
ℤ-discrete = hlevel ℕ_discrete

resolve_stale :
    (v w u : ℤ) (local d : DeltaMeta)
    → local.new_version ≡ w
    → ltb_ℤ v w ≡ true
    → IsDescendant v u d
    → w ≢ u
    → resolve local d ≡ reject_stale
unfolding resolve
resolve_stale v w u local d at later h ne = ground arith

process_first :
    (v w u : ℤ) (local a b : DeltaMeta)
    → local.new_version ≡ v
    → IsDescendant v w a
    → IsDescendant v u b
    → w ≢ u
    → process local (a ∷ b ∷ []) ≡ a
process_first v w u local a b at ha hb ne =
    process-descendant v w local a (b ∷ []) at ha
    ∙ unfold process kept in rw (resolve_stale v w u a b ha.to ha.later hb ne)

pub both :
    (P : DeltaMeta → Type 0)
    → ((x : DeltaMeta) → IsProp (P x))
    → (a b : DeltaMeta) → P a
    → P b
    → (x : DeltaMeta) → Mem x (a ∷ b ∷ [])
    → P x
both P prop a b ha hb =
    (forall_mem-cons prop).1 (ha, (forall_mem-cons prop).1 (hb, λ x m. absurd (not-mem-nil m)))

pub IsDescendant-prop : (v w : ℤ) (d : DeltaMeta) → IsProp (IsDescendant v w d)
IsDescendant-prop v w d = hlevel

IsScalar-prop : (c : ℕ) → IsProp (IsScalar c)
IsScalar-prop c (inl h) (inl k) = ap inl (le_prop h k)
IsScalar-prop c (inl h) (inr k) = absurd (omega arith)
IsScalar-prop c (inr h) (inl k) = absurd (omega arith)
IsScalar-prop c (inr (h, i)) (inr (k, j)) = cc (le_prop h k, le_prop i j)

All-prop {ℓ κ} :
    {A : Type ℓ} (P : A → Type κ) → ((x : A) → IsProp (P x)) → (xs : List A) → IsProp (All P xs)
All-prop P prop [] = hlevel
All-prop P prop (x ∷ xs) = hlevel (prop x, All-prop P prop xs)

pub IsText-prop : (d : DeltaMeta) → IsProp (IsText d)
IsText-prop d = hlevel (All-prop IsScalar IsScalar-prop)

-- Of two updates that were made from the version of the state, to later versions, that are not
-- marked as a replay, whose scope is allowed and whose names hold no surrogates, a node keeps the
-- same one in whichever order they arrive exactly when the versions that they lead to are equal.
pub process-swap_iff :
    (v w u : ℤ) (local a b : DeltaMeta)
    → local.new_version ≡ v
    → IsDescendant v w a
    → IsDescendant v u b
    → IsText a
    → IsText b
    → (process local (a ∷ b ∷ []) ≡ process local (b ∷ a ∷ [])) ↔ (w ≡ u)
process-swap_iff v w u local a b at ha hb ta tb = (differ, agree)
  where
    differ : process local (a ∷ b ∷ []) ≡ process local (b ∷ a ∷ []) → w ≡ u
    differ e = elim (ℤ-discrete w u) [
      | yes same ↦ same
      | no ne ↦
          let first = process_first v w u local a b at ha hb ne in
          let last = process_first v u w local b a at hb ha (λ k. ne (sym k)) in
          let same : a ≡ b = sym first ∙ e ∙ last in
          sym ha.to ∙ ap (λ (d : DeltaMeta). d.new_version) same ∙ hb.to
    ]

    agree : w ≡ u → process local (a ∷ b ∷ []) ≡ process local (b ∷ a ∷ [])
    agree same =
        process-perm v w local (b ∷ a ∷ []) (a ∷ b ∷ []) at
          (both (IsDescendant v w) (IsDescendant-prop v w) b a (rw same hb) ha)
          (both IsText IsText-prop b a tb ta) (Perm.swap b a [])
