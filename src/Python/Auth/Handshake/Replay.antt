-- ===== src/Python/Auth/Handshake/Replay.antt =====
-- One verifier of reference/python/ma2a/auth.py that is asked again and again.
use ma2a.Base.{
  ◌≡◌, ◌≢◌, refl, ◌⊎◌, inl, inr, true, false, ◌||◌, bytes_eq_iff, All, List, [], ◌∷◌, if◌then◌else◌,
  arith,
}
use ma2a.Python.{Text}
use ma2a.Python.Auth.{contains}
use ma2a.Python.Packages.{Cryptography}
use ma2a.Python.Auth.Handshake.{Verdict, Response, verify_device, verify}

-- No text stands twice.
abbrev pub IsDistinct : List Text → Type 0
IsDistinct [] = Unit
IsDistinct (t ∷ ts) = All (λ u. u ≢ t) ts × IsDistinct ts

contains-cons_self : (t : Text) (ts : List Text) → contains (t ∷ ts) t ≡ true
unfolding contains
contains-cons_self t ts = ground (arith, bytes_eq_iff t t)

-- A text that is not listed differs from all that are.
All-contains : (t : Text) (ts : List Text) → contains ts t ≡ false → All (λ u. u ≢ t) ts
unfolding contains
All-contains t [] h = tt
All-contains t (u ∷ us) h =
    (ground (arith, bytes_eq_iff t u), All-contains t us (ground (arith, bytes_eq_iff t u)))

module _ (py : Cryptography) where
  -- What a call does to the state.
  abbrev Effect : List Text → Text → List Text × Verdict → Type 0
  Effect consumed t (consumed', (done, reason)) =
      ((done ≡ false) × (consumed' ≡ consumed))
      ⊎ ((done ≡ true) × (contains consumed t ≡ false) × (consumed' ≡ t ∷ consumed))

  verify-Effect :
      (consumed : List Text) (r : Response py)
      → Effect consumed r.challenge.challenge_id (verify py consumed r)
  unfolding verify verify_device
  verify-Effect consumed r = ground arith

  -- The state after the calls, and the challenges that were accepted.
  unfoldable pub verify_all : List Text → List (Response py) → List Text
  verify_all consumed [] = consumed
  verify_all consumed (r ∷ rs) = verify_all (verify py consumed r).0 rs

  unfoldable pub accepted : List Text → List (Response py) → List Text
  accepted consumed [] = []
  accepted consumed (r ∷ rs) =
      let rest = accepted (verify py consumed r).0 rs in
      if (verify py consumed r).1.0 then r.challenge.challenge_id ∷ rest else rest

  -- A challenge that is consumed is not accepted again.
  accepted-consumed :
      (t : Text) (consumed : List Text) (rs : List (Response py))
      → contains consumed t ≡ true
      → contains (accepted consumed rs) t ≡ false
  unfolding accepted contains
  accepted-consumed t consumed [] h = refl
  accepted-consumed t consumed (r ∷ rs) h = elim (verify-Effect consumed r) [
    | inl (no_one, same) ↦ rw (no_one, same) (accepted-consumed t consumed rs h)
    | inr (done, new, next) ↦
        let i = r.challenge.challenge_id in
        rw (done, next) (ground (arith, bytes_eq_iff t i, accepted-consumed t (i ∷ consumed) rs))
  ]

  accepted-IsDistinct :
      (consumed : List Text) (rs : List (Response py)) → IsDistinct (accepted consumed rs)
  unfolding accepted
  accepted-IsDistinct consumed [] = tt
  accepted-IsDistinct consumed (r ∷ rs) = elim (verify-Effect consumed r) [
    | inl (no_one, same) ↦ rw (no_one, same) (accepted-IsDistinct consumed rs)
    | inr (done, new, next) ↦
        let i = r.challenge.challenge_id in
        rw (done, next)
          (
            All-contains i (accepted (i ∷ consumed) rs)
                (accepted-consumed i (i ∷ consumed) rs (contains-cons_self i consumed)),
            accepted-IsDistinct (i ∷ consumed) rs,
          )
  ]

  contains-verify_all :
      (t : Text) (consumed : List Text) (rs : List (Response py))
      → contains (verify_all consumed rs) t
        ≡ contains (accepted consumed rs) t || contains consumed t
  unfolding verify_all accepted contains
  contains-verify_all t consumed [] = refl
  contains-verify_all t consumed (r ∷ rs) = elim (verify-Effect consumed r) [
    | inl (no_one, same) ↦ rw (no_one, same) (contains-verify_all t consumed rs)
    | inr (done, new, next) ↦
        let i = r.challenge.challenge_id in
        rw (done, next) (ground (arith, contains-verify_all t (i ∷ consumed) rs))
  ]

  -- However often a verifier is asked, it accepts no challenge twice, and none that was consumed
  -- before; and the consumed ones in the end are those that it accepted and those of before.
  pub accepted_once :
      (consumed : List Text) (rs : List (Response py))
      → IsDistinct (accepted consumed rs)
        × ((t : Text) → contains consumed t ≡ true → contains (accepted consumed rs) t ≡ false)
        × ((t : Text)
            → contains (verify_all consumed rs) t
              ≡ contains (accepted consumed rs) t || contains consumed t)
  accepted_once consumed rs = (
    accepted-IsDistinct consumed rs,
    λ t h. accepted-consumed t consumed rs h,
    λ t. contains-verify_all t consumed rs,
  )
