-- ===== src/Python/Routes/Again.antt =====
-- A condition that `ResolutiveRouteMemory` of reference/python/ma2a/rm_bridge.py resolves again.
use ma2a.Base.{
  ◌+◌, ◌≡◌, refl, ◌∙◌, subst, inl, inr, Bool, true, Bool-cases, Option-cases, Option, none, some,
  bytes_eq_refl,
}
use ma2a.Python.{Text}
use ma2a.Python.Values.{JsonValue}
use ma2a.Python.Routes.{
  Platform, RouteMemory, get_item, condition_key, derive_address, is_rejected, Answer, recall,
  new_route, register, resolve_external, resolve,
}
use ma2a.Python.Routes.Recall.{get_item-set_item, Call, perform, recall_known, resolve_known}

module _ (platform : Platform) where
  -- After a call that returned a result and an address.
  Kept : RouteMemory × Answer platform → Text → Type 0
  Kept (m, none) key = Unit
  Kept (m, some (result, hit, address)) key =
      (c : Call platform)
      → condition_key platform c.condition ≡ key
      → perform platform m c ≡ (m, some (result, true, address))

  register-Kept : (m : RouteMemory) (key result : Text) → Kept (register platform m key result) key
  unfolding Kept register
  register-Kept m key result c same =
      let a = derive_address platform key result in
      let r = new_route platform key result in
      let m' = (register platform m key result).0 in
      let known : get_item m'.by_condition key ≡ some a =
        get_item-set_item m.by_condition key key a ∙ rw (bytes_eq_refl key) refl in
      let found : get_item m'.by_address a ≡ some r =
        get_item-set_item m.by_address a a r ∙ rw (bytes_eq_refl a) refl in
      resolve_known platform m' c a (rw same known) ∙ recall_known platform m' a r found

  recall-Kept :
      (m : RouteMemory) (key a : Text)
      → get_item m.by_condition key ≡ some a
      → Kept (recall platform m a) key
  unfolding Kept recall
  recall-Kept m key a known = elim (Option-cases (get_item m.by_address a)) [
    | inl lost ↦ rw (lost, recall) tt
    | inr (r, found) ↦
        rw (recall_known platform m a r found)
          λ c same. resolve_known platform m c a (rw same known) ∙ recall_known platform m a r found
  ]

  resolve_external-Kept :
      (m : RouteMemory) (condition : Text) (f : Text → Option Text) (v : Option (Text → Bool))
      → Kept (resolve_external platform m condition f v) (condition_key platform condition)
  unfolding Kept resolve_external
  resolve_external-Kept m condition f v = elim (Option-cases (f condition)) [
    | inl raised ↦ rw (raised, resolve_external) tt
    | inr (result, found) ↦ elim (Bool-cases (is_rejected platform v result)) [
      | inl bad ↦ rw (found, bad, resolve_external) tt
      | inr good ↦
          rw (found, good, resolve_external)
            (register-Kept
              (record m { external_resolution_calls = m.external_resolution_calls + 1 })
              (condition_key platform condition) result)
    ]
  ]

  resolve-Kept :
      (m : RouteMemory) (c : Call platform)
      → Kept (perform platform m c) (condition_key platform c.condition)
  unfolding Kept resolve
  resolve-Kept m c =
      elim (Option-cases (get_item m.by_condition (condition_key platform c.condition))) [
        | inr (a, known) ↦
            rw (known, resolve) (recall-Kept m (condition_key platform c.condition) a known)
        | inl unknown ↦ elim (Option-cases c.external_resolver) [
          | inl missing ↦ rw (unknown, missing, resolve) tt
          | inr (f, given) ↦
              rw (unknown, given, resolve) (resolve_external-Kept m c.condition f c.validator)
        ]
      ]

  -- A condition that a call resolved, locally or by its external resolver, is answered by the next
  -- call for a condition of the same key with the same result and address, locally, whatever
  -- resolver and validator that call is given, and it leaves the memory as it is.
  pub resolve_again :
      (m : RouteMemory) (c next : Call platform) (result : JsonValue) (address : Text) (hit : Bool)
      → (perform platform m c).1 ≡ some (result, hit, address)
      → condition_key platform next.condition ≡ condition_key platform c.condition
      → let m' = (perform platform m c).0 in
        perform platform m' next ≡ (m', some (result, true, address))
  unfolding Kept
  resolve_again m c next result address hit answered same =
      let m' = (perform platform m c).0 in
      subst (λ (answer : Answer platform). Kept (m', answer) (condition_key platform c.condition))
        answered (resolve-Kept m c) next same
