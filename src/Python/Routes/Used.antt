-- ===== src/Python/Routes/Used.antt =====
-- A memory of routes of reference/python/ma2a/rm_bridge.py that `resolve` and `import_delta` use.
use ma2a.Base.{◌≡◌, ◌∙◌, ap, subst, arith, inl, inr, Option-cases, true, Bytes, some, List, [], ◌∷◌}
use ma2a.Python.{Text}
use ma2a.Python.Values.{
  JsonValue, null_value, bool_value, int_value, float_value, text_value, list_value, dict_value,
  Builtins,
}
use ma2a.Python.Routes.{
  Platform, RouteRecord, RouteMemory, new_memory, get_item, set_item, condition_key,
}
use ma2a.Python.Routes.Import.{set_condition, store, accept_delta, import_delta}
use ma2a.Python.Routes.Recall.{
  Call, perform, IsWell, HasRoute, new_memory-IsWell, add_route-IsWell, add_condition-IsWell,
  resolve-IsWell, set_item-HasRoute_self, resolve_known, recall_known,
}

module _ (platform : Platform) (builtins : Builtins) where
  -- One call of a method that writes.
  pub data Use : Type 0 where
    resolve_call : Call platform → Use
    import_call : Bytes → Use

  -- The memory after a call, and after all of them, whether they return or raise.
  unfoldable pub after : RouteMemory → Use → RouteMemory
  after m (resolve_call c) = (perform platform m c).0
  after m (import_call encoded) = (import_delta platform builtins m encoded).0

  unfoldable pub after_all : RouteMemory → List Use → RouteMemory
  after_all m [] = m
  after_all m (u ∷ uses) = after_all (after m u) uses

  set_condition-IsWell :
      (m : RouteMemory) (key : JsonValue) (a : Text)
      → HasRoute m.by_address a
      → IsWell platform m
      → (m' : RouteMemory) → set_condition m key a ≡ some m'
      → IsWell platform m'
  unfolding set_condition
  set_condition-IsWell m (text_value key) a there w m' h =
      subst (IsWell platform) (ground (arith, h)) (add_condition-IsWell platform m key a there w)
  set_condition-IsWell m null_value a there w m' h = subst (IsWell platform) (ground (arith, h)) w
  set_condition-IsWell m (bool_value _) a there w m' h =
      subst (IsWell platform) (ground (arith, h)) w
  set_condition-IsWell m (int_value _) a there w m' h =
      subst (IsWell platform) (ground (arith, h)) w
  set_condition-IsWell m (float_value _) a there w m' h =
      subst (IsWell platform) (ground (arith, h)) w
  set_condition-IsWell m (list_value _) a there w m' h = absurd (ground (arith, h))
  set_condition-IsWell m (dict_value _) a there w m' h = absurd (ground (arith, h))

  store-IsWell :
      (m : RouteMemory) (r : RouteRecord) → IsWell platform m → IsWell platform (store m r).0
  unfolding store
  store-IsWell m r w =
      let addressed = record m { by_address = set_item m.by_address r.trajectory_address r } in
      let well = add_route-IsWell platform m r w in
      elim (Option-cases (set_condition addressed r.condition_key r.trajectory_address)) [
        | inl raised ↦ rw (raised, store) well
        | inr (linked, done) ↦
            rw (done, store)
              (set_condition-IsWell addressed r.condition_key r.trajectory_address
                (set_item-HasRoute_self m.by_address r) well linked done)
      ]

  after-IsWell : (m : RouteMemory) (u : Use) → IsWell platform m → IsWell platform (after m u)
  unfolding after import_delta
  after-IsWell m (resolve_call c) w = resolve-IsWell platform m c w
  after-IsWell m (import_call encoded) w =
      elim (Option-cases (accept_delta platform builtins encoded)) [
        | inl raised ↦ rw (raised, after, import_delta) w
        | inr (r, accepted) ↦ rw (accepted, after, import_delta) (store-IsWell m r w)
      ]

  after_all-IsWell :
      (m : RouteMemory) (uses : List Use) → IsWell platform m → IsWell platform (after_all m uses)
  unfolding after_all
  after_all-IsWell m [] w = w
  after_all-IsWell m (u ∷ uses) w = after_all-IsWell (after m u) uses (after-IsWell m u w)

  -- After any calls of `resolve` and `import_delta` on a new memory, whether they returned or raised,
  -- it answers a condition that it knows from its own routes, with the address that it has for it,
  -- whatever resolver it is given, and it stays as it is: no lookup fails, and no resolver is called.
  pub resolve_local :
      (uses : List Use) (c : Call platform) (a : Text)
      → get_item (after_all new_memory uses).by_condition (condition_key platform c.condition)
        ≡ some a
      → let m = after_all new_memory uses in
        (result : JsonValue) × (perform platform m c ≡ (m, some (result, true, a)))
  resolve_local uses c a h =
      let m = after_all new_memory uses in
      let (r, found, named) =
        (after_all-IsWell new_memory uses (new_memory-IsWell platform)).routes
          (condition_key platform c.condition) a h in
      (
        r.result,
        resolve_known platform m c a h
            ∙ recall_known platform m a r found
            ∙ ap (λ (t : Text). (m, some (r.result, true, t))) named,
      )
