-- ===== src/Python/Routes/Recall.antt =====
-- Routes that `ResolutiveRouteMemory` of reference/python/ma2a/rm_bridge.py has registered.
use ma2a.Base.{
  ◌≡◌, refl, sym, ◌∙◌, subst, ◌+◌, inl, inr, Bool, true, Bool-cases, Option-cases, Option, some,
  List, [], ◌∷◌, bytes_eq, bytes_eq_iff, bytes_eq_refl, if◌then◌else◌, arith,
}
use ma2a.Python.{Text}
use ma2a.Python.Routes.{
  Platform, RouteRecord, RouteMemory, new_memory, get_item, set_item, condition_key, is_rejected,
  Answer, recall, new_route, register, resolve_external, resolve,
}

pub get_item-set_item {ℓ} :
    {V : Type ℓ} (items : List (Text × V)) (key k : Text) (value : V)
    → get_item (set_item items key value) k
      ≡ (if bytes_eq key k then some value else get_item items k)
unfolding get_item set_item
get_item-set_item [] key k value = refl
get_item-set_item ((j, v) ∷ items) key k value = ground (
  arith,
  bytes_eq_iff j key,
  bytes_eq_iff key k,
  bytes_eq_iff j k,
  get_item-set_item items key k value,
)

-- An address leads to a route of that address.
abbrev pub HasRoute : List (Text × RouteRecord) → Text → Type 0
HasRoute items a = (r : RouteRecord) × (get_item items a ≡ some r) × (r.trajectory_address ≡ a)

pub set_item-HasRoute_self :
    (items : List (Text × RouteRecord)) (r : RouteRecord)
    → HasRoute (set_item items r.trajectory_address r) r.trajectory_address
set_item-HasRoute_self items r =
    let a = r.trajectory_address in (r, get_item-set_item items a a r ∙ rw (bytes_eq_refl a), refl)

set_item-HasRoute :
    (items : List (Text × RouteRecord)) (r : RouteRecord) (a : Text)
    → HasRoute items a
    → HasRoute (set_item items r.trajectory_address r) a
set_item-HasRoute items r a (old, found, named) =
    elim (Bool-cases (bytes_eq r.trajectory_address a)) [
      | inl same ↦ (
        r,
        get_item-set_item items r.trajectory_address a r ∙ rw same,
        (bytes_eq_iff r.trajectory_address a).0 same,
      )
      | inr other ↦ (old, get_item-set_item items r.trajectory_address a r ∙ rw other found, named)
    ]

module _ (platform : Platform) where
  -- The caller's arguments of one call.
  pub record Call : Type 0 where
    pub condition : Text
    pub external_resolver : Option (Text → Option Text)
    pub validator : Option (Text → Bool)

  abbrev pub perform : RouteMemory → Call → RouteMemory × Answer platform
  perform m c = resolve platform m c.condition c.external_resolver c.validator

  -- Each known condition has its route.
  pub record IsWell (m : RouteMemory) : Type 0 where
    pub routes : (k a : Text) → get_item m.by_condition k ≡ some a → HasRoute m.by_address a

  pub new_memory-IsWell : IsWell new_memory
  unfolding get_item
  new_memory-IsWell = record { routes = λ k a h. absurd (ground arith) }

  pub add_route-IsWell :
      (m : RouteMemory) (r : RouteRecord)
      → IsWell m
      → IsWell (record m { by_address = set_item m.by_address r.trajectory_address r })
  add_route-IsWell m r w = record {
    routes = λ k a h. set_item-HasRoute m.by_address r a (w.routes k a h);
  }

  pub add_condition-IsWell :
      (m : RouteMemory) (key a : Text)
      → HasRoute m.by_address a
      → IsWell m
      → IsWell (record m { by_condition = set_item m.by_condition key a })
  add_condition-IsWell m key a there w = record {
    routes = λ k b h.
        let found = sym (get_item-set_item m.by_condition key k a) ∙ h in
        elim (Bool-cases (bytes_eq key k)) [
          | inl same ↦ subst (HasRoute m.by_address) (ground (arith, found, same)) there
          | inr other ↦ w.routes k b (ground (arith, found, other))
        ];
  }

  register-IsWell :
      (m : RouteMemory) (key result : Text) → IsWell m → IsWell (register platform m key result).0
  unfolding register
  register-IsWell m key result w =
      let r = new_route platform key result in
      add_condition-IsWell _ key r.trajectory_address (set_item-HasRoute_self m.by_address r)
        (add_route-IsWell m r w)

  recall_keeps : (m : RouteMemory) (a : Text) → (recall platform m a).0 ≡ m
  unfolding recall
  recall_keeps m a = ground arith

  resolve_external-IsWell :
      (m : RouteMemory) (condition : Text) (f : Text → Option Text) (v : Option (Text → Bool))
      → IsWell m
      → IsWell (resolve_external platform m condition f v).0
  unfolding resolve_external
  resolve_external-IsWell m condition f v w =
      let counted = record m { external_resolution_calls = m.external_resolution_calls + 1 } in
      let well : IsWell counted = record { routes = w.routes } in
      elim (Option-cases (f condition)) [
        | inl none_found ↦ rw (none_found, resolve_external) well
        | inr (result, found) ↦ elim (Bool-cases (is_rejected platform v result)) [
          | inl bad ↦ rw (found, bad, resolve_external) well
          | inr good ↦
              rw (found, good, resolve_external)
                (register-IsWell counted (condition_key platform condition) result well)
        ]
      ]

  pub resolve-IsWell : (m : RouteMemory) (c : Call) → IsWell m → IsWell (perform m c).0
  unfolding resolve
  resolve-IsWell m c w =
      elim (Option-cases (get_item m.by_condition (condition_key platform c.condition))) [
        | inr (a, known) ↦ rw (known, resolve) (rw (recall_keeps m a) w)
        | inl unknown ↦ elim (Option-cases c.external_resolver) [
          | inl missing ↦ rw (unknown, missing, resolve) w
          | inr (f, given) ↦
              rw (unknown, given, resolve) (resolve_external-IsWell m c.condition f c.validator w)
        ]
      ]

  pub recall_known :
      (m : RouteMemory) (a : Text) (r : RouteRecord)
      → get_item m.by_address a ≡ some r
      → recall platform m a ≡ (m, some (r.result, true, r.trajectory_address))
  unfolding recall
  recall_known m a r h = rw (h, recall)

  pub resolve_known :
      (m : RouteMemory) (c : Call) (a : Text)
      → get_item m.by_condition (condition_key platform c.condition) ≡ some a
      → perform m c ≡ recall platform m a
  unfolding resolve
  resolve_known m c a h = rw (h, resolve)
