-- ===== src/Python/Conflict/Convergence.antt =====
-- Nodes that hold the same state and receive the same updates in different orders.
use mathlib.Core.List.{forall_mem-cons, Mem, Perm, mem-cons_self, mem-cons_of_mem, not-mem-nil}
use mathlib.Core.List.Perm
use ma2a.Base.{All, ◌≡◌, ap, inl, inr, true, false, Bool-cases, List, [], ◌∷◌, if◌then◌else◌, arith}
use ma2a.Base.Int.{ℤ}
use ma2a.Python.Decoding.{utf8-injective}
use ma2a.Python.{IsScalar}
use ma2a.Python.Order.{ltb_ℤ}
use ma2a.Python.Conflict.{
  accept_incoming, keep_local, DeltaMeta, OrderingKey, ordering_key, key_lt, resolve, kept, process,
  key_lt_irreflexive, key_lt_transitive, key_lt_connected,
}

-- An update that the sender made from version `v`, to a later one `w`, and that may be applied.
pub record IsDescendant (v w : ℤ) (d : DeltaMeta) : Type 0 where
  pub from : d.base_version ≡ v
  pub to : d.new_version ≡ w
  pub later : ltb_ℤ v w ≡ true
  pub fresh : d.replay ≡ false
  pub allowed : d.scope_allowed ≡ true

pub resolve_descendant :
    (v w : ℤ) (local d : DeltaMeta)
    → local.new_version ≡ v
    → IsDescendant v w d
    → resolve local d ≡ accept_incoming
unfolding resolve
resolve_descendant v w local d at h = ground arith

resolve_concurrent :
    (v w : ℤ) (local d : DeltaMeta)
    → local.new_version ≡ w
    → IsDescendant v w d
    → resolve local d
      ≡ (if key_lt (ordering_key local) (ordering_key d) then accept_incoming else keep_local)
unfolding resolve
resolve_concurrent v w local d at h = ground arith

not_lt_trans : (a b c : OrderingKey) → key_lt a b ≡ false → key_lt b c ≡ false → key_lt a c ≡ false
not_lt_trans a b c h k = ground (arith, key_lt_connected b c, key_lt_transitive a c b)

key_lt_asymmetric : (a b : OrderingKey) → key_lt a b ≡ true → key_lt b a ≡ false
key_lt_asymmetric a b h = ground (arith, key_lt_transitive a b a, key_lt_irreflexive a)

pub record IsGreatest (r : DeltaMeta) (ds : List DeltaMeta) : Type 0 where
  pub member : Mem r ds
  pub top : (x : DeltaMeta) → Mem x ds → key_lt (ordering_key r) (ordering_key x) ≡ false

lt_prop : (k : OrderingKey) → (x : DeltaMeta) → IsProp (key_lt k (ordering_key x) ≡ false)
lt_prop k x = hlevel

-- One more, which is below one of them.
IsGreatest-cons :
    (r x y : DeltaMeta) (ds : List DeltaMeta)
    → key_lt (ordering_key y) (ordering_key x) ≡ false
    → IsGreatest r (y ∷ ds)
    → IsGreatest r (x ∷ y ∷ ds)
IsGreatest-cons r x y ds h g = record {
  member = mem-cons_of_mem x g.member;
  top = (forall_mem-cons (lt_prop (ordering_key r))).1 (
    not_lt_trans (ordering_key r) (ordering_key y) (ordering_key x) (g.top y mem-cons_self) h,
    g.top,
  );
}

IsGreatest-perm :
    {ds es : List DeltaMeta} (r : DeltaMeta) → Perm ds es → IsGreatest r ds → IsGreatest r es
IsGreatest-perm r p g = record {
  member = (Perm.mem_iff p).0 g.member;
  top = λ x m. g.top x ((Perm.mem_iff p).1 m);
}

IsGreatest-single : (r : DeltaMeta) → IsGreatest r (r ∷ [])
IsGreatest-single r = record {
  member = mem-cons_self;
  top =
      (forall_mem-cons (lt_prop (ordering_key r))).1
        (key_lt_irreflexive (ordering_key r), λ x m. absurd (not-mem-nil m));
}

IsGreatest-unique :
    (ds : List DeltaMeta) (r s : DeltaMeta)
    → IsGreatest r ds
    → IsGreatest s ds
    → ordering_key r ≡ ordering_key s
IsGreatest-unique ds r s g h =
    key_lt_connected (ordering_key r) (ordering_key s) (g.top s h.member) (h.top r g.member)

process-concurrent :
    (v w : ℤ) (local d : DeltaMeta) (ds : List DeltaMeta)
    → local.new_version ≡ w
    → IsDescendant v w d
    → process local (d ∷ ds)
      ≡ (if key_lt (ordering_key local) (ordering_key d) then process d ds else process local ds)
unfolding process kept
process-concurrent v w local d ds at h = ground (arith, resolve_concurrent v w local d at h)

process-IsGreatest :
    (v w : ℤ) (local : DeltaMeta) (ds : List DeltaMeta)
    → local.new_version ≡ w
    → ((d : DeltaMeta) → Mem d ds → IsDescendant v w d)
    → IsGreatest (process local ds) (local ∷ ds)
process-IsGreatest v w local [] at h = unfold process in IsGreatest-single local
process-IsGreatest v w local (d ∷ ds) at h =
    let hd = h d mem-cons_self in
    let rest = λ (x : DeltaMeta) (m : Mem x ds). h x (mem-cons_of_mem d m) in
    let kept_local = process-IsGreatest v w local ds at rest in
    let kept_d = process-IsGreatest v w d ds hd.to rest in
    rw (process-concurrent v w local d ds at hd)
      (elim (Bool-cases (key_lt (ordering_key local) (ordering_key d))) [
        | inl won ↦ rw won (IsGreatest-cons _ local d ds (key_lt_asymmetric _ _ won) kept_d)
        | inr lost ↦ rw lost (
            IsGreatest-perm _ (Perm.swap local d ds) (IsGreatest-cons _ d local ds lost kept_local))
      ])

pub process-descendant :
    (v w : ℤ) (local d : DeltaMeta) (ds : List DeltaMeta)
    → local.new_version ≡ v
    → IsDescendant v w d
    → process local (d ∷ ds) ≡ process d ds
unfolding process kept
process-descendant v w local d ds at h = rw (resolve_descendant v w local d at h)

-- The first update is applied, and each of the others is compared with the one that is kept.
process_winner :
    (v w : ℤ) (local d : DeltaMeta) (ds : List DeltaMeta)
    → local.new_version ≡ v
    → ((x : DeltaMeta) → Mem x (d ∷ ds) → IsDescendant v w x)
    → IsGreatest (process local (d ∷ ds)) (d ∷ ds)
process_winner v w local d ds at h =
    let hd = h d mem-cons_self in
    rw (process-descendant v w local d ds at hd)
      (process-IsGreatest v w d ds hd.to (λ x m. h x (mem-cons_of_mem d m)))

IsGreatest-process-perm :
    (v w : ℤ) (local d : DeltaMeta) (ds es : List DeltaMeta)
    → local.new_version ≡ v
    → ((x : DeltaMeta) → Mem x (d ∷ ds) → IsDescendant v w x)
    → Perm es (d ∷ ds)
    → IsGreatest (process local es) (d ∷ ds)
IsGreatest-process-perm v w local d ds [] at h p =
    absurd (not-mem-nil ((Perm.mem_iff p).1 mem-cons_self))
IsGreatest-process-perm v w local d ds (e ∷ es) at h p =
    IsGreatest-perm _ p (process_winner v w local e es at (λ x m. h x ((Perm.mem_iff p).0 m)))

-- Its names hold no surrogates.
pub record IsText (d : DeltaMeta) : Type 0 where
  pub organization : All IsScalar d.organization_id
  pub sender : All IsScalar d.sender_id
  pub message : All IsScalar d.message_id

eq_of_keys :
    (v w : ℤ) (a b : DeltaMeta)
    → IsDescendant v w a
    → IsDescendant v w b
    → IsText a
    → IsText b
    → ordering_key a ≡ ordering_key b
    → a ≡ b
unfolding ordering_key
eq_of_keys v w a b ha hb ta tb h = ground (
  arith,
  utf8-injective a.organization_id b.organization_id ta.organization tb.organization,
  utf8-injective a.sender_id b.sender_id ta.sender tb.sender,
  utf8-injective a.message_id b.message_id ta.message tb.message,
)

pub process-perm :
    (v w : ℤ) (local : DeltaMeta) (ds es : List DeltaMeta)
    → local.new_version ≡ v
    → ((x : DeltaMeta) → Mem x ds → IsDescendant v w x)
    → ((x : DeltaMeta) → Mem x ds → IsText x)
    → Perm es ds
    → process local es ≡ process local ds
process-perm v w local [] es at h texts p = ap (process local) (Perm.eq-nil p)
process-perm v w local (d ∷ ds) es at h texts p =
    let other = IsGreatest-process-perm v w local d ds es at h p in
    let this = process_winner v w local d ds at h in
    eq_of_keys v w (process local es) (process local (d ∷ ds)) (h _ other.member) (h _ this.member)
      (texts _ other.member) (texts _ this.member) (IsGreatest-unique _ _ _ other this)
