-- ===== src/Python/Conflict.antt =====
-- reference/python/ma2a/conflict.py: which of two updates of one state a node keeps.
pub mod Convergence
pub mod Divergence
use ma2a.Base.{Bool, true, false, Bytes, ◌≡◌, List, [], ◌∷◌, not, if◌then◌else◌}
use ma2a.Base.Int.{ℤ}
use ma2a.Python.{Text, utf8}
use ma2a.Python.Order.{ltb_ℤ, eq_ℤ, TotalOrder, int_order, bytes_order, tuple_order}

pub data Resolution : Type 0 where
  accept_incoming : Resolution
  keep_local : Resolution
  reject_replay : Resolution
  reject_stale : Resolution
  reject_scope : Resolution
  reject_unresolved : Resolution

pub record DeltaMeta : Type 0 where
  pub base_version : ℤ
  pub new_version : ℤ
  pub logical_clock : ℤ
  pub organization_id : Text
  pub sender_id : Text
  pub message_id : Text
  pub scope_allowed : Bool
  pub replay : Bool

abbrev pub OrderingKey : Type 0
OrderingKey = ℤ × (ℤ × (Bytes × (Bytes × Bytes)))

-- `DeltaMeta.ordering_key`
unfoldable pub ordering_key : DeltaMeta → OrderingKey
ordering_key d = (
  d.new_version,
  (d.logical_clock, (utf8 d.organization_id, (utf8 d.sender_id, utf8 d.message_id))),
)

abbrev key_order : TotalOrder OrderingKey
key_order =
    tuple_order int_order
      (tuple_order int_order (tuple_order bytes_order (tuple_order bytes_order bytes_order)))

-- How Python compares two keys.
unfoldable pub key_lt : OrderingKey → OrderingKey → Bool
key_lt = key_order.lt

unfoldable pub resolve : DeltaMeta → DeltaMeta → Resolution
resolve local incoming =
    if incoming.replay
    then reject_replay
    else if not incoming.scope_allowed
    then reject_scope
    else if eq_ℤ incoming.base_version local.new_version
    then accept_incoming
    else if ltb_ℤ incoming.base_version local.new_version
    then (if eq_ℤ incoming.new_version local.new_version
        then (if key_lt (ordering_key local) (ordering_key incoming)
            then accept_incoming
            else keep_local)
        else reject_stale)
    else reject_unresolved

-- What a node keeps after a resolution.
unfoldable pub kept : Resolution → DeltaMeta → DeltaMeta → DeltaMeta
kept accept_incoming local incoming = incoming
kept keep_local local incoming = local
kept reject_replay local incoming = local
kept reject_stale local incoming = local
kept reject_scope local incoming = local
kept reject_unresolved local incoming = local

-- A node that resolves each of the updates, as they arrive, against what it keeps.
unfoldable pub process : DeltaMeta → List DeltaMeta → DeltaMeta
process local [] = local
process local (d ∷ arrivals) = process (kept (resolve local d) local d) arrivals

pub key_lt_irreflexive : (a : OrderingKey) → key_lt a a ≡ false
unfolding key_lt
key_lt_irreflexive = key_order.irreflexive

pub key_lt_transitive :
    (a b c : OrderingKey) → key_lt a b ≡ true → key_lt b c ≡ true → key_lt a c ≡ true
unfolding key_lt
key_lt_transitive = key_order.transitive

pub key_lt_connected : (a b : OrderingKey) → key_lt a b ≡ false → key_lt b a ≡ false → a ≡ b
unfolding key_lt
key_lt_connected = key_order.connected
