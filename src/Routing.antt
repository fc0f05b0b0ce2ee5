-- ===== src/Routing.antt =====
-- cpp/include/ma2a/resolutive_routing_adapter.hpp. The router is the library resolutive-routing,
-- which is a parameter.
pub mod Execution
use ma2a.Base.{
  ◌≡◌, ◌||◌, Bool, true, false, Bytes, bytes_eq, bytes_eq_iff, List, [], ◌∷◌, Option, some,
  if◌then◌else◌, Bool-cases, inl, inr, ok, arith,
}
use ma2a.Contracts.{JobRequest}
use ma2a.Orchestrator.{contains}
use ma2a.Engine.{RouteProvider}

-- What the adapter uses of resolutive-routing.
pub record RoutingLibrary : Type 1 where
  pub NodeSnapshot : Type 0
  pub node_id : NodeSnapshot → Bytes
  pub RequestType : Type 0
  pub echo : RequestType
  pub Scope : Type 0
  pub private_scope : Scope
  pub Request : Type 0
  -- `Request` with its five fields: request, type, scope, source and organization
  pub make_request : Bytes → RequestType → Scope → Bytes → Bytes → Request
  -- the node that `DeterministicRouter::route` selects among the snapshots
  pub route : Request → List NodeSnapshot → Option Bytes

module _ (lib : RoutingLibrary) where
  open lib use {NodeSnapshot, node_id}

  unfoldable pub routing_request : JobRequest → lib.Request
  routing_request job =
      lib.make_request job.request_id lib.echo lib.private_scope job.sender_node_id
        job.organization_id

  -- The loop over `nodes_`.
  unfoldable pub eligible : List Bytes → List NodeSnapshot → List NodeSnapshot
  eligible excluded [] = []
  eligible excluded (node ∷ nodes) =
      let rest = eligible excluded nodes in
      if contains excluded (node_id node) then rest else node ∷ rest

  -- `operator()`
  unfoldable pub provide : List NodeSnapshot → JobRequest → List Bytes → Option Bytes
  provide nodes job excluded = lib.route (routing_request job) (eligible excluded nodes)

  -- The adapter as the engine calls it; it keeps no state.
  unfoldable pub resolutive_routing_provider : {W : Type 0} → List NodeSnapshot → RouteProvider W
  resolutive_routing_provider nodes w job excluded = ok (provide nodes job excluded, w)

  -- Some snapshot has this id.
  unfoldable pub names : List NodeSnapshot → Bytes → Bool
  names [] id = false
  names (node ∷ nodes) id = bytes_eq (node_id node) id || names nodes id

  names-eligible :
      (excluded : List Bytes) (nodes : List NodeSnapshot) (id : Bytes)
      → names (eligible excluded nodes) id ≡ true
      → (contains excluded id ≡ false) × (names nodes id ≡ true)
  unfolding names eligible
  names-eligible excluded [] id h = cc
  names-eligible excluded (node ∷ nodes) id h =
      elim (Bool-cases (contains excluded (node_id node))) [
        | inl out ↦ ground (arith, names-eligible excluded nodes id, rw out at h)
        | inr in_set ↦ ground (
          arith,
          names-eligible excluded nodes id,
          rw in_set at h,
          bytes_eq_iff (node_id node) id,
        )
      ]

  -- If the router selects only among the snapshots that it is given, the adapter never answers
  -- with an excluded node, and only with a node of its own.
  pub provide_lem :
      (nodes : List NodeSnapshot) (job : JobRequest) (excluded : List Bytes) (id : Bytes)
      → ((request : lib.Request) (given : List NodeSnapshot) (id' : Bytes)
          → lib.route request given ≡ some id'
          → names given id' ≡ true)
      → provide nodes job excluded ≡ some id
      → (contains excluded id ≡ false) × (names nodes id ≡ true)
  unfolding provide
  provide_lem nodes job excluded id selects h =
      names-eligible excluded nodes id
        (selects (routing_request job) (eligible excluded nodes) id h)
