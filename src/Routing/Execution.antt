-- ===== src/Routing/Execution.antt =====
-- The adapter of cpp/include/ma2a/resolutive_routing_adapter.hpp as the route provider of the engine
-- of resilient_execution.hpp, with the executor of authenticated_tcp_executor.hpp.
use ma2a.Base.{
  ℕ, ◌<◌, ◌≡◌, ◌≢◌, true, false, Bytes, bytes_eq_iff, is_empty, List, [], ◌∷◌, All, some, throw,
  Exception, arith,
}
use ma2a.Contracts.{JobRequest}
use ma2a.Crypto.{OpenSsl, signature_text}
use ma2a.Crypto.Signing.{IsKeyPair}
use ma2a.Engine.{execute}
use ma2a.Executor.{Surroundings, AuthenticatedTcpAttemptExecutor}
use ma2a.Executor.Completion.{authenticated_engine}
use ma2a.Executor.Total.{IsReliable, execute-ne-throw}
use ma2a.Routing.{RoutingLibrary, names, provide, provide_lem, resolutive_routing_provider}

module _ (lib : RoutingLibrary) where
  open lib use {NodeSnapshot, node_id}

  -- The router selects among the snapshots that it is given.
  abbrev pub Selects : Type 0
  Selects =
      (request : lib.Request) (given : List NodeSnapshot) (id : Bytes)
      → lib.route request given ≡ some id
      → names lib given id ≡ true

  names_named :
      (nodes : List NodeSnapshot) (id : Bytes)
      → All (λ node. is_empty (node_id node) ≡ false) nodes
      → names lib nodes id ≡ true
      → is_empty id ≡ false
  unfolding names
  names_named [] id all h = cc
  names_named (node ∷ nodes) id (named, all) h =
      ground (arith, bytes_eq_iff (node_id node) id, names_named nodes id all)

  module _ (ssl : OpenSsl) {W : Type 0} (executor : AuthenticatedTcpAttemptExecutor ssl)
      (next : W → Surroundings × W) (nodes : List NodeSnapshot) (cap : ℕ)
      (original : JobRequest) where
    reliable :
        (public_key : ssl.Key)
        → Selects
        → All (λ node. is_empty (node_id node) ≡ false) nodes
        → IsKeyPair ssl executor.local_private_key public_key
        → ((message : Bytes) (e : Exception)
            → signature_text ssl (some executor.local_private_key) message ≢ throw e)
        → ((target : Bytes) (e : Exception) → executor.endpoint_resolver target ≢ throw e)
        → IsReliable ssl executor next (resolutive_routing_provider lib nodes) cap original
    unfolding resolutive_routing_provider
    reliable public_key selects all pair signs resolves = record {
      public_key = public_key;
      pair = pair;
      signs = signs;
      resolves = resolves;
      routes = λ w excluded e h. cc;
      fresh = λ w w' excluded target h.
          let answer : provide lib nodes original excluded ≡ some target = ground arith in
          let (out, mine) = provide_lem lib nodes original excluded target selects answer in
          (out, names_named nodes target all mine);
    }

    -- With the routing adapter and the authenticated executor, an execution of a request with an id,
    -- by an engine that allows at least one attempt, throws nothing, whatever the kernel, the peers
    -- and the resolver of public keys do: if the router selects only among the snapshots that it is
    -- given, each snapshot has a name, the executor's key belongs to a pair that behaves as OpenSSL
    -- documents and signs without an error, and the endpoint resolver throws nothing.
    pub execute_routed-ne-throw :
        (public_key : ssl.Key) (w : W) (e : Exception)
        → Selects
        → All (λ node. is_empty (node_id node) ≡ false) nodes
        → IsKeyPair ssl executor.local_private_key public_key
        → ((message : Bytes) (e' : Exception)
            → signature_text ssl (some executor.local_private_key) message ≢ throw e')
        → ((target : Bytes) (e' : Exception) → executor.endpoint_resolver target ≢ throw e')
        → is_empty original.request_id ≡ false
        → 0 < cap
        → execute
            (authenticated_engine ssl executor next
              (resolutive_routing_provider lib nodes)
              cap
              original)
            original
            w
          ≢ throw e
    execute_routed-ne-throw public_key w e selects all pair signs resolves named allowed =
        execute-ne-throw ssl executor next (resolutive_routing_provider lib nodes) cap original
          (reliable public_key selects all pair signs resolves) w e named allowed
