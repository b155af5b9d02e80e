-- ===== src/Net/Pipeline/Leftovers.antt =====
-- The list of destinations that a worker keeps from packet to packet (src/net/packet.rs,
-- src/net/io/poll/tokio.rs).
use quilkin.Common.{
  ℕ, ◌≡◌, ◌≢◌, ap, sym, ◌∙◌, subst, true, false, Option, some, List, [], ◌∷◌, ◌++◌, length, arith,
}
use quilkin.Common.Maps.{Map}
use quilkin.Common.Order.{ℕ_ord}
use quilkin.Net.Address.{Bytes, IpAddr, EndpointAddress, SocketAddr, bytes_ord, address_ord}
use quilkin.Net.Cluster.Clusters.{ClusterMap, has_endpoints, addresses_for_token}
use quilkin.Filters.{ReadContext, Filter, FilterError, passed, failed, new_read_context}
use quilkin.Filters.Chain.{chain_read}
use quilkin.Filters.Chain.Route.{route_by_token}
use quilkin.Net.Sessions.{PipelineError}
use quilkin.Net.Sessions.Pool.{Opened, SessionPool}
use quilkin.Net.Sessions.Traffic.{to_endpoint_address}
use quilkin.Net.Pipeline.{
  Processed, is_disallowed, send_all, filter_and_send, process_inner, worker,
}
-- What the chain by token makes of a packet that comes with a list of destinations.
use quilkin.Net.Pipeline.Gated.{routed_context, missing_keeps, chain_read-gated}

module _ {S Q A : Type 0} (resolve : Bytes → Option IpAddr) (lookup : IpAddr → Option A)
    (clock : Option ℕ) (os : Map ℕ Q → Opened Q) where
  -- What sending leaves.
  abbrev pub delivered :
      SocketAddr → Bytes → List EndpointAddress → S → SessionPool Q A → Processed S Q A
  delivered source contents destinations s pool =
      let (result, sent, pool') =
        send_all resolve lookup clock os source contents destinations pool in
      record { result = result; sent = sent; destinations = []; state = s; pool = pool' }

module _ {U R S Q A : Type 0} (resolve : Bytes → Option IpAddr) (lookup : IpAddr → Option A)
    (clock : Option ℕ) (os : Map ℕ Q → Opened Q) where
  -- A packet that gets to the filters.
  pub process_inner_filtered :
      (cm : ClusterMap U R) (filters : List (Filter U R S)) (source : SocketAddr) (contents : Bytes)
      (left : List EndpointAddress) (s : S) (pool : SessionPool Q A)
      → has_endpoints cm ≡ true
      → is_disallowed source.ip ≡ false
      → process_inner resolve lookup clock os (some cm) filters source contents left s pool
        ≡ filter_and_send resolve lookup clock os (some cm) filters cm source contents left s pool
  unfolding process_inner
  process_inner_filtered cm filters source contents left s pool e a = ground (arith, e, a)

  pub filter_refused :
      (cm : ClusterMap U R) (filters : List (Filter U R S)) (source : SocketAddr) (contents : Bytes)
      (left : List EndpointAddress) (s s' : S) (pool : SessionPool Q A) (e : FilterError)
      (ctx : ReadContext U R)
      → chain_read filters (new_read_context cm (to_endpoint_address source) contents left) s
        ≡ some (failed e, ctx, s')
      → filter_and_send resolve lookup clock os (some cm) filters cm source contents left s pool
        ≡ some (record {
          result = some (PipelineError.filter e);
          sent = [];
          destinations = ctx.destinations;
          state = s';
          pool = pool;
        })
  unfolding filter_and_send
  filter_refused cm filters source contents left s s' pool e ctx f = ground (arith, f)

  pub filter_passed :
      (cm : ClusterMap U R) (filters : List (Filter U R S)) (source : SocketAddr) (contents : Bytes)
      (left : List EndpointAddress) (s s' : S) (pool : SessionPool Q A) (ctx : ReadContext U R)
      → chain_read filters (new_read_context cm (to_endpoint_address source) contents left) s
        ≡ some (passed, ctx, s')
      → filter_and_send resolve lookup clock os (some cm) filters cm source contents left s pool
        ≡ some (delivered resolve lookup clock os source ctx.contents ctx.destinations s' pool)
  unfolding filter_and_send
  filter_passed cm filters source contents left s s' pool ctx f = ground (arith, f)

  two_packets :
      (clusters : Option (ClusterMap U R)) (filters : List (Filter U R S))
      (source1 source2 : SocketAddr) (contents1 contents2 : Bytes) (s : S) (pool : SessionPool Q A)
      (p1 p2 : Processed S Q A)
      → process_inner resolve lookup clock os clusters filters source1 contents1 [] s pool ≡ some p1
      → process_inner resolve lookup clock os clusters filters source2 contents2 p1.destinations
          p1.state p1.pool
        ≡ some p2
      → worker resolve lookup clock os clusters filters
          ((source1, contents1) ∷ (source2, contents2) ∷ [])
          []
          s
          pool
        ≡ some (p1 ∷ p2 ∷ [])
  unfolding worker
  two_packets clusters filters source1 source2 contents1 contents2 s pool p1 p2 e f =
      ground (arith, e, f)

  module _ (hash_token : Bytes → ℕ) (key : Bytes) (cm : ClusterMap U R) (gate : Filter U R S)
      (live : has_endpoints cm ≡ true) where
    abbrev gated : ℕ → List (Filter U R S)
    gated size = route_by_token hash_token size key ++ gate ∷ []

    -- A worker, whose cluster map has endpoints, with two packets from sources that are not disallowed, with tokens of one length, on a
    -- chain that routes by token and ends in a filter (a rate limiter, a firewall) that refuses the
    -- first packet, once it is routed, and passes the second. If the first token has addresses and the
    -- second has none, the second packet is sent to the addresses of the first packet's token.
    pub worker-leftover :
        (e : FilterError) (source1 source2 : SocketAddr) (body1 body2 token1 token2 : Bytes)
        (s s1 s2 : S) (pool : SessionPool Q A)
        → is_disallowed source1.ip ≡ false
        → is_disallowed source2.ip ≡ false
        → length token1 ≡ length token2
        → (let routed = addresses_for_token (hash_token token1) cm [] in
            let ctx1 = routed_context key cm (to_endpoint_address source1) body1 token1 routed in
            let ctx2 = routed_context key cm (to_endpoint_address source2) body2 token2 routed in
            gate.read ctx1 s ≡ some (failed e, ctx1, s1)
            → gate.read ctx2 s1 ≡ some (passed, ctx2, s2)
            → length routed ≢ 0
            → length (addresses_for_token (hash_token token2) cm []) ≡ 0
            → worker resolve lookup clock os
                (some cm)
                (gated (length token1))
                ((source1, body1 ++ token1) ∷ (source2, body2 ++ token2) ∷ [])
                []
                s
                pool
              ≡ some (
                  record {
                    result = some (PipelineError.filter e);
                    sent = [];
                    destinations = routed;
                    state = s1;
                    pool = pool;
                  }
                  ∷ delivered resolve lookup clock os source2 body2 routed s2 pool
                  ∷ []))
    worker-leftover e source1 source2 body1 body2 token1 token2 s s1 s2 pool a1 a2 n g1 g2 found
          missing =
        let routed = addresses_for_token (hash_token token1) cm [] in
        let left = missing_keeps (hash_token token2) cm routed missing in
        let ctx1 = routed_context key cm (to_endpoint_address source1) body1 token1 routed in
        let ctx2 = routed_context key cm (to_endpoint_address source2) body2 token2 routed in
        let first =
          process_inner_filtered cm (gated (length token1)) source1 (body1 ++ token1) [] s pool live
            a1
          ∙ filter_refused cm (gated (length token1)) source1 (body1 ++ token1) [] s s1 pool e ctx1
              (chain_read-gated hash_token key cm gate (failed e) body1 token1
                (to_endpoint_address source1) [] s s1 g1 found) in
        let gate2 =
          chain_read-gated hash_token key cm gate passed body2 token2 (to_endpoint_address source2)
            routed s1 s2
            (subst
              (λ ds.
                let ctx = routed_context key cm (to_endpoint_address source2) body2 token2 ds in
                gate.read ctx s1 ≡ some (passed, ctx, s2))
              (sym left) g2)
            (λ z. found (ap length (sym left) ∙ z))
          ∙ ap
              (λ ds.
                some
                  (passed, routed_context key cm (to_endpoint_address source2) body2 token2 ds, s2))
              left in
        let second =
          process_inner_filtered cm (gated (length token2)) source2 (body2 ++ token2) routed s1 pool
            live a2
          ∙ filter_passed cm (gated (length token2)) source2 (body2 ++ token2) routed s1 s2 pool
              ctx2 gate2 in
        let second' =
          subst
            (λ k.
              process_inner resolve lookup clock os (some cm) (gated k) source2 (body2 ++ token2)
                routed s1 pool
              ≡ some (delivered resolve lookup clock os source2 body2 routed s2 pool))
            (sym n) second in
        two_packets (some cm) (gated (length token1)) source1 source2 (body1 ++ token1)
          (body2 ++ token2) s pool _ _ first second'
