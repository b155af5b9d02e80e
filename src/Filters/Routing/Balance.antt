-- ===== src/Filters/Routing/Balance.antt =====
-- The load balancer (src/filters/load_balancer) on a cluster map with its invariant.
use quilkin.Common.{ℕ, ◌%◌, ◌<◌, ◌≡◌, ap, sym, ◌∙◌, some, [], ◌∷◌, ◌++◌, get_elem?, arith}
use quilkin.Net.Cluster.{Endpoint, Env}
use quilkin.Net.Cluster.Clusters.{endpoints, u64_mod}
use quilkin.Net.Cluster.Clusters.Total.{total}
use quilkin.Net.Cluster.Clusters.Index.{nth_endpoint-get_elem?, nth_endpoint_in_range}
use quilkin.Net.Cluster.Clusters.Invariant.{Inv}
use quilkin.Filters.{ReadContext}
use quilkin.Filters.Routing.{choose_nth, round_robin}

module _ {U R : Type 0} (env : Env U R) where
  -- On a map that keeps its invariant and holds from one to 2^64 - 1 endpoints, the round robin sends
  -- the packet to the endpoint at the counter, modulo their number, in the list of all endpoints.
  pub round_robin-lists :
      (ctx : ReadContext U R) (count : ℕ)
      → Inv env ctx.endpoints
      → 0 < total ctx.endpoints.map
      → total ctx.endpoints.map < u64_mod
      → (ep : Endpoint U) × (get_elem?
            (endpoints ctx.endpoints.map)
            (count % total ctx.endpoints.map)
          ≡ some ep)
        × ((round_robin ctx count).0
            ≡ some (record ctx { destinations = ctx.destinations ++ ep.address ∷ [] }))
  unfolding round_robin choose_nth
  round_robin-lists ctx count v pos small =
      let (ep, found) = nth_endpoint_in_range env ctx.endpoints count v pos small in
      let counted : ctx.endpoints.num_endpoints ≡ total ctx.endpoints.map =
        omega (arith, v.counted) in
      (
        ep,
        ap (λ n. get_elem? (endpoints ctx.endpoints.map) (count % n)) (sym counted)
            ∙ sym (nth_endpoint-get_elem? ctx.endpoints.map (count % ctx.endpoints.num_endpoints))
            ∙ found,
        ground (arith, found, counted),
      )
