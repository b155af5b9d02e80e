-- ===== src/Filters/Routing.antt =====
-- The filters that choose destinations: the token router (src/filters/token_router.rs) and the load
-- balancer (src/filters/load_balancer). A hash, or a number drawn at random, is an argument.
pub mod Balance
use quilkin.Common.{
  ℕ, ◌+◌, ◌%◌, ◌^◌, Bool, true, false, Option, none, some, List, [], ◌∷◌, ◌++◌, length, ◌==◌,
  if◌then◌else◌,
}
use quilkin.Common.Maps
use quilkin.Net.Address.{Bytes, EndpointAddress, bytes_ord}
use quilkin.Net.Cluster.{Endpoint}
use quilkin.Net.Cluster.Clusters.{
  ClusterMap, addresses_for_token, nth_endpoint, num_of_endpoints, u64_mod,
}
use quilkin.Filters.{
  Value, ReadContext, RouterError, no_token_found, no_endpoint_match, FilterError, token_router,
  Verdict, passed, failed,
}

module _ {U R : Type 0} where
  -- A value that is not bytes is `unreachable!`.
  unfoldable pub token_router_read :
      (Bytes → ℕ) → Bytes → ReadContext U R → Option (Verdict × ReadContext U R)
  unfolding addresses_for_token
  token_router_read hash_token metadata_key ctx = elim (Maps.get metadata_key ctx.metadata) [
    | none ↦ some (failed (token_router no_token_found), ctx)
    | some value ↦ elim value [
      | Value.bytes token ↦
          let destinations =
            addresses_for_token (hash_token token) ctx.endpoints ctx.destinations in
          some (
            if length destinations == 0
                then failed (token_router (no_endpoint_match token))
                else passed,
            record ctx { destinations = destinations },
          )
      | _ ↦ none
    ]
  ]

  -- The endpoint at an index below the number of endpoints; `% 0` and `unwrap` panic.
  unfoldable pub choose_nth : ℕ → ReadContext U R → Option (ReadContext U R)
  unfolding nth_endpoint
  choose_nth count ctx =
      if num_of_endpoints ctx.endpoints == 0
      then none
      else elim (nth_endpoint ctx.endpoints.map (count % num_of_endpoints ctx.endpoints)) [
        | none ↦ none
        | some ep ↦ some (record ctx { destinations = ctx.destinations ++ ep.address ∷ [] })
      ]

  -- `RoundRobinEndpointChooser`: the context, and the counter for the next packet.
  unfoldable pub round_robin : ReadContext U R → ℕ → Option (ReadContext U R) × ℕ
  unfolding choose_nth
  round_robin ctx next_endpoint = (choose_nth next_endpoint ctx, (next_endpoint + 1) % u64_mod)

  -- `HashEndpointChooser`, given the hash of a source.
  unfoldable pub hash_choose : (EndpointAddress → ℕ) → ReadContext U R → Option (ReadContext U R)
  unfolding choose_nth
  hash_choose hash ctx = choose_nth (hash ctx.source) ctx

  -- `RandomEndpointChooser`, given the number drawn, below the number of endpoints.
  unfoldable pub random_choose : ℕ → ReadContext U R → Option (ReadContext U R)
  unfolding nth_endpoint
  random_choose index ctx =
      if num_of_endpoints ctx.endpoints == 0
      then none
      else elim (nth_endpoint ctx.endpoints.map index) [
        | none ↦ none
        | some ep ↦ some (record ctx { destinations = ctx.destinations ++ ep.address ∷ [] })
      ]
