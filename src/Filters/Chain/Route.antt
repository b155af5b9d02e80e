-- ===== src/Filters/Chain/Route.antt =====
-- The chain that routes by token: a capture of a suffix before the token router.
use quilkin.Common.{
  ℕ, ◌≡◌, refl, true, Option, none, some, List, [], ◌∷◌, ◌++◌, length, ◌==◌, if◌then◌else◌, arith,
}
use quilkin.Common.Maps
use quilkin.Common.Maps.{get-insert_self}
use quilkin.Net.Address.{Bytes, EndpointAddress, bytes_ord}
use quilkin.Net.Cluster.Clusters.{ClusterMap, addresses_for_token}
use quilkin.Filters.{
  Value, ReadContext, Filter, token_router, no_endpoint_match, Verdict, passed, failed,
  new_read_context,
}
use quilkin.Filters.Capture.{capture_read, new_capture, suffix, present_suffix}
use quilkin.Filters.Capture.Affix.{capture_read-suffix}
use quilkin.Filters.Routing.{token_router_read}
use quilkin.Filters.Chain.{chain_read, all_endpoints}

-- A filter without state of its own, that does nothing on the way back.
abbrev pub stateless :
    {U R S : Type 0} → (ReadContext U R → Option (Verdict × ReadContext U R)) → Filter U R S
stateless f = record {
  read = λ ctx s. elim (f ctx) [ none ↦ none | some (verdict, ctx') ↦ some (verdict, ctx', s) ];
  write = λ ctx s. some (passed, ctx, s);
}

abbrev pub route_by_token : {U R S : Type 0} → (Bytes → ℕ) → ℕ → Bytes → List (Filter U R S)
route_by_token hash_token size key =
    stateless (capture_read (new_capture (suffix true size) key))
    ∷ stateless (token_router_read hash_token key)
    ∷ []

-- A packet that ends in a token reaches exactly the addresses of the cluster's token map for it, with
-- the token taken off; when there is none, the chain refuses it and names the token.
pub chain_read-route_by_token :
    {U R S : Type 0} (hash_token : Bytes → ℕ) (key body token : Bytes) (cm : ClusterMap U R)
    (source : EndpointAddress) (s : S)
    → (let ctx = new_read_context cm source (body ++ token) [] in
        let routed = addresses_for_token (hash_token token) cm [] in
        chain_read (route_by_token hash_token (length token) key) ctx s
        ≡ some (
          if length routed == 0 then failed (token_router (no_endpoint_match token)) else passed,
          record ctx {
            destinations = routed;
            contents = body;
            metadata =
                Maps.insert key
                  (Value.bytes token)
                  (Maps.insert (key ++ present_suffix) (Value.bool true) []);
          },
          s,
        ))
unfolding chain_read token_router_read new_read_context all_endpoints
chain_read-route_by_token hash_token key body token cm source s =
    let ctx = new_read_context cm source (body ++ token) [] in
    ground (
      arith,
      capture_read-suffix key body token ctx refl,
      get-insert_self key (Value.bytes token)
          (Maps.insert (key ++ present_suffix) (Value.bool true) []),
    )
