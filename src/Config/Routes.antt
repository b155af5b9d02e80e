-- ===== src/Config/Routes.antt =====
-- From a response to the route of a packet (src/config.rs, `apply_delta`; src/filters/chain.rs).
use quilkin.Common.{
  ℕ, ◌≡◌, sym, ◌∙◌, subst, inl, inr, true, false, Option, some, [], ◌∷◌, ◌++◌, length, ◌==◌,
  if◌then◌else◌, Option-cases, arith,
}
use quilkin.Common.Maps
use quilkin.Common.Order.{ℕ_ord}
use quilkin.Common.Sets
use quilkin.Common.Sets.{Set}
use quilkin.Net.Address.{
  Bytes, IpAddr, Locality, EndpointAddress, locality_key_ord, bytes_ord, address_ord,
}
use quilkin.Net.Cluster.{Env, EndpointSet}
use quilkin.Net.Cluster.Endpoints.Versions.{IsValid}
use quilkin.Net.Cluster.Clusters.{
  ClusterMap, applied, apply, apply_managed, addresses_for_token, other_manages,
}
use quilkin.Net.Cluster.Clusters.Invariant.{Inv}
use quilkin.Net.Cluster.Clusters.Routing.{apply_routed}
use quilkin.Filters.{Value, token_router, no_endpoint_match, passed, failed, new_read_context}
use quilkin.Filters.Capture.{present_suffix}
use quilkin.Filters.Chain.{chain_read}
use quilkin.Filters.Chain.Route.{route_by_token, chain_read-route_by_token}
use quilkin.Xds.{Resource}
use quilkin.Config.{Formats, Config, DatacenterMap, resource_type, cluster_type, IcaoCode}
use quilkin.Config.Bridge.{Bridge, new_bridge, drop_bridge, apply_changes}
use quilkin.Config.Apply.{apply_clusters, remove_localities, decode_cluster, apply_delta, icao_of}
use quilkin.Config.Bridged.{MapInv, maps-push}
use quilkin.Config.Keeps.{apply_delta-ConfigInv, decode_cluster-IsValid}

module _ {U P : Type 0} (env : Env U P) where
  managed-routes :
      (t : ℕ) (addrs : Set EndpointAddress) (l : Option Locality) (s : EndpointSet U P)
      (cm : ClusterMap U P)
      → Inv env cm
      → IsValid env s
      → Maps.get t s.token_map ≡ some addrs
      → Maps.get t (apply_managed env l s [] [] cm).cluster_map.token_map ≡ some addrs
  managed-routes t addrs l s cm i v e = apply_routed env t l s [] [] cm i v ∙ ground (arith, e)

  -- A set whose locality no other contributor manages routes its tokens.
  apply-routes :
      (t : ℕ) (addrs : Set EndpointAddress) (addr : Option IpAddr) (l : Option Locality)
      (s : EndpointSet U P) (cm : ClusterMap U P)
      → Inv env cm
      → IsValid env s
      → other_manages l addr cm ≡ false
      → Maps.get t s.token_map ≡ some addrs
      → ((apply env addr l s [] [] cm).0 ≡ applied)
        × (Maps.get t (apply env addr l s [] [] cm).1.cluster_map.token_map ≡ some addrs)
  unfolding apply
  apply-routes t addrs addr l s cm i v n e = elim (Option-cases (Maps.get l cm.localities)) [
    | inl f ↦
        let cm' : ClusterMap U P = record cm { localities = Maps.insert l addr cm.localities } in
        let i' : Inv env cm' = record {
          map_sorted = i.map_sorted;
          sets_valid = i.sets_valid;
          counted = i.counted;
        } in
        let routes = managed-routes t addrs l s cm' i' v e in
        (ground (arith, f), ground (arith, f, routes))
    | inr (manager, f) ↦
        let routes = managed-routes t addrs l s cm i v e in
        (ground (arith, f, n), ground (arith, f, n, routes))
  ]

  -- The map of a bridge after the changes of a set that is taken.
  apply_changes-routes :
      (t : ℕ) (addrs : Set EndpointAddress) (addr : Option IpAddr) (l : Option Locality)
      (icao : Option IcaoCode) (s : EndpointSet U P) (b : Bridge U P) (dcs : DatacenterMap)
      (cm : ClusterMap U P)
      → Inv env cm
      → IsValid env s
      → other_manages l addr cm ≡ false
      → Maps.get t s.token_map ≡ some addrs
      → b.maps ≡ some (dcs, cm)
      → (cm' : ClusterMap U P) × ((apply_changes env addr l icao s b).maps ≡ some (dcs, cm'))
        × (Maps.get t cm'.token_map ≡ some addrs)
  unfolding apply_changes
  apply_changes-routes t addrs addr l icao s b dcs cm i v n e m =
      let (taken, routes) = apply-routes t addrs addr l s cm i v n e in
      ((apply env addr l s [] [] cm).1.cluster_map, grind (arith, m, taken, maps-push), routes)

module _ {E F P U X : Type 0} (fmt : Formats E F P U X) (env : Env U P) where
  -- A response with one cluster, which decodes to a set for a locality.
  apply_delta-cluster :
      (ty : Bytes) (res : Resource P) (addr : Option IpAddr) (l : Option Locality)
      (s : EndpointSet U P) (client : Config F U P) (dcs : DatacenterMap) (cm cm' : ClusterMap U P)
      → resource_type ty ≡ some cluster_type
      → decode_cluster fmt env res ≡ some (l, s)
      → client.clusters ≡ some cm
      → ((apply_changes env addr l
            (icao_of fmt env addr client.datacenters)
            s
            (new_bridge client)).maps
          ≡ some (dcs, cm'))
      → ((apply_delta fmt env ty (res ∷ []) [] addr client).0 ≡ true)
        × ((apply_delta fmt env ty (res ∷ []) [] addr client).1.clusters ≡ some cm')
  unfolding apply_delta remove_localities apply_clusters drop_bridge
  apply_delta-cluster ty res addr l s client dcs cm cm' k d c m =
      (ground (arith, k, d, c), ground (arith, k, d, c, m))

  -- A client with datacenters and clusters, whose cluster map keeps its invariant, takes a response
  -- with one cluster, for a locality that no other contributor manages; then a packet that ends in a
  -- token of the cluster is routed to exactly the addresses that the cluster has for the token, and
  -- loses the token, and the map still keeps its invariant.
  pub apply_delta-route_by_token :
      {S : Type 0} (ty : Bytes) (res : Resource P) (addr : Option IpAddr) (l : Option Locality)
      (s : EndpointSet U P) (client : Config F U P) (dcs : DatacenterMap) (cm : ClusterMap U P)
      (key body token : Bytes) (addrs : Set EndpointAddress) (source : EndpointAddress) (state : S)
      → resource_type ty ≡ some cluster_type
      → decode_cluster fmt env res ≡ some (l, s)
      → client.datacenters ≡ some dcs
      → client.clusters ≡ some cm
      → Inv env cm
      → other_manages l addr cm ≡ false
      → Maps.get (env.hash_token token) s.token_map ≡ some addrs
      → let (is_ok, client') = apply_delta fmt env ty (res ∷ []) [] addr client in
        (is_ok ≡ true)
        × (cm' : ClusterMap U P) × (client'.clusters ≡ some cm')
        × Inv env cm'
        × (let ctx = new_read_context cm' source (body ++ token) [] in
            let routed = Sets.elements addrs in
            chain_read (route_by_token env.hash_token (length token) key) ctx state
            ≡ some (
              if length routed == 0
                  then failed (token_router (no_endpoint_match token))
                  else passed,
              record ctx {
                destinations = routed;
                contents = body;
                metadata =
                    Maps.insert key
                      (Value.bytes token)
                      (Maps.insert (key ++ present_suffix) (Value.bool true) []);
              },
              state,
            ))
  unfolding new_bridge addresses_for_token
  apply_delta-route_by_token ty res addr l s client dcs cm key body token addrs source state k d n c
        i o e =
      let t = env.hash_token token in
      let v = decode_cluster-IsValid fmt env res l s d in
      let icao = icao_of fmt env addr client.datacenters in
      let there : (new_bridge client).maps ≡ some (dcs, cm) = ground (arith, n, c) in
      let (cm', kept, routes) =
        apply_changes-routes env t addrs addr l icao s (new_bridge client) dcs cm i v o e there in
      let (is_ok, clusters) = apply_delta-cluster ty res addr l s client dcs cm cm' k d c kept in
      let h =
        apply_delta-ConfigInv fmt env ty (res ∷ []) [] addr client (subst (MapInv env) (sym c) i) in
      let found : addresses_for_token t cm' [] ≡ Sets.elements addrs = ground (arith, routes) in
      (
        is_ok,
        cm',
        clusters,
        subst (MapInv env) clusters h,
        rw (← found) (chain_read-route_by_token env.hash_token key body token cm' source state),
      )
