-- ===== src/Tests/Routes.antt =====
-- A client that is sent a cluster, and operations on configurations, at concrete inputs.
use quilkin.Common.{
  ℕ, ◌≡◌, refl, true, false, none, some, List, [], ◌∷◌, ◌++◌, length, ◌==◌, if◌then◌else◌,
}
use quilkin.Common.Maps
use quilkin.Common.Order.{ℕ_ord}
use quilkin.Common.Order.Derive.{list_ord}
use quilkin.Common.Sets
use quilkin.Common.Sets.{Set}
use quilkin.Net.Address.{v4, EndpointAddress, locality_key_ord, bytes_ord, address_ord}
use quilkin.Net.Cluster.{EndpointSet}
use quilkin.Net.Cluster.Tokens.{collect_tokens, add_tokens, add_address}
use quilkin.Net.Cluster.Endpoints.{
  with_version, from_set, build_token_map, collect_endpoints, insert_all,
}
use quilkin.Net.Cluster.Clusters.{ClusterMap, empty, other_manages}
use quilkin.Net.Cluster.Clusters.Invariant.{Inv, empty-Inv}
use quilkin.Filters.{Value, token_router, no_endpoint_match, passed, failed, new_read_context}
use quilkin.Filters.Capture.{present_suffix}
use quilkin.Filters.Chain.{chain_read}
use quilkin.Filters.Chain.Route.{route_by_token}
use quilkin.Xds.{Resource, ClientState}
use quilkin.Config.{Config, DatacenterMap}
use quilkin.Config.Apply.{apply_delta, decode_cluster}
use quilkin.Config.Bridged.{ConfigInv}
use quilkin.Config.Operations.{Operation, answers, takes, loses, operate_all, operate_all-ConfigInv}
use quilkin.Config.Routes.{apply_delta-route_by_token}
use quilkin.Tests.Cluster.{small_env, server, host, token}
use quilkin.Tests.Config.{small_formats, cluster_url, cluster_url-resource_type}

abbrev no_datacenters : DatacenterMap
no_datacenters = record { map = []; removed = []; version = 0 }

abbrev client : Config ℕ ℕ ℕ
client = record {
  id = 99 ∷ [];
  icao_code = [];
  qcmp_port = none;
  filters = none;
  clusters = some empty;
  datacenters = some no_datacenters;
  db_tx = some [];
}

-- The cluster of the first server, at version 9.
abbrev sent : Resource ℕ
sent = record { name = []; version = 9 ∷ []; payload = some 1 }

abbrev set : EndpointSet ℕ ℕ
set = with_version small_env (server 1 ∷ []) 9

sent-decode_cluster : decode_cluster small_formats small_env sent ≡ some (none, set)
unfolding decode_cluster
sent-decode_cluster = refl

free : other_manages none (some (v4 8)) (empty {U = ℕ} {R = ℕ}) ≡ false
unfolding empty Maps.get
free = refl

abbrev addrs : Set EndpointAddress
addrs = (host 1, tt) ∷ []

set-token : Maps.get 3 set.token_map ≡ some addrs
unfolding with_version from_set build_token_map collect_endpoints insert_all collect_tokens
    add_tokens add_address Maps.get Maps.insert address_ord bytes_ord list_ord
set-token = refl

apply_delta-route_by_token_example :
    let (is_ok, client') =
      apply_delta small_formats small_env cluster_url (sent ∷ []) [] (some (v4 8)) client in
    (is_ok ≡ true)
    × (cm' : ClusterMap ℕ ℕ) × (client'.clusters ≡ some cm')
    × Inv small_env cm'
    × (let ctx = new_read_context cm' (host 7) (4 ∷ 4 ∷ token) [] in
        let routed = Sets.elements addrs in
        chain_read {S = ℕ} (route_by_token small_env.hash_token 3 (107 ∷ [])) ctx 0
        ≡ some (
          if length routed == 0 then failed (token_router (no_endpoint_match token)) else passed,
          record ctx {
            destinations = routed;
            contents = 4 ∷ 4 ∷ [];
            metadata =
                Maps.insert
                  (107 ∷ [])
                  (Value.bytes token)
                  (Maps.insert ((107 ∷ []) ++ present_suffix) (Value.bool true) []);
          },
          0,
        ))
apply_delta-route_by_token_example =
    apply_delta-route_by_token small_formats small_env cluster_url sent (some (v4 8)) none set
      client no_datacenters empty (107 ∷ []) (4 ∷ 4 ∷ []) token addrs (host 7) 0
      cluster_url-resource_type sent-decode_cluster refl refl (empty-Inv small_env) free set-token

abbrev asking : ClientState
asking = record { resource_type = cluster_url; versions = []; subscribed = ([], tt) ∷ [] }

abbrev operations : List (Operation ℕ)
operations =
    takes cluster_url (sent ∷ record sent { payload = none } ∷ []) ((97 ∷ []) ∷ []) (some (v4 8))
    ∷ answers asking
    ∷ loses (v4 8)
    ∷ []

operate_all-ConfigInv_example :
    ConfigInv small_env (operate_all small_formats small_env operations client)
operate_all-ConfigInv_example =
    operate_all-ConfigInv small_formats small_env operations client (empty-Inv small_env)
