-- ===== src/Net/Cluster/Corrosion/Counted.antt =====
-- The counter of endpoints, and the metrics, after the rows of a subscription (src/net/cluster.rs).
use quilkin.Common.{◌%◌, ◌≡◌, Option, none, List, length, arith}
use quilkin.Common.Maps
use quilkin.Common.Maps.Sorted.{IsSorted, insert-IsSorted}
use quilkin.Net.Address.{Locality, locality_key_ord}
use quilkin.Net.Cluster.{Env}
use quilkin.Net.Cluster.Endpoints
use quilkin.Net.Cluster.Endpoints.{from_set, collect_endpoints, insert_all}
use quilkin.Net.Cluster.Clusters.{ClusterMap, u64_mod}
use quilkin.Net.Cluster.Clusters.Total.{total, total-insert}
use quilkin.Net.Cluster.Corrosion.{
  Event, SubMetrics, corrosion_apply, cluster_corrosion_apply, corrosion_set,
}

module _ {U R : Type 0} (env : Env U R) where
  length-corrosion_set :
      (corro : Option Locality) (cm : ClusterMap U R)
      → Maps.get corro cm.map ≡ none
      → length (corrosion_set env corro cm).endpoints ≡ 0
  unfolding Endpoints.new Endpoints.update from_set collect_endpoints insert_all
  length-corrosion_set corro cm e = ground (arith, e)

  -- Events of a subscription, whatever they are, keep the counter of endpoints the number of endpoints
  -- in the sets, on 64 bits, in a map in order; and the map stays in order.
  pub cluster_corrosion_apply-total :
      (corro : Option Locality) (events : List Event) (subm : SubMetrics) (cm : ClusterMap U R)
      → IsSorted cm.map
      → cm.num_endpoints ≡ total cm.map % u64_mod
      → (let cm' = (cluster_corrosion_apply env corro events subm cm).0 in
          (cm'.num_endpoints ≡ total cm'.map % u64_mod) × IsSorted cm'.map)
  unfolding cluster_corrosion_apply
  cluster_corrosion_apply-total corro events subm cm s counted =
      let set = corrosion_set env corro cm in
      let set' = (corrosion_apply env events set cm.token_map subm).0 in
      (
        ground (arith, counted, total-insert corro set' cm.map s, length-corrosion_set corro cm),
        insert-IsSorted corro set' cm.map s,
      )
