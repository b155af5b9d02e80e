-- ===== src/Tests/Corrosion.antt =====
-- The rows of a subscription at concrete inputs.
use quilkin.Common.{ℕ, ◌%◌, ◌≡◌, none, some, List, [], ◌∷◌}
use quilkin.Common.Maps
use quilkin.Common.Maps.Sorted.{IsSorted}
use quilkin.Common.Sets
use quilkin.Net.Address.{EndpointAddress, address_ord, bytes_ord, locality_key_ord}
use quilkin.Net.Cluster.{EndpointSet}
use quilkin.Net.Cluster.Clusters.{u64_mod}
use quilkin.Net.Cluster.Clusters.Total.{total}
use quilkin.Net.Cluster.Corrosion.{
  Event, change, ChangeType, row, end_of_query, stream_error, SubMetrics, corrosion_apply,
  cluster_corrosion_apply,
}
use quilkin.Net.Cluster.Corrosion.Replay.{tokens_of, replay, highest, corrosion_apply-replay}
use quilkin.Net.Cluster.Corrosion.Counted.{cluster_corrosion_apply-total}
use quilkin.Tests.Cluster.{small_env, host, token, here, cluster, cluster-Inv}

abbrev none_yet : EndpointSet ℕ ℕ
none_yet = record { endpoints = []; token_map = []; hash = 0; change_id = 0; cache = none }

abbrev joins : Event
joins = row (some (record { address = host 1; tokens = Sets.of_list (token ∷ []) }))

abbrev changes : Event
changes =
    change ChangeType.update
      (some (record { address = host 1; tokens = Sets.of_list ((4 ∷ []) ∷ []) })) 7

abbrev leaves : Event
leaves = change ChangeType.delete (some (record { address = host 1; tokens = [] })) 6

abbrev events : List Event
events = joins ∷ end_of_query (some 5) ∷ changes ∷ stream_error ∷ leaves ∷ []

abbrev uncounted : SubMetrics
uncounted = record { total_events = 0; failures = 0 }

corrosion_apply-replay_example :
    (let set' = (corrosion_apply small_env events none_yet [] uncounted).0 in
      ((a : EndpointAddress)
        → tokens_of (Maps.get a set'.endpoints)
          ≡ replay events a (tokens_of (Maps.get a none_yet.endpoints)))
      × (set'.change_id ≡ highest events 0))
corrosion_apply-replay_example = corrosion_apply-replay small_env events none_yet [] uncounted

cluster_corrosion_apply-total_example :
    (let cm' = (cluster_corrosion_apply small_env here events uncounted cluster).0 in
      (cm'.num_endpoints ≡ total cm'.map % u64_mod) × IsSorted cm'.map)
cluster_corrosion_apply-total_example =
    cluster_corrosion_apply-total small_env here events uncounted cluster cluster-Inv.map_sorted
      cluster-Inv.counted
