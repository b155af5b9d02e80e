-- ===== src/Net/Cluster/Batch.antt =====
-- Batches of updates (src/net/cluster.rs): `apply_update_batch_to_guard`, `batch_modify` and the
-- update batcher, whose queue is a list that pushes extend and a flush empties.
pub mod Count
use quilkin.Common.{
  ℕ, ◌+◌, ◌-◌, ◌%◌, Bool, true, false, not, Option, none, some, List, [], ◌∷◌, ◌++◌, if◌then◌else◌,
  is_some, length, ◌==◌,
}
use quilkin.Common.Maps
use quilkin.Net.Address.{Locality, locality_key_ord}
use quilkin.Net.Cluster.{EndpointMetadata, Env, EndpointSet}
use quilkin.Net.Cluster.Endpoints.{
  EndpointSetWriteGuard, new, modify, replace_endpoint, remove_endpoint, remove_endpoint_if,
  drop_guard,
}
use quilkin.Net.Cluster.Clusters.{
  ClusterMap, EndpointSetUpdateAction, upsert, remove_by_endpoint, remove_by_name, u32_mod,
  fetch_add, fetch_sub, is_positive, unsigned_abs, do_remove_locality, cluster_partial_replace,
}

-- `added_removed += 1` and `-= 1` on 32 bits.
abbrev increment : ℕ → ℕ
increment x = (x + 1) % u32_mod

abbrev decrement : ℕ → ℕ
decrement x = (x + (u32_mod - 1)) % u32_mod

module _ {U R : Type 0} (env : Env U R) where
  -- One round of the loop: the guard, and what was added or removed so far.
  unfoldable pub apply_action :
      EndpointSetUpdateAction U → EndpointSetWriteGuard U R → ℕ → EndpointSetWriteGuard U R × ℕ
  apply_action (upsert ep) guard added_removed =
      let (guard', replaced) = replace_endpoint ep guard in
      (guard', if is_some replaced then added_removed else increment added_removed)
  apply_action (remove_by_endpoint ep) guard added_removed =
      let (guard', gone) = remove_endpoint ep guard in
      (guard', if gone then decrement added_removed else added_removed)
  apply_action (remove_by_name name) guard added_removed =
      let (guard', gone) = remove_endpoint_if (λ md. env.has_name md.unknown name) guard in
      (guard', if gone then decrement added_removed else added_removed)

  unfoldable pub apply_update_batch_to_guard :
      List (EndpointSetUpdateAction U)
      → EndpointSetWriteGuard U R
      → ℕ
      → EndpointSetWriteGuard U R × ℕ
  unfolding apply_action
  apply_update_batch_to_guard [] guard added_removed = (guard, added_removed)
  apply_update_batch_to_guard (action ∷ batch) guard added_removed =
      let (guard', added_removed') = apply_action action guard added_removed in
      apply_update_batch_to_guard batch guard' added_removed'

  abbrev pub or_new : Option (EndpointSet U R) → EndpointSet U R
  or_new none = new env []
  or_new (some set) = set

  -- The map with the set written back, and the counter moved by what the batch counted.
  unfoldable pub write_set : Option Locality → EndpointSet U R → ℕ → ClusterMap U R → ClusterMap U R
  write_set locality set added_removed cm = record cm {
    map = Maps.insert locality set cm.map;
    num_endpoints =
        if is_positive added_removed
        then fetch_add cm.num_endpoints (unsigned_abs added_removed)
        else fetch_sub cm.num_endpoints (unsigned_abs added_removed);
  }

  unfoldable pub batch_modify :
      Option Locality → List (EndpointSetUpdateAction U) → ClusterMap U R → ClusterMap U R
  batch_modify locality batch cm =
      let (guard, added_removed) =
        apply_update_batch_to_guard batch (modify (or_new (Maps.get locality cm.map))) 0 in
      let set = drop_guard env guard in
      let cm1 = write_set locality set added_removed cm in
      let cm2 = if length set.endpoints == 0 then (do_remove_locality locality cm1).1 else cm1 in
      record cm2 { version = fetch_add cm2.version 1 }

-- The batcher's queue beside the map that it updates.
pub record Batcher (U R : Type 0) : Type 0 where
  pub cluster_map : ClusterMap U R
  pub locality : Option Locality
  pub updates : List (EndpointSetUpdateAction U)

module _ {U R : Type 0} where
  unfoldable push : EndpointSetUpdateAction U → Batcher U R → Batcher U R
  push update b = record b { updates = b.updates ++ update ∷ [] }

module _ {U R : Type 0} (env : Env U R) where
  unfoldable flush : Batcher U R → Batcher U R
  unfolding batch_modify
  flush b = record b {
    cluster_map =
        if length b.updates == 0
        then b.cluster_map
        else batch_modify env b.locality b.updates b.cluster_map;
    updates = [];
  }

  -- What is queued goes in before the replacement.
  unfoldable batcher_partial_replace :
      EndpointSet U R → (EndpointMetadata U → Bool) → Batcher U R → Batcher U R
  unfolding flush cluster_partial_replace
  batcher_partial_replace set should_be_replaced b =
      let b' = flush b in
      record b' {
        cluster_map = cluster_partial_replace env b'.locality set should_be_replaced b'.cluster_map;
      }
