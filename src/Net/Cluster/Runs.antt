-- ===== src/Net/Cluster/Runs.antt =====
-- Runs of a cluster map: calls of its operations (src/net/cluster.rs), one after the other. The events
-- of corrosion are not among them: they leave tokens of rows that are gone in the map of a set.
use quilkin.Common.{◌<◌, ◌^◌, Bool, Option, List, [], ◌∷◌, length, All}
use quilkin.Net.Address.{IpAddr, Locality}
use quilkin.Net.Cluster.{EndpointMetadata, Endpoint, Env, EndpointSet}
use quilkin.Net.Cluster.Endpoints.Versions.{IsValid}
use quilkin.Net.Cluster.Clusters.{
  ClusterMap, EndpointSetUpdateAction, remove_contributor, remove_locality,
  update_unlocated_endpoints, cluster_partial_replace, apply, insert,
}
use quilkin.Net.Cluster.Clusters.Invariant.{
  Inv, remove_contributor-Inv, remove_locality-Inv, update_unlocated-Inv, partial_replace-Inv,
  apply-Inv, insert-Inv,
}
use quilkin.Net.Cluster.Batch.{batch_modify}
use quilkin.Net.Cluster.Batch.Count.{batch_modify-Inv}

-- A call with its arguments: of `insert`, `apply`, `partial_replace`, `remove_locality`,
-- `remove_contributor`, `update_unlocated_endpoints` and the modification of a set by a batch, all that
-- change a map but `corrosion_apply`.
pub data Call (U R : Type 0) : Type 0 where
  inserts : Option IpAddr → Option Locality → List (Endpoint U) → Call U R
  applies : Option IpAddr → Option Locality → EndpointSet U R → Call U R
  partially_replaces : Option Locality → EndpointSet U R → (EndpointMetadata U → Bool) → Call U R
  removes_locality : Option IpAddr → Option Locality → Call U R
  removes_contributor : Option IpAddr → Call U R
  locates : Option IpAddr → Locality → Call U R
  modifies : Option Locality → List (EndpointSetUpdateAction U) → Call U R

module _ {U R : Type 0} (env : Env U R) where
  unfoldable pub call : Call U R → ClusterMap U R → ClusterMap U R
  call (inserts remote locality eps) cm = insert env remote locality eps cm
  call (applies remote locality set) cm = (apply env remote locality set [] [] cm).1.cluster_map
  call (partially_replaces locality set test) cm = cluster_partial_replace env locality set test cm
  call (removes_locality remote locality) cm = (remove_locality remote locality cm).1
  call (removes_contributor remote) cm = remove_contributor remote cm
  call (locates remote locality) cm = update_unlocated_endpoints remote locality cm
  call (modifies locality batch) cm = batch_modify env locality batch cm

  unfoldable pub run : List (Call U R) → ClusterMap U R → ClusterMap U R
  run [] cm = cm
  run (c ∷ calls) cm = run calls (call c cm)

  -- The sets that a call is given are valid, and its batch has fewer than 2^31 actions.
  abbrev IsProper : Call U R → Type 0
  IsProper (applies remote locality set) = IsValid env set
  IsProper (partially_replaces locality set test) = IsValid env set
  IsProper (modifies locality batch) = length batch < 2 ^ 31
  IsProper _ = Unit

  call-Inv : (c : Call U R) (cm : ClusterMap U R) → IsProper c → Inv env cm → Inv env (call c cm)
  unfolding call
  call-Inv (inserts r l eps) cm p i = insert-Inv env r l eps cm i
  call-Inv (applies r l s) cm p i = apply-Inv env r l s [] [] cm p i
  call-Inv (partially_replaces l s t) cm p i = partial_replace-Inv env l s t cm p i
  call-Inv (removes_locality r l) cm p i = remove_locality-Inv env r l cm i
  call-Inv (removes_contributor r) cm p i = remove_contributor-Inv env r cm i
  call-Inv (locates r l) cm p i = update_unlocated-Inv env r l cm i
  call-Inv (modifies l batch) cm p i = batch_modify-Inv env l batch cm p i

  -- Whatever calls of `insert`, `apply`, `partial_replace`, `remove_locality`, `remove_contributor`,
  -- `update_unlocated_endpoints` and `batch_modify` are made (not of `corrosion_apply`), with valid sets and batches of fewer than 2^31 actions, a map that starts
  -- with the invariant ends with it: its sets are valid, and its counter is the number of endpoints in
  -- them, on 64 bits.
  pub run-Inv :
      (calls : List (Call U R)) (cm : ClusterMap U R)
      → All IsProper calls
      → Inv env cm
      → Inv env (run calls cm)
  unfolding run
  run-Inv [] cm p i = i
  run-Inv (c ∷ calls) cm p i = run-Inv calls (call c cm) p.1 (call-Inv c cm p.0 i)
