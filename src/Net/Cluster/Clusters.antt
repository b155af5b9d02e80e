-- ===== src/Net/Cluster/Clusters.antt =====
-- `ClusterMap` of src/net/cluster.rs. Its counters are 64 bits wide and wrap; an operation takes the
-- map and returns it. The maps are read in the order of their keys.
pub mod Total
pub mod Invariant
pub mod Routing
pub mod Index
pub mod Owner
use quilkin.Common.{
  ℕ, ◌+◌, ◌-◌, ◌%◌, ◌^◌, Bool, true, false, not, Option, none, some, List, [], ◌∷◌, ◌++◌, map,
  if◌then◌else◌, is_some, keep, length, ltb, leb, ◌==◌, get_elem?,
}
use quilkin.Common.Order.{Ord, same, ℕ_ord}
use quilkin.Common.Maps
use quilkin.Common.Maps.{Map}
use quilkin.Common.Sets
use quilkin.Common.Sets.{Set}
use quilkin.Net.Address.{
  Bytes, IpAddr, EndpointAddress, Locality, address_ord, locality_key_ord, contributor_ord,
}
use quilkin.Net.Cluster.{EndpointMetadata, Endpoint, InnerMap, TokenAddressMap, Env, EndpointSet}
use quilkin.Net.Cluster.Tokens.{apply_diff}
use quilkin.Net.Cluster.Endpoints.{
  Upserts, EndpointSetWriteGuard, new, replace, partial_replace, to_map, endpoint_iter, modify,
  replace_endpoint, remove_endpoint, remove_endpoint_if, drop_guard,
}

abbrev pub u64_mod : ℕ
u64_mod = 2 ^ 64

abbrev pub u32_mod : ℕ
u32_mod = 2 ^ 32

-- `fetch_add` and `fetch_sub` of an atomic counter.
abbrev pub fetch_add : ℕ → ℕ → ℕ
fetch_add a b = (a + b) % u64_mod

abbrev pub fetch_sub : ℕ → ℕ → ℕ
fetch_sub a b = (a + (u64_mod - b % u64_mod)) % u64_mod

-- An `i32` as its 32 bits.
abbrev pub is_positive : ℕ → Bool
is_positive x = if x == 0 then false else ltb x (2 ^ 31)

abbrev pub unsigned_abs : ℕ → ℕ
unsigned_abs x = if ltb x (2 ^ 31) then x else u32_mod - x

abbrev pub ClusterSets : Type 0 → Type 0 → Type 0
ClusterSets U R = Map (Option Locality) (EndpointSet U R)

pub record ClusterMap (U R : Type 0) : Type 0 where
  pub map : ClusterSets U R
  pub localities : Map (Option Locality) (Option IpAddr)
  pub token_map : TokenAddressMap
  pub num_endpoints : ℕ
  pub version : ℕ

pub data EndpointSetUpdateAction (U : Type 0) : Type 0 where
  upsert : Endpoint U → EndpointSetUpdateAction U
  remove_by_endpoint : Endpoint U → EndpointSetUpdateAction U
  remove_by_name : Bytes → EndpointSetUpdateAction U

-- Why `apply` refuses: the contributor that manages the locality.
pub data Applied : Type 0 where
  applied : Applied
  managed_by : Option IpAddr → Applied

-- The map that `apply` leaves, with what it pushed to the lists that its caller gave it.
pub record Reported (U R : Type 0) : Type 0 where
  pub cluster_map : ClusterMap U R
  pub removed : List EndpointAddress
  pub upserted : Upserts

abbrev pub add_all : TokenAddressMap → TokenAddressMap → TokenAddressMap
add_all [] tm = tm
add_all ((token, addrs) ∷ new_map) tm = add_all new_map (Maps.insert token addrs tm)

-- The counter after a set of `old_len` endpoints became one of `new_len`.
abbrev pub count_change : ℕ → ℕ → ℕ → ℕ
count_change new_len old_len n =
    if leb old_len new_len then fetch_add n (new_len - old_len) else fetch_sub n (old_len - new_len)

-- The first locality that the contributor with this address manages.
unfoldable pub locality_for_ip : IpAddr → Map (Option Locality) (Option IpAddr) → Option Locality
locality_for_ip ip [] = none
locality_for_ip ip ((some locality, v) ∷ rest) =
    if same v (some ip) then some locality else locality_for_ip ip rest
locality_for_ip ip ((none, v) ∷ rest) = locality_for_ip ip rest

module _ {U R : Type 0} where
  unfoldable pub empty : ClusterMap U R
  empty = record { map = []; localities = []; token_map = []; num_endpoints = 0; version = 0 }

  -- A locality that was not there before comes with its whole token map.
  unfoldable pub insert_new : Option Locality → EndpointSet U R → ClusterMap U R → ClusterMap U R
  insert_new locality set cm = record cm {
    map = Maps.insert locality set cm.map;
    token_map = add_all set.token_map cm.token_map;
    num_endpoints = fetch_add cm.num_endpoints (length set.endpoints);
    version = fetch_add cm.version 1;
  }

  unfoldable pub do_remove_locality :
      Option Locality → ClusterMap U R → Option (EndpointSet U R) × ClusterMap U R
  do_remove_locality locality cm =
      let cm' : ClusterMap U R = record cm {
        map = Maps.remove locality cm.map;
        localities = Maps.remove locality cm.localities;
      } in
      elim (Maps.get locality cm.map) [
        | none ↦ (none, cm')
        | some ret ↦ (
          some ret,
          record cm' {
            version = fetch_add cm.version 1;
            num_endpoints = fetch_sub cm.num_endpoints (length ret.endpoints);
          },
        )
      ]

  unfoldable pub remove_contributor : Option IpAddr → ClusterMap U R → ClusterMap U R
  remove_contributor remote_addr cm = record cm {
    localities = keep (λ e. not (same e.1 remote_addr)) cm.localities;
  }

  -- Whether the locality is managed by another contributor.
  abbrev pub other_manages : Option Locality → Option IpAddr → ClusterMap U R → Bool
  other_manages locality remote_addr cm = elim (Maps.get locality cm.localities) [
    | none ↦ false
    | some raddr ↦ not (same raddr remote_addr)
  ]

  unfoldable pub remove_locality :
      Option IpAddr → Option Locality → ClusterMap U R → Option (EndpointSet U R) × ClusterMap U R
  unfolding do_remove_locality
  remove_locality remote_addr locality cm =
      if other_manages locality remote_addr cm then (none, cm) else do_remove_locality locality cm

  unfoldable pub update_unlocated_endpoints :
      Option IpAddr → Locality → ClusterMap U R → ClusterMap U R
  update_unlocated_endpoints remote_addr locality cm =
      if other_manages none remote_addr cm
      then cm
      else let localities' =
          Maps.insert (some locality) remote_addr (Maps.remove none cm.localities) in
        elim (Maps.get none cm.map) [
          | none ↦ record cm { localities = localities' }
          | some set ↦
              let rest = Maps.remove none cm.map in
              record cm {
                localities = localities';
                version = fetch_add cm.version 1;
                map = Maps.insert (some locality) set rest;
                num_endpoints = elim (Maps.get (some locality) rest) [
                  | none ↦ cm.num_endpoints
                  | some replaced ↦ fetch_sub cm.num_endpoints (length replaced.endpoints)
                ];
              }
        ]

  unfoldable pub endpoints : ClusterSets U R → List (Endpoint U)
  unfolding endpoint_iter
  endpoints [] = []
  endpoints ((locality, set) ∷ sets) = endpoint_iter set ++ endpoints sets

  -- The loop of `nth_endpoint` over the sets that are left.
  unfoldable pub nth_endpoint : ClusterSets U R → ℕ → Option (Endpoint U)
  nth_endpoint [] index = none
  nth_endpoint ((locality, set) ∷ sets) index =
      if ltb index (length set.endpoints)
      then elim (get_elem? set.endpoints index) [
        | none ↦ none
        | some e ↦ some (record { address = e.0; metadata = e.1 })
      ]
      else nth_endpoint sets (index - length set.endpoints)

  abbrev pub num_of_endpoints : ClusterMap U R → ℕ
  num_of_endpoints cm = cm.num_endpoints

  abbrev pub has_endpoints : ClusterMap U R → Bool
  has_endpoints cm = not (num_of_endpoints cm == 0)

  unfoldable pub addresses_for_token :
      ℕ → ClusterMap U R → List EndpointAddress → List EndpointAddress
  addresses_for_token token cm addrs = elim (Maps.get token cm.token_map) [
    | none ↦ addrs
    | some ma ↦ addrs ++ Sets.elements ma
  ]

module _ {U R : Type 0} (env : Env U R) where
  unfoldable pub cluster_partial_replace :
      Option Locality
      → EndpointSet U R
      → (EndpointMetadata U → Bool)
      → ClusterMap U R
      → ClusterMap U R
  unfolding insert_new partial_replace
  cluster_partial_replace locality set should_be_replaced cm = elim (Maps.get locality cm.map) [
    | none ↦ insert_new locality set cm
    | some current ↦
        let (current', new_len, old_len, diff) =
          partial_replace env set should_be_replaced current in
        record cm {
          map = Maps.insert locality current' cm.map;
          token_map = apply_diff diff cm.token_map;
          num_endpoints = count_change new_len old_len cm.num_endpoints;
          version = fetch_add cm.version 1;
        }
  ]

  -- `apply` once the contributor is known to manage the locality.
  unfoldable pub apply_managed :
      Option Locality
      → EndpointSet U R
      → List EndpointAddress
      → Upserts
      → ClusterMap U R
      → Reported U R
  unfolding insert_new replace to_map
  apply_managed locality cluster removed upserted cm = elim (Maps.get locality cm.map) [
    | none ↦ record {
      cluster_map = insert_new locality cluster cm;
      removed = removed;
      upserted = upserted ++ to_map cluster;
    }
    | some current ↦
        let (current', removed', upserted', old_len, diff) =
          replace env cluster removed upserted current in
        record {
          cluster_map = record cm {
            map = Maps.insert locality current' cm.map;
            token_map = apply_diff diff cm.token_map;
            num_endpoints = count_change (length cluster.endpoints) old_len cm.num_endpoints;
            version = fetch_add cm.version 1;
          };
          removed = removed';
          upserted = upserted';
        }
  ]

  unfoldable pub apply :
      Option IpAddr
      → Option Locality
      → EndpointSet U R
      → List EndpointAddress
      → Upserts
      → ClusterMap U R
      → Applied × Reported U R
  unfolding apply_managed
  apply remote_addr locality cluster removed upserted cm = elim (Maps.get locality cm.localities) [
    | some raddr ↦
        if same raddr remote_addr
        then (applied, apply_managed locality cluster removed upserted cm)
        else (managed_by raddr, record { cluster_map = cm; removed = removed; upserted = upserted })
    | none ↦ (
      applied,
      apply_managed locality cluster removed upserted
          (record cm { localities = Maps.insert locality remote_addr cm.localities }),
    )
  ]

  unfoldable pub insert :
      Option IpAddr → Option Locality → List (Endpoint U) → ClusterMap U R → ClusterMap U R
  unfolding apply new
  insert remote_addr locality cluster cm =
      (apply remote_addr locality (new env cluster) [] [] cm).1.cluster_map
