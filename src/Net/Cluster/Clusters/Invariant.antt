-- ===== src/Net/Cluster/Clusters/Invariant.antt =====
-- The invariant of a cluster map (src/net/cluster.rs), and its operations.
use quilkin.Common.{
  ℕ, ◌%◌, ◌≡◌, refl, ap, [], Bool, Option, none, some, List, length, arith, inl, inr, Option-cases,
}
use quilkin.Common.Maps
use quilkin.Common.Maps.Sorted.{IsSorted, insert-IsSorted, remove-IsSorted}
use quilkin.Net.Address.{IpAddr, EndpointAddress, Locality, locality_key_ord}
use quilkin.Net.Cluster.{EndpointMetadata, Endpoint, Env, EndpointSet, TokenAddressMap}
use quilkin.Net.Cluster.Endpoints.{Upserts, replace, partial_replace, new}
use quilkin.Net.Cluster.Endpoints.Versions.{
  IsValid, endpoints-replace, new-IsValid, replace-IsValid, partial_replace-IsValid,
}
use quilkin.Net.Cluster.Clusters.Total.{
  total, total-insert, total-remove, AllValid, insert-AllValid, remove-AllValid, get-AllValid,
}
use quilkin.Net.Cluster.Clusters.{
  ClusterMap, count_change, u64_mod, empty, insert_new, do_remove_locality, remove_contributor,
  remove_locality, update_unlocated_endpoints, cluster_partial_replace, apply_managed, apply,
  insert,
}

module _ {U R : Type 0} (env : Env U R) where
  -- The sets are valid, the maps in order, and the counter is the number of endpoints on 64 bits.
  pub record Inv (cm : ClusterMap U R) : Type 0 where
    pub map_sorted : IsSorted cm.map
    pub sets_valid : AllValid env cm.map
    pub counted : cm.num_endpoints ≡ total cm.map % u64_mod

  pub empty-Inv : Inv empty
  unfolding empty
  empty-Inv = record { map_sorted = tt; sets_valid = tt; counted = refl }

  insert_new-Inv :
      (l : Option Locality) (s : EndpointSet U R) (cm : ClusterMap U R)
      → IsValid env s
      → Inv cm
      → Maps.get l cm.map ≡ none
      → Inv (insert_new l s cm)
  unfolding insert_new
  insert_new-Inv l s cm v i e = record {
    map_sorted = insert-IsSorted l s cm.map i.map_sorted;
    sets_valid = insert-AllValid env l s cm.map v i.sets_valid;
    counted = ground (arith, total-insert l s cm.map i.map_sorted, i.counted);
  }

  pub do_remove_locality-Inv :
      (l : Option Locality) (cm : ClusterMap U R) → Inv cm → Inv (do_remove_locality l cm).1
  unfolding do_remove_locality
  do_remove_locality-Inv l cm i = ground (
    arith,
    total-remove l cm.map i.map_sorted,
    i.counted,
    remove-IsSorted l cm.map i.map_sorted,
    remove-AllValid env l cm.map i.sets_valid,
  )

  -- Removing a locality keeps the invariant of the map.
  pub remove_locality-Inv :
      (r : Option IpAddr) (l : Option Locality) (cm : ClusterMap U R)
      → Inv cm
      → Inv (remove_locality r l cm).1
  unfolding remove_locality
  remove_locality-Inv r l cm i = ground (arith, i, do_remove_locality-Inv l cm i)

  pub remove_contributor-Inv :
      (r : Option IpAddr) (cm : ClusterMap U R) → Inv cm → Inv (remove_contributor r cm)
  unfolding remove_contributor
  remove_contributor-Inv r cm i = record {
    map_sorted = i.map_sorted;
    sets_valid = i.sets_valid;
    counted = i.counted;
  }

  -- Giving a locality to the endpoints without one keeps the invariant of the map.
  pub update_unlocated-Inv :
      (r : Option IpAddr) (l : Locality) (cm : ClusterMap U R)
      → Inv cm
      → Inv (update_unlocated_endpoints r l cm)
  unfolding update_unlocated_endpoints
  update_unlocated-Inv r l cm i =
      let rest = Maps.remove none cm.map in
      let sorted = remove-IsSorted none cm.map i.map_sorted in
      elim (Option-cases (Maps.get none cm.map)) [
        | inl e ↦ ground (arith, e, i.map_sorted, i.sets_valid, i.counted)
        | inr (s, e) ↦ ground (
          arith,
          e,
          i.map_sorted,
          i.sets_valid,
          i.counted,
          insert-IsSorted (some l) s rest sorted,
          insert-AllValid env (some l) s rest (get-AllValid env none s cm.map i.sets_valid e)
              (remove-AllValid env none cm.map i.sets_valid),
          total-insert (some l) s rest sorted,
          total-remove none cm.map i.map_sorted,
        )
      ]

  -- A set that replaces another one under the same locality.
  set_replaced-Inv :
      (l : Option Locality) (s t : EndpointSet U R) (tm : TokenAddressMap) (m n : ℕ)
      (cm : ClusterMap U R)
      → Maps.get l cm.map ≡ some s
      → length t.endpoints ≡ m
      → IsValid env t
      → Inv cm
      → Inv (record cm {
        map = Maps.insert l t cm.map;
        token_map = tm;
        num_endpoints = count_change m (length s.endpoints) cm.num_endpoints;
        version = n;
      })
  set_replaced-Inv l s t tm m n cm e k v i = record {
    map_sorted = insert-IsSorted l t cm.map i.map_sorted;
    sets_valid = insert-AllValid env l t cm.map v i.sets_valid;
    counted = ground (arith, e, k, total-insert l t cm.map i.map_sorted, i.counted);
  }

  -- `partial_replace` with a valid set keeps the invariant of the map.
  pub partial_replace-Inv :
      (l : Option Locality) (s : EndpointSet U R) (p : EndpointMetadata U → Bool)
      (cm : ClusterMap U R)
      → IsValid env s
      → Inv cm
      → Inv (cluster_partial_replace env l s p cm)
  unfolding cluster_partial_replace
  partial_replace-Inv l s p cm v i = elim (Option-cases (Maps.get l cm.map)) [
    | inl e ↦ rw (e, cluster_partial_replace) (insert_new-Inv l s cm v i e)
    | inr (c, e) ↦
        rw (e, cluster_partial_replace)
          (unfold partial_replace in
            set_replaced-Inv l c (partial_replace env s p c).0 _ _ _ cm e refl
              (partial_replace-IsValid env c s p (get-AllValid env l c cm.map i.sets_valid e)) i)
  ]

  apply_managed-Inv :
      (l : Option Locality) (s : EndpointSet U R) (removed : List EndpointAddress)
      (upserted : Upserts) (cm : ClusterMap U R)
      → IsValid env s
      → Inv cm
      → Inv (apply_managed env l s removed upserted cm).cluster_map
  unfolding apply_managed
  apply_managed-Inv l s removed upserted cm v i = elim (Option-cases (Maps.get l cm.map)) [
    | inl e ↦ rw (e, apply_managed) (insert_new-Inv l s cm v i e)
    | inr (c, e) ↦
        rw (e, apply_managed)
          (set_replaced-Inv l c (replace env s removed upserted c).0 _ _ _ cm e
            (ap length (endpoints-replace env c s removed upserted))
            (replace-IsValid env c s removed upserted v) i)
  ]

  -- `apply` of a valid set keeps the invariant of the map, whether it is accepted or refused.
  pub apply-Inv :
      (r : Option IpAddr) (l : Option Locality) (s : EndpointSet U R)
      (removed : List EndpointAddress) (upserted : Upserts) (cm : ClusterMap U R)
      → IsValid env s
      → Inv cm
      → Inv (apply env r l s removed upserted cm).1.cluster_map
  unfolding apply
  apply-Inv r l s removed upserted cm v i = ground (
    arith,
    i,
    apply_managed-Inv l s removed upserted cm v i,
    apply_managed-Inv l s removed upserted
        (record cm { localities = Maps.insert l r cm.localities }) v
        (record { map_sorted = i.map_sorted; sets_valid = i.sets_valid; counted = i.counted }),
  )

  pub insert-Inv :
      (r : Option IpAddr) (l : Option Locality) (eps : List (Endpoint U)) (cm : ClusterMap U R)
      → Inv cm
      → Inv (insert env r l eps cm)
  unfolding insert
  insert-Inv r l eps cm i = apply-Inv r l (new env eps) [] [] cm (new-IsValid env eps) i
