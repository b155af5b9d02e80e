-- ===== src/Net/Cluster/Clusters/Owner.antt =====
-- The contributors that manage localities (src/net/cluster.rs): `apply` and `remove_locality`.
use quilkin.Common.{
  ◌+◌, ◌%◌, ◌≡◌, ◌≢◌, refl, Option, none, some, ◌⊎◌, List, arith, inl, inr, Option-cases,
  Bool-cases, ap, ◌∙◌,
}
use quilkin.Common.Order.{same, same→eq, same-ne}
use quilkin.Common.Maps
use quilkin.Common.Maps.{get-insert, get-remove, get-insert_self, get-remove_self}
use quilkin.Net.Address.{IpAddr, EndpointAddress, Locality, locality_key_ord, contributor_ord}
use quilkin.Net.Cluster.{Env, EndpointSet}
use quilkin.Net.Cluster.Endpoints.{Upserts}
use quilkin.Net.Cluster.Clusters.{
  ClusterMap, Applied, applied, managed_by, Reported, u64_mod, apply, apply_managed, insert_new,
}

-- What `apply` leaves: accepted, no other contributor managed the locality, the caller manages it
-- now, and the version is one further; refused, another one does, and everything is as it was.
abbrev pub Outcome :
    {U R : Type 0}
    → Option IpAddr
    → Option Locality
    → List EndpointAddress
    → Upserts
    → ClusterMap U R
    → Applied × Reported U R
    → Type 0
Outcome r l removed upserted cm (applied, rep) =
    ((Maps.get l cm.localities ≡ none) ⊎ (Maps.get l cm.localities ≡ some r))
    × (Maps.get l rep.cluster_map.localities ≡ some r)
    × (rep.cluster_map.version ≡ (cm.version + 1) % u64_mod)
Outcome r l removed upserted cm (managed_by other, rep) =
    (Maps.get l cm.localities ≡ some other)
    × (other ≢ r)
    × (rep ≡ record { cluster_map = cm; removed = removed; upserted = upserted })

module _ {U R : Type 0} (env : Env U R) where
  localities-apply_managed :
      (l : Option Locality) (s : EndpointSet U R) (removed : List EndpointAddress)
      (upserted : Upserts) (cm : ClusterMap U R)
      → (apply_managed env l s removed upserted cm).cluster_map.localities ≡ cm.localities
  unfolding apply_managed insert_new
  localities-apply_managed l s removed upserted cm = ground arith

  version-apply_managed :
      (l : Option Locality) (s : EndpointSet U R) (removed : List EndpointAddress)
      (upserted : Upserts) (cm : ClusterMap U R)
      → (apply_managed env l s removed upserted cm).cluster_map.version ≡ (cm.version + 1) % u64_mod
  unfolding apply_managed insert_new
  version-apply_managed l s removed upserted cm = ground arith

  -- `apply` either accepts: then no contributor or the caller itself managed the locality before, the
  -- caller manages it after, and the version is one further; or it refuses: then another contributor,
  -- whom it names, manages the locality, and everything is left as it was.
  pub apply-Outcome :
      (r : Option IpAddr) (l : Option Locality) (s : EndpointSet U R)
      (removed : List EndpointAddress) (upserted : Upserts) (cm : ClusterMap U R)
      → Outcome r l removed upserted cm (apply env r l s removed upserted cm)
  unfolding apply
  apply-Outcome r l s removed upserted cm = elim (Option-cases (Maps.get l cm.localities)) [
    | inl e ↦
        let cm' : ClusterMap U R = record cm { localities = Maps.insert l r cm.localities } in
        rw (e, apply)
          (
            inl e,
            rw (localities-apply_managed l s removed upserted cm')
                (get-insert_self l r cm.localities),
            version-apply_managed l s removed upserted cm',
          )
    | inr (raddr, e) ↦ elim (Bool-cases (same raddr r)) [
      | inl mine ↦
          rw (e, apply)
            (rw mine (
              inr (e ∙ ap some (same→eq raddr r mine)),
              rw (localities-apply_managed l s removed upserted cm)
                  (e ∙ ap some (same→eq raddr r mine)),
              version-apply_managed l s removed upserted cm,
            ))
      | inr other ↦ rw (e, apply) (rw other (e, same-ne raddr r other, refl))
    ]
  ]
