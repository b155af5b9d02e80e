-- ===== src/Config/Bridged.antt =====
-- What a bridge does keeps the clusters in order (src/config/corro.rs).
use quilkin.Common.{
  ◌≡◌, ◌⊎◌, refl, sym, subst, inl, inr, Option, none, some, List, [], Option-cases, arith,
}
use quilkin.Net.Address.{IpAddr, Locality}
use quilkin.Net.Locality.{Parsed, ParseError, ok, err}
use quilkin.Net.Cluster.{Env, EndpointSet}
use quilkin.Net.Cluster.Endpoints.Versions.{IsValid}
use quilkin.Net.Cluster.Clusters.{ClusterMap}
use quilkin.Net.Cluster.Clusters.Invariant.{
  Inv, apply-Inv, remove_locality-Inv, remove_contributor-Inv,
}
use quilkin.Config.{Config, Datacenter, DatacenterMap, IcaoCode, Statement}
use quilkin.Config.Bridge.{
  Bridge, push, new_bridge, drop_bridge, insert_dc, remove_dc, bridge_remove_locality,
  apply_changes,
}
use quilkin.Config.Apply.{client_disconnected}

pub Parsed-cases : (p : Parsed) → ((l : Locality) × (p ≡ ok l)) ⊎ ((x : ParseError) × (p ≡ err x))
Parsed-cases (ok l) = inl (l, refl)
Parsed-cases (err x) = inr (x, refl)

module _ {U P : Type 0} (env : Env U P) where
  abbrev pub MapInv : Option (ClusterMap U P) → Type 0
  MapInv none = Unit {0}
  MapInv (some cm) = Inv env cm

  abbrev pub MapsInv : Option (DatacenterMap × ClusterMap U P) → Type 0
  MapsInv none = Unit {0}
  MapsInv (some (dcs, cm)) = Inv env cm

  -- The cluster map, if there is one, keeps its invariant.
  abbrev pub ConfigInv : {F : Type 0} → Config F U P → Type 0
  ConfigInv config = MapInv config.clusters

  pub maps-push : (sts : List Statement) (b : Bridge U P) → (push sts b).maps ≡ b.maps
  maps-push sts b = elim (Option-cases b.statements) [
    | inl e ↦ ground (arith, e)
    | inr (old, e) ↦ ground (arith, e)
  ]

  pub push-MapsInv :
      (sts : List Statement) (b : Bridge U P) → MapsInv b.maps → MapsInv (push sts b).maps
  push-MapsInv sts b h = subst MapsInv (sym (maps-push sts b)) h

  pub insert_dc-MapsInv :
      (ip : IpAddr) (dc : Datacenter) (b : Bridge U P)
      → MapsInv b.maps
      → MapsInv (insert_dc ip dc b).maps
  unfolding insert_dc
  insert_dc-MapsInv ip dc b h = elim (Option-cases b.maps) [
    | inl e ↦ ground (arith, e)
    | inr ((dcs, cm), e) ↦ grind (arith, e, h, push-MapsInv)
  ]

  pub remove_dc-MapsInv :
      (ip : IpAddr) (b : Bridge U P) → MapsInv b.maps → MapsInv (remove_dc ip b).maps
  unfolding remove_dc
  remove_dc-MapsInv ip b h = elim (Option-cases b.maps) [
    | inl e ↦ ground (arith, e)
    | inr ((dcs, cm), e) ↦ grind (arith, e, h, push-MapsInv)
  ]

  pub remove_locality-MapsInv :
      (addr : Option IpAddr) (l : Option Locality) (b : Bridge U P)
      → MapsInv b.maps
      → MapsInv (bridge_remove_locality addr l b).maps
  unfolding bridge_remove_locality
  remove_locality-MapsInv addr l b h = elim (Option-cases b.maps) [
    | inl e ↦ ground (arith, e)
    | inr ((dcs, cm), e) ↦
        grind (arith, e, h, remove_locality-Inv env addr l cm (ground (arith, e, h)), push-MapsInv)
  ]

  pub apply_changes-MapsInv :
      (addr : Option IpAddr) (l : Option Locality) (icao : Option IcaoCode) (s : EndpointSet U P)
      (b : Bridge U P)
      → IsValid env s
      → MapsInv b.maps
      → MapsInv (apply_changes env addr l icao s b).maps
  unfolding apply_changes
  apply_changes-MapsInv addr l icao s b v h = elim (Option-cases b.maps) [
    | inl e ↦ ground (arith, e)
    | inr ((dcs, cm), e) ↦
        grind (arith, e, h, apply-Inv env addr l s [] [] cm v (ground (arith, e, h)), push-MapsInv)
  ]

  pub new_bridge-MapsInv :
      {F : Type 0} (config : Config F U P) → ConfigInv config → MapsInv (new_bridge config).maps
  unfolding new_bridge
  new_bridge-MapsInv config h = elim (Option-cases config.datacenters) [
    | inl e ↦ ground (arith, e)
    | inr (dcs, e) ↦ elim (Option-cases config.clusters) [
      | inl f ↦ ground (arith, e, f)
      | inr (cm, f) ↦ ground (arith, e, f, h)
    ]
  ]

  pub drop_bridge-ConfigInv :
      {F : Type 0} (b : Bridge U P) (config : Config F U P)
      → MapsInv b.maps
      → ConfigInv config
      → ConfigInv (drop_bridge b config)
  unfolding drop_bridge
  drop_bridge-ConfigInv b config m h = elim (Option-cases b.maps) [
    | inl e ↦ ground (arith, e, h)
    | inr ((dcs, cm), e) ↦ ground (arith, e, m)
  ]

  pub client_disconnected-ConfigInv :
      {F : Type 0} (ip : IpAddr) (config : Config F U P)
      → ConfigInv config
      → ConfigInv (client_disconnected ip config)
  unfolding client_disconnected
  client_disconnected-ConfigInv ip config h = elim (Option-cases config.clusters) [
    | inl e ↦ ground (arith, e)
    | inr (cm, e) ↦
        ground (arith, e, remove_contributor-Inv env (some ip) cm (ground (arith, e, h)))
  ]
