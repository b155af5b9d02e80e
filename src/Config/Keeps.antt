-- ===== src/Config/Keeps.antt =====
-- What xDS does to a configuration keeps its clusters in order (src/config.rs, src/config/corro.rs).
use quilkin.Common.{
  ◌≡◌, sym, ◌∙◌, subst, inl, inr, Option, none, some, List, [], ◌∷◌, Option-cases, Bool-cases,
  arith,
}
use quilkin.Net.Address.{Bytes, IpAddr, Locality}
use quilkin.Net.Locality.{from_str, is_empty}
use quilkin.Net.Cluster.{Env, EndpointSet}
use quilkin.Net.Cluster.Endpoints.{with_version}
use quilkin.Net.Cluster.Endpoints.Versions.{IsValid, with_version-IsValid}
use quilkin.Xds.{Resource, ClientState}
use quilkin.Config.{
  Formats, Decoded, cluster, datacenter, filter_chain, Config, IcaoCode, resource_type,
  ResourceType, cluster_type, datacenter_type, filter_chain_type,
}
use quilkin.Config.Bridge.{
  Bridge, new_bridge, drop_bridge, insert_dc, remove_dc, bridge_remove_locality, apply_changes,
}
use quilkin.Config.Delta.{delta_discovery_request}
use quilkin.Config.Apply.{
  decode_filters, collect_endpoints, apply_datacenters, apply_clusters, apply_filters,
  remove_localities, decode_cluster, decode_datacenter, host_of, parse_payload, apply_delta,
  icao_of,
}
use quilkin.Config.Encodes.{delta_clusters-Inv}
use quilkin.Config.Bridged.{
  ConfigInv, MapInv, MapsInv, Parsed-cases, apply_changes-MapsInv, drop_bridge-ConfigInv,
  insert_dc-MapsInv, new_bridge-MapsInv, remove_dc-MapsInv, remove_locality-MapsInv,
}

module _ {E F P U X : Type 0} (fmt : Formats E F P U X) (env : Env U P) where
  apply_datacenters-MapsInv :
      (addr : Option IpAddr) (resources : List (Resource P)) (b : Bridge U P)
      → MapsInv env b.maps
      → MapsInv env (apply_datacenters fmt addr resources b).1.maps
  unfolding apply_datacenters
  apply_datacenters-MapsInv addr [] b h = h
  apply_datacenters-MapsInv addr (res ∷ rest) b h =
      elim (Option-cases (decode_datacenter fmt res)) [
        | inl e ↦ ground (arith, e, h)
        | inr (dc, e) ↦ elim (Option-cases (host_of fmt dc addr)) [
          | inl f ↦ ground (arith, e, f, apply_datacenters-MapsInv addr rest b h)
          | inr (host, f) ↦ elim (Option-cases (parse_payload fmt dc)) [
            | inl g ↦ ground (arith, e, f, g, h)
            | inr (d, g) ↦ ground (
              arith,
              e,
              f,
              g,
              apply_datacenters-MapsInv addr rest (insert_dc host d b)
                  (insert_dc-MapsInv env host d b h),
            )
          ]
        ]
      ]

  remove_localities-MapsInv :
      (addr : Option IpAddr) (names : List Bytes) (b : Bridge U P)
      → MapsInv env b.maps
      → MapsInv env (remove_localities fmt addr names b).1.maps
  unfolding remove_localities
  remove_localities-MapsInv addr [] b h = h
  remove_localities-MapsInv addr (name ∷ names) b h = elim (Bool-cases (is_empty name)) [
    | inl e ↦ ground (
      arith,
      e,
      remove_localities-MapsInv addr names (bridge_remove_locality addr none b)
          (remove_locality-MapsInv env addr none b h),
    )
    | inr e ↦ elim (Parsed-cases (from_str name)) [
      | inr (x, f) ↦ ground (arith, e, f, h)
      | inl (l, f) ↦ ground (
        arith,
        e,
        f,
        remove_localities-MapsInv addr names (bridge_remove_locality addr (some l) b)
            (remove_locality-MapsInv env addr (some l) b h),
      )
    ]
  ]

  pub decode_cluster-IsValid :
      (res : Resource P) (l : Option Locality) (s : EndpointSet U P)
      → decode_cluster fmt env res ≡ some (l, s)
      → IsValid env s
  unfolding decode_cluster
  decode_cluster-IsValid res l s e = elim (Option-cases res.payload) [
    | inl f ↦ absurd (ground (arith, e, f))
    | inr (payload, f) ↦ elim (Option-cases (fmt.try_decode payload)) [
      | inl g ↦ absurd (ground (arith, e, f, g))
      | inr (decoded, g) ↦ of_message payload f decoded g
    ]
  ]
    where
      of_message :
          (payload : P)
          → res.payload ≡ some payload
          → (decoded : Decoded E X) → fmt.try_decode payload ≡ some decoded
          → IsValid env s
      of_message payload f (datacenter dc) g = absurd (ground (arith, e, f, g))
      of_message payload f (filter_chain x) g = absurd (ground (arith, e, f, g))
      of_message payload f (cluster proto es) g = elim (Option-cases (fmt.parse_u64 res.version)) [
        | inl h ↦ absurd (ground (arith, e, f, g, h))
        | inr (version, h) ↦ elim (Option-cases (collect_endpoints fmt es)) [
          | inl k ↦ absurd (ground (arith, e, f, g, h, k))
          | inr (eps, k) ↦
              let made : with_version env eps version ≡ s = ground (arith, e, f, g, h, k) in
              subst (IsValid env) made (with_version-IsValid env eps version)
        ]
      ]

  apply_clusters-MapsInv :
      (addr : Option IpAddr) (icao : Option IcaoCode) (resources : List (Resource P))
      (b : Bridge U P)
      → MapsInv env b.maps
      → MapsInv env (apply_clusters fmt env addr icao resources b).1.maps
  unfolding apply_clusters
  apply_clusters-MapsInv addr icao [] b h = h
  apply_clusters-MapsInv addr icao (res ∷ rest) b h =
      elim (Option-cases (decode_cluster fmt env res)) [
        | inl e ↦ ground (arith, e, h)
        | inr ((l, s), e) ↦ ground (
          arith,
          e,
          apply_clusters-MapsInv addr icao rest (apply_changes env addr l icao s b)
              (apply_changes-MapsInv env addr l icao s b (decode_cluster-IsValid res l s e) h),
        )
      ]

  clusters-apply_filters :
      (resources : List (Resource P)) (removed : List Bytes) (config : Config F U P)
      → (apply_filters fmt resources removed config).1.clusters ≡ config.clusters
  unfolding apply_filters
  clusters-apply_filters resources removed config = elim (Option-cases config.filters) [
    | inl e ↦ ground (arith, e)
    | inr (old, e) ↦ elim (Option-cases (decode_filters fmt resources)) [
      | inl f ↦ ground (arith, e, f)
      | inr (filters, f) ↦ ground (arith, e, f)
    ]
  ]

  pub apply_delta-ConfigInv :
      (ty : Bytes) (resources : List (Resource P)) (removed : List Bytes) (addr : Option IpAddr)
      (config : Config F U P)
      → ConfigInv env config
      → ConfigInv env (apply_delta fmt env ty resources removed addr config).1
  unfolding apply_delta
  apply_delta-ConfigInv ty resources removed addr config h =
      elim (Option-cases (resource_type ty)) [
        | inl e ↦ ground (arith, e, h)
        | inr (kind, e) ↦ of_kind kind e
      ]
    where
      of_kind :
          (kind : ResourceType)
          → resource_type ty ≡ some kind
          → ConfigInv env (apply_delta fmt env ty resources removed addr config).1
      of_kind filter_chain_type e =
          subst (MapInv env)
            (sym (clusters-apply_filters resources removed config) ∙ ground (arith, e)) h
      of_kind datacenter_type e =
          let b = new_bridge config in
          let hb = new_bridge-MapsInv env config h in
          let inserted : (b' : Bridge U P)
              → MapsInv env b'.maps
              → ConfigInv env (drop_bridge (apply_datacenters fmt addr resources b').1 config) =
            λ b' h'.
              drop_bridge-ConfigInv env (apply_datacenters fmt addr resources b').1 config
                (apply_datacenters-MapsInv addr resources b' h') h in
          elim (Option-cases config.datacenters) [
            | inl g ↦ ground (arith, e, g, h)
            | inr (dcs, g) ↦ elim (Option-cases addr) [
              | inl a ↦ ground (arith, e, g, a, inserted b hb)
              | inr (ip, a) ↦ ground (
                arith,
                e,
                g,
                a,
                inserted b hb,
                inserted (remove_dc ip b) (remove_dc-MapsInv env ip b hb),
              )
            ]
          ]
      of_kind cluster_type e =
          let b = new_bridge config in
          let (is_ok, b1) = remove_localities fmt addr removed b in
          let h1 = remove_localities-MapsInv addr removed b (new_bridge-MapsInv env config h) in
          let icao = icao_of fmt env addr config.datacenters in
          let h2 = apply_clusters-MapsInv addr icao resources b1 h1 in
          let b2 = (apply_clusters fmt env addr icao resources b1).1 in
          elim (Option-cases config.clusters) [
            | inl g ↦ ground (arith, e, g, h)
            | inr (cm, g) ↦ ground (
              arith,
              e,
              g,
              drop_bridge-ConfigInv env b1 config h1 h,
              drop_bridge-ConfigInv env b2 config h2 h,
            )
          ]

  pub delta_discovery_request-ConfigInv :
      (cs : ClientState) (config : Config F U P)
      → ConfigInv env config
      → ConfigInv env (delta_discovery_request fmt env cs config).1
  unfolding delta_discovery_request
  delta_discovery_request-ConfigInv cs config h =
      elim (Option-cases (resource_type cs.resource_type)) [
        | inl e ↦ ground (arith, e, h)
        | inr (kind, e) ↦ of_kind kind e
      ]
    where
      of_kind :
          (kind : ResourceType)
          → resource_type cs.resource_type ≡ some kind
          → ConfigInv env (delta_discovery_request fmt env cs config).1
      of_kind filter_chain_type e = ground (arith, e, h)
      of_kind datacenter_type e = ground (arith, e, h)
      of_kind cluster_type e = elim (Option-cases config.clusters) [
        | inl f ↦ ground (arith, e, f)
        | inr (cm, f) ↦
            ground (arith, e, f, delta_clusters-Inv fmt env cs cm (ground (arith, f, h)))
      ]
