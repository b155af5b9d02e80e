-- ===== src/Config/Apply.antt =====
-- A delta response applied to the configuration (src/config.rs, `apply_delta`, and the implementation
-- of `Configuration`). The result is whether it is Ok; what was done before an error stays done.
-- Metrics and the texts of errors are left out.
use quilkin.Common.{
  ◌^◌, Bool, true, false, not, ◌&&◌, Option, none, some, List, [], ◌∷◌, ◌++◌, ltb, is_some,
  if◌then◌else◌,
}
use quilkin.Common.Maps
use quilkin.Net.Address.{Bytes, IpAddr, Locality, ip_ord}
use quilkin.Net.Locality.{ProtoLocality, ok, err, from_str, from_proto, is_empty}
use quilkin.Net.Cluster.{Env, Endpoint, EndpointSet}
use quilkin.Net.Cluster.Endpoints.{with_version}
use quilkin.Net.Cluster.Clusters.{remove_contributor}
use quilkin.Xds.{Resource, is_empty_map}
use quilkin.Xds.Server.{Configuration}
use quilkin.Config.{
  Formats, cluster, datacenter, filter_chain, Config, ProtoDatacenter, Datacenter, DatacenterMap,
  IcaoCode, icao_from_str, cluster_type, datacenter_type, filter_chain_type, resource_type, prefix,
  cluster_name, datacenter_name,
}
use quilkin.Config.Datacenters.{remove_datacenter}
use quilkin.Config.Bridge.{
  Bridge, new_bridge, drop_bridge, insert_dc, remove_dc, bridge_remove_locality, apply_changes,
}
use quilkin.Config.Delta.{delta_discovery_request}

module _ {E F P U X : Type 0} (fmt : Formats E F P U X) where
  -- The one filter chain of the response, if it has exactly one.
  unfoldable pub decode_filters : List (Resource P) → Option F
  decode_filters [] = none
  decode_filters (res ∷ more ∷ rest) = none
  decode_filters (res ∷ []) = elim res.payload [
    | none ↦ none
    | some payload ↦ elim (fmt.try_decode payload) [
      | some (filter_chain filters) ↦ fmt.try_create filters
      | _ ↦ none
    ]
  ]

  unfoldable pub apply_filters : List (Resource P) → List Bytes → Config F U P → Bool × Config F U P
  unfolding decode_filters
  apply_filters resources removed config = elim config.filters [
    | none ↦ (true, config)
    | some old ↦
        if is_empty_map resources && not (is_empty_map removed)
        then (true, config)
        else elim (decode_filters resources) [
          | none ↦ (false, config)
          | some filters ↦ (true, record config { filters = some filters })
        ]
  ]

  -- Where a datacenter is: its host, or where the response came from. A host that is none is skipped.
  unfoldable pub host_of : ProtoDatacenter → Option IpAddr → Option IpAddr
  host_of dc remote_addr = if is_empty dc.host then remote_addr else fmt.parse_ip dc.host

  -- `parse_payload`
  unfoldable pub parse_payload : ProtoDatacenter → Option Datacenter
  unfolding icao_from_str
  parse_payload dc =
      if ltb dc.qcmp_port (2 ^ 16)
      then elim (icao_from_str dc.icao_code) [
        | none ↦ none
        | some icao ↦ some (record { qcmp_port = dc.qcmp_port; icao_code = icao })
      ]
      else none

  unfoldable pub decode_datacenter : Resource P → Option ProtoDatacenter
  decode_datacenter res = elim res.payload [
    | none ↦ none
    | some payload ↦ elim (fmt.try_decode payload) [ some (datacenter dc) ↦ some dc | _ ↦ none ]
  ]

  unfoldable pub apply_datacenters :
      Option IpAddr → List (Resource P) → Bridge U P → Bool × Bridge U P
  unfolding decode_datacenter host_of parse_payload insert_dc
  apply_datacenters remote_addr [] b = (true, b)
  apply_datacenters remote_addr (res ∷ rest) b = elim (decode_datacenter res) [
    | none ↦ (false, b)
    | some dc ↦ elim (host_of dc remote_addr) [
      | none ↦ apply_datacenters remote_addr rest b
      | some host ↦ elim (parse_payload dc) [
        | none ↦ (false, b)
        | some d ↦ apply_datacenters remote_addr rest (insert_dc host d b)
      ]
    ]
  ]

  unfoldable pub collect_endpoints : List E → Option (List (Endpoint U))
  collect_endpoints [] = some []
  collect_endpoints (e ∷ es) =
      let rest = collect_endpoints es in
      elim (fmt.endpoint_try_from e) [
        | none ↦ none
        | some endpoint ↦ elim rest [ none ↦ none | some endpoints ↦ some (endpoint ∷ endpoints) ]
      ]

  -- The removed localities; a name that is not a locality is an error.
  unfoldable pub remove_localities : Option IpAddr → List Bytes → Bridge U P → Bool × Bridge U P
  unfolding bridge_remove_locality
  remove_localities remote_addr [] b = (true, b)
  remove_localities remote_addr (name ∷ names) b =
      if is_empty name
      then remove_localities remote_addr names (bridge_remove_locality remote_addr none b)
      else elim (from_str name) [
        | err e ↦ (false, b)
        | ok locality ↦
            remove_localities remote_addr names
              (bridge_remove_locality remote_addr (some locality) b)
      ]

module _ {E F P U X : Type 0} (fmt : Formats E F P U X) (env : Env U P) where
  abbrev located : Option ProtoLocality → Option Locality
  located none = none
  located (some proto) = some (from_proto proto)

  -- The locality and the set of a resource.
  unfoldable pub decode_cluster : Resource P → Option (Option Locality × EndpointSet U P)
  unfolding collect_endpoints with_version from_proto
  decode_cluster res = elim res.payload [
    | none ↦ none
    | some payload ↦ elim (fmt.try_decode payload) [
      | some (cluster locality endpoints) ↦ elim (fmt.parse_u64 res.version) [
        | none ↦ none
        | some version ↦ elim (collect_endpoints fmt endpoints) [
          | none ↦ none
          | some eps ↦ some (located locality, with_version env eps version)
        ]
      ]
      | _ ↦ none
    ]
  ]

  unfoldable pub apply_clusters :
      Option IpAddr → Option IcaoCode → List (Resource P) → Bridge U P → Bool × Bridge U P
  unfolding decode_cluster apply_changes
  apply_clusters remote_addr icao [] b = (true, b)
  apply_clusters remote_addr icao (res ∷ rest) b = elim (decode_cluster res) [
    | none ↦ (false, b)
    | some (locality, set) ↦
        apply_clusters remote_addr icao rest (apply_changes env remote_addr locality icao set b)
  ]

  -- The code of the datacenter that the response came from.
  abbrev pub icao_of : Option IpAddr → Option DatacenterMap → Option IcaoCode
  icao_of (some ip) (some dcs) = elim (Maps.get ip dcs.map) [
    | none ↦ none
    | some dc ↦ some dc.icao_code
  ]
  icao_of _ _ = none

  unfoldable pub apply_delta :
      Bytes → List (Resource P) → List Bytes → Option IpAddr → Config F U P → Bool × Config F U P
  unfolding resource_type apply_filters apply_datacenters remove_localities apply_clusters
      new_bridge drop_bridge remove_dc
  apply_delta type_url resources removed remote_addr config = elim (resource_type type_url) [
    | none ↦ (false, config)
    | some filter_chain_type ↦ apply_filters fmt resources removed config
    | some datacenter_type ↦ elim config.datacenters [
      | none ↦ (true, config)
      | some dcs ↦
          let b = new_bridge config in
          let b' : Bridge U P = elim remote_addr [
            | none ↦ b
            | some ip ↦ if is_empty_map removed then b else remove_dc ip b
          ] in
          let (is_ok, b'') = apply_datacenters fmt remote_addr resources b' in
          (is_ok, drop_bridge b'' config)
    ]
    | some cluster_type ↦ elim config.clusters [
      | none ↦ (true, config)
      | some cm ↦
          let (is_ok, b) = remove_localities fmt remote_addr removed (new_bridge config) in
          if is_ok
          then (let icao = icao_of remote_addr config.datacenters in
              let (is_ok', b') = apply_clusters remote_addr icao resources b in
              (is_ok', drop_bridge b' config))
          else (false, drop_bridge b config)
    ]
  ]

  -- What a server or a client of a stream uses of the configuration.
  unfoldable pub configuration : Configuration (Config F U P) P
  unfolding delta_discovery_request apply_delta resource_type
  configuration = record {
    identifier = λ config. config.id;
    allow_request_processing = λ type_url. is_some (resource_type type_url);
    delta_discovery_request = delta_discovery_request fmt env;
    apply_delta = apply_delta;
    interested_resources = (prefix ++ cluster_name, []) ∷ (prefix ++ datacenter_name, []) ∷ [];
  }

-- An agent is gone: its datacenter and its part in the localities.
unfoldable pub client_disconnected : {F U P : Type 0} → IpAddr → Config F U P → Config F U P
unfolding remove_datacenter remove_contributor
client_disconnected ip config = record config {
  datacenters = elim config.datacenters [
    | none ↦ none
    | some dcs ↦ some (remove_datacenter ip dcs)
  ];
  clusters = elim config.clusters [
    | none ↦ none
    | some cm ↦ some (remove_contributor (some ip) cm)
  ];
}
