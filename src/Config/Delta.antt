-- ===== src/Config/Delta.antt =====
-- What the configuration has that a client lacks (src/config.rs, `delta_discovery_request`).
use quilkin.Common.{ℕ, not, ◌&&◌, Option, none, some, List, [], ◌∷◌, ◌++◌, is_some, if◌then◌else◌}
use quilkin.Common.Maps
use quilkin.Common.Maps.{Map}
use quilkin.Common.Sets
use quilkin.Common.Sets.{Set}
use quilkin.Net.Address.{Bytes, IpAddr, Locality, bytes_ord, ip_ord, locality_key_ord}
use quilkin.Net.Locality.{ok, err, from_str, is_empty, colon_separated_string}
use quilkin.Net.Cluster.{Env, EndpointSet}
use quilkin.Net.Cluster.Endpoints.{encoded_cluster}
use quilkin.Net.Cluster.Clusters.{ClusterMap, ClusterSets}
use quilkin.Xds.{VersionMap, Resource, ClientState, version_matches, is_empty_map}
use quilkin.Xds.Server.{DeltaDiscoveryRes}
use quilkin.Config.{
  Formats, Config, Datacenter, IcaoCode, cluster_type, datacenter_type, filter_chain_type,
  resource_type,
}

-- "filter_chain"
abbrev filter_chain_resource : Bytes
filter_chain_resource = 102 ∷ 105 ∷ 108 ∷ 116 ∷ 101 ∷ 114 ∷ 95 ∷ 99 ∷ 104 ∷ 97 ∷ 105 ∷ 110 ∷ []

-- The name of a cluster's resource.
abbrev pub key_name : Option Locality → Bytes
key_name none = []
key_name (some locality) = colon_separated_string locality

abbrev pub parse_name : Bytes → Option (Option Locality)
parse_name name =
    if is_empty name
    then some none
    else elim (from_str name) [ ok locality ↦ some (some locality) | err e ↦ none ]

module _ {E F P U X : Type 0} (fmt : Formats E F P U X) (env : Env U P) where
  -- `push`: nothing when the client has the version, else the resource, or an error; and the set,
  -- whose encoding is kept.
  unfoldable pub push_cluster :
      ClientState → Option Locality → EndpointSet U P → Option (List (Resource P)) × EndpointSet U P
  unfolding version_matches encoded_cluster
  push_cluster cs key value =
      let version = fmt.show_u64 value.hash in
      if version_matches (key_name key) version cs
      then (some [], value)
      else (let (encoded, value') = encoded_cluster env key value in
          (
            elim encoded [
              | none ↦ none
              | some payload ↦
                  some
                    (record { name = key_name key; version = version; payload = some payload } ∷ [])
            ],
            value',
          ))

  -- The loop over all clusters.
  unfoldable pub push_all :
      ClientState → ClusterSets U P → Option (List (Resource P)) × ClusterSets U P
  unfolding push_cluster
  push_all cs [] = (some [], [])
  push_all cs ((key, value) ∷ sets) =
      let (pushed, value') = push_cluster cs key value in
      let (rest, sets') = push_all cs sets in
      elim pushed [
        | none ↦ (none, (key, value') ∷ sets)
        | some resources ↦ (
          elim rest [ none ↦ none | some more ↦ some (resources ++ more) ],
          (key, value') ∷ sets',
        )
      ]

  -- The loop over the names that the client is subscribed to.
  unfoldable pub push_named :
      ClientState → List Bytes → ClusterSets U P → Option (List (Resource P)) × ClusterSets U P
  unfolding push_cluster
  push_named cs [] sets = (some [], sets)
  push_named cs (name ∷ names) sets = elim (parse_name name) [
    | none ↦ push_named cs names sets
    | some key ↦ elim (Maps.get key sets) [
      | none ↦ push_named cs names sets
      | some value ↦
          let (pushed, value') = push_cluster cs key value in
          let sets' = Maps.insert key value' sets in
          let (rest, sets'') = push_named cs names sets' in
          elim pushed [
            | none ↦ (none, sets')
            | some resources ↦
                (elim rest [ none ↦ none | some more ↦ some (resources ++ more) ], sets'')
          ]
    ]
  ]

  -- The one case of a cluster that is removed: endpoints without a locality that got one.
  abbrev pub unlocated : ClientState → ClusterSets U P → Set Bytes
  unlocated cs sets =
      if Maps.contains_key [] cs.versions && not (is_some (Maps.get none sets))
      then Sets.insert [] []
      else []

  unfoldable pub delta_clusters :
      ClientState → ClusterMap U P → Option (DeltaDiscoveryRes P) × ClusterMap U P
  unfolding push_all push_named
  delta_clusters cs cm =
      let (pushed, sets) =
        if is_empty_map cs.subscribed
        then push_all cs cm.map
        else push_named cs (Sets.elements cs.subscribed) cm.map in
      (
        elim pushed [
          | none ↦ none
          | some resources ↦ some (record { resources = resources; removed = unlocated cs sets })
        ],
        record cm { map = sets },
      )

  -- `resource_version`
  abbrev pub resource_version : IcaoCode → ℕ → Bytes
  resource_version icao qcmp_port = icao ++ 45 ∷ fmt.show_u64 qcmp_port

  -- One datacenter, of a name and with a host, unless the client has it.
  unfoldable pub push_datacenter :
      ClientState → Bytes → Bytes → IcaoCode → ℕ → Option (List (Resource P))
  unfolding version_matches
  push_datacenter cs name host icao qcmp_port =
      let version = resource_version icao qcmp_port in
      if version_matches name version cs
      then some []
      else elim (fmt.encode_datacenter
          (record { host = host; qcmp_port = qcmp_port; icao_code = icao })) [
            | none ↦ none
            | some payload ↦
                some (record { name = name; version = version; payload = some payload } ∷ [])
          ]

  unfoldable pub push_datacenters : ClientState → Map IpAddr Datacenter → Option (List (Resource P))
  unfolding push_datacenter
  push_datacenters cs [] = some []
  push_datacenters cs ((ip, dc) ∷ dcs) =
      let rest = push_datacenters cs dcs in
      elim (push_datacenter cs (fmt.show_ip ip) (fmt.show_ip ip) dc.icao_code dc.qcmp_port) [
        | none ↦ none
        | some resources ↦ elim rest [ none ↦ none | some more ↦ some (resources ++ more) ]
      ]

  -- The names of the client that are addresses without a datacenter.
  unfoldable pub gone : VersionMap → Map IpAddr Datacenter → Set Bytes
  gone [] dcs = []
  gone ((key, version) ∷ versions) dcs =
      let rest = gone versions dcs in
      elim (fmt.parse_ip key) [
        | none ↦ rest
        | some addr ↦ elim (Maps.get addr dcs) [ none ↦ Sets.insert key rest | some dc ↦ rest ]
      ]

  -- The proxy itself has no address of its own to be named by.
  unfoldable pub push_self : ClientState → Config F U P → Option (List (Resource P))
  unfolding push_datacenter
  push_self cs config = elim config.qcmp_port [
    | none ↦ some []
    | some qcmp_port ↦ push_datacenter cs config.id [] config.icao_code qcmp_port
  ]

  unfoldable pub delta_datacenters : ClientState → Config F U P → Option (DeltaDiscoveryRes P)
  unfolding push_self push_datacenters gone
  delta_datacenters cs config = elim (push_self cs config) [
    | none ↦ none
    | some own ↦ elim config.datacenters [
      | none ↦ some (record { resources = own; removed = [] })
      | some dcs ↦ elim (push_datacenters cs dcs.map) [
        | none ↦ none
        | some others ↦
            some (record { resources = own ++ others; removed = gone cs.versions dcs.map })
      ]
    ]
  ]

  unfoldable delta_filters : ClientState → Option F → Option (DeltaDiscoveryRes P)
  unfolding version_matches
  delta_filters cs none = some (record { resources = []; removed = [] })
  delta_filters cs (some filters) = elim (fmt.encode_filters filters) [
    | none ↦ none
    | some payload ↦
        let version = fmt.show_u64 (fmt.hash_payload payload) in
        if version_matches filter_chain_resource version cs
        then some (record { resources = []; removed = [] })
        else some (record {
          resources =
              record { name = filter_chain_resource; version = version; payload = some payload }
              ∷ [];
          removed = [];
        })
  ]

  unfoldable pub delta_discovery_request :
      ClientState → Config F U P → Option (DeltaDiscoveryRes P) × Config F U P
  unfolding resource_type delta_filters delta_datacenters delta_clusters
  delta_discovery_request cs config = elim (resource_type cs.resource_type) [
    | none ↦ (none, config)
    | some filter_chain_type ↦ (delta_filters cs config.filters, config)
    | some datacenter_type ↦ (delta_datacenters cs config, config)
    | some cluster_type ↦ elim config.clusters [
      | none ↦ (some (record { resources = []; removed = [] }), config)
      | some cm ↦
          let (found, cm') = delta_clusters cs cm in (found, record config { clusters = some cm' })
    ]
  ]
