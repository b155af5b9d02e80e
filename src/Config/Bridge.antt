-- ===== src/Config/Bridge.antt =====
-- `Bridge` (src/config/corro.rs): changes of the maps, and the statements that tell corrosion of them.
-- It does nothing unless there are both maps, and writes no statement without `db_tx`.
use quilkin.Common.{◌+◌, ◌*◌, ◌^◌, Option, none, some, List, [], ◌∷◌, ◌++◌, map}
use quilkin.Common.Maps
use quilkin.Net.Address.{IpAddr, v4, v6, Locality, locality_key_ord}
use quilkin.Net.Cluster.{Env, EndpointSet}
use quilkin.Net.Cluster.Endpoints.{endpoint_iter}
use quilkin.Net.Cluster.Clusters.{
  ClusterMap, applied, managed_by, locality_for_ip, remove_locality, apply,
}
use quilkin.Config
use quilkin.Config.{
  IcaoCode, Datacenter, DatacenterMap, Statement, upsert_server, remove_deferred, Config,
}
use quilkin.Config.Datacenters

-- The two maps, or none, and the statements so far, or none.
pub record Bridge (U P : Type 0) : Type 0 where
  pub maps : Option (DatacenterMap × ClusterMap U P)
  pub statements : Option (List Statement)

-- crates/corrosion/src/lib.rs: an IPv4 address is mapped into IPv6.
abbrev ip_to_peer : IpAddr → IpAddr
ip_to_peer (v4 n) = v6 (65535 * 2 ^ 32 + n)
ip_to_peer (v6 n) = v6 n

abbrev zip :
    {U P : Type 0}
    → Option DatacenterMap
    → Option (ClusterMap U P)
    → Option (DatacenterMap × ClusterMap U P)
zip none c = none
zip (some d) none = none
zip (some d) (some c) = some (d, c)

-- The statements are sent, if there are any, when the bridge is dropped; the receiver is open.
abbrev send :
    Option (List Statement) → Option (List (List Statement)) → Option (List (List Statement))
send (some (st ∷ sts)) (some sent) = some (sent ++ (st ∷ sts) ∷ [])
send _ db_tx = db_tx

module _ {F U P : Type 0} where
  unfoldable pub new_bridge : Config F U P → Bridge U P
  new_bridge config = record {
    maps = zip config.datacenters config.clusters;
    statements = elim config.db_tx [ none ↦ none | some sent ↦ some [] ];
  }

  unfoldable pub drop_bridge : Bridge U P → Config F U P → Config F U P
  drop_bridge b config = elim b.maps [
    | none ↦ record config { db_tx = send b.statements config.db_tx }
    | some (dcs, cm) ↦ record config {
      datacenters = some dcs;
      clusters = some cm;
      db_tx = send b.statements config.db_tx;
    }
  ]

module _ {U P : Type 0} where
  abbrev pub push : List Statement → Bridge U P → Bridge U P
  push new b = elim b.statements [
    | none ↦ b
    | some statements ↦ record b { statements = some (statements ++ new) }
  ]

  -- The datacenter and the servers of its locality; nothing, unless the locality is known and has a
  -- cluster.
  abbrev dc_statements : IpAddr → Datacenter → ClusterMap U P → List Statement
  dc_statements ip dc cm =
      let peer = ip_to_peer ip in
      elim (locality_for_ip ip cm.localities) [
        | none ↦ []
        | some locality ↦ elim (Maps.get (some locality) cm.map) [
          | none ↦ []
          | some set ↦
              Config.insert_datacenter peer dc.qcmp_port dc.icao_code
              ∷ map (λ ep. upsert_server peer ep.address dc.icao_code ep.metadata.known.tokens)
                  (endpoint_iter set)
        ]
      ]

  unfoldable pub insert_dc : IpAddr → Datacenter → Bridge U P → Bridge U P
  insert_dc ip dc b = elim b.maps [
    | none ↦ b
    | some (dcs, cm) ↦
        push (dc_statements ip dc cm)
          (record b { maps = some (Datacenters.insert_datacenter ip dc dcs, cm) })
  ]

  unfoldable pub remove_dc : IpAddr → Bridge U P → Bridge U P
  remove_dc ip b = elim b.maps [
    | none ↦ b
    | some (dcs, cm) ↦
        push (Config.remove_datacenter (ip_to_peer ip) ∷ [])
          (record b { maps = some (Datacenters.remove_datacenter ip dcs, cm) })
  ]

  unfoldable pub bridge_remove_locality : Option IpAddr → Option Locality → Bridge U P → Bridge U P
  bridge_remove_locality addr locality b = elim b.maps [
    | none ↦ b
    | some (dcs, cm) ↦
        let (gone, cm') = remove_locality addr locality cm in
        let b' : Bridge U P = record b { maps = some (dcs, cm') } in
        elim gone [
          | none ↦ b'
          | some set ↦ elim addr [
            | none ↦ b'
            | some ip ↦ push (map (λ e. remove_deferred (ip_to_peer ip) e.0) set.endpoints) b'
          ]
        ]
  ]

  unfoldable pub apply_changes :
      Env U P
      → Option IpAddr
      → Option Locality
      → Option IcaoCode
      → EndpointSet U P
      → Bridge U P
      → Bridge U P
  apply_changes env addr locality icao set b = elim b.maps [
    | none ↦ b
    | some (dcs, cm) ↦
        let (result, reported) = apply env addr locality set [] [] cm in
        let b' : Bridge U P = record b { maps = some (dcs, reported.cluster_map) } in
        elim result [
          | managed_by other ↦ b'
          | applied ↦ elim addr [
            | none ↦ b'
            | some ip ↦ elim icao [
              | none ↦ b'
              | some code ↦
                  push
                    (map (λ a. remove_deferred (ip_to_peer ip) a) reported.removed
                      ++ map (λ u. upsert_server (ip_to_peer ip) u.0 code u.1) reported.upserted)
                    b'
            ]
          ]
        ]
  ]
