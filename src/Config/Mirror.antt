-- ===== src/Config/Mirror.antt =====
-- The datacenters of a server in a client's configuration (src/config.rs, `delta_discovery_request`
-- and `apply_delta`; src/config/corro.rs, `insert_dc`).
use quilkin.Common.{
  ◌≡◌, refl, sym, ap, ◌∙◌, subst, inl, inr, Bool, true, false, none, some, List, [], ◌∷◌, ◌++◌, All,
  Option-cases, arith,
}
use quilkin.Common.Maps
use quilkin.Common.Maps.{Map, get-insert}
use quilkin.Common.Maps.Sorted.{IsSorted, Above-IsSorted, get-head}
use quilkin.Common.Sets
use quilkin.Net.Address.{Bytes, IpAddr, ip_ord, bytes_ord}
use quilkin.Net.Locality.{is_empty}
use quilkin.Net.Cluster.{Env}
use quilkin.Net.Cluster.Clusters.{ClusterMap}
use quilkin.Xds.{Resource, ClientState}
use quilkin.Xds.Server.{DeltaDiscoveryRes}
use quilkin.Config.{
  Formats, datacenter, Config, ProtoDatacenter, Datacenter, DatacenterMap, resource_type,
  datacenter_type,
}
use quilkin.Config.Datacenters
use quilkin.Config.Bridge.{Bridge, new_bridge, drop_bridge, insert_dc}
use quilkin.Config.Delta.{
  resource_version, push_datacenter, push_datacenters, push_self, delta_datacenters, gone,
}
use quilkin.Config.Apply.{apply_datacenters, apply_delta, decode_datacenter, host_of, parse_payload}
use quilkin.Config.Pushed.{
  IsDatacenter, mirrored, mirrored_known, mirrored_unknown, push_datacenter-cases, maps-insert_dc,
}

module _ {E F P U X : Type 0} (fmt : Formats E F P U X) (env : Env U P)
    (parse-show : (ip : IpAddr) → fmt.parse_ip (fmt.show_ip ip) ≡ some ip)
    (shown : (ip : IpAddr) → is_empty (fmt.show_ip ip) ≡ false)
    (decode-encode : (dc : ProtoDatacenter) (payload : P)
      → fmt.encode_datacenter dc ≡ some payload
      → fmt.try_decode payload ≡ some (datacenter dc)) where
  -- A resource of a datacenter with its host is a datacenter that is inserted.
  apply-other :
      (cs : ClientState) (ip : IpAddr) (dc : Datacenter) (name version : Bytes) (payload : P)
      (rest : List (Resource P)) (b : Bridge U P)
      → IsDatacenter dc
      → fmt.encode_datacenter
          (record { host = fmt.show_ip ip; qcmp_port = dc.qcmp_port; icao_code = dc.icao_code })
        ≡ some payload
      → apply_datacenters fmt none
          (record { name = name; version = version; payload = some payload } ∷ rest)
          b
        ≡ apply_datacenters fmt none rest (insert_dc ip dc b)
  unfolding apply_datacenters decode_datacenter host_of parse_payload
  apply-other cs ip dc name version payload rest b (p, i) e =
      ground (arith, p, i, decode-encode _ payload e, parse-show ip, shown ip)

  -- The own datacenter of the server, which has no host, is skipped.
  apply-own :
      (dc : ProtoDatacenter) (name version : Bytes) (payload : P) (rest : List (Resource P))
      (b : Bridge U P)
      → dc.host ≡ []
      → fmt.encode_datacenter dc ≡ some payload
      → apply_datacenters fmt none
          (record { name = name; version = version; payload = some payload } ∷ rest)
          b
        ≡ apply_datacenters fmt none rest b
  unfolding apply_datacenters decode_datacenter host_of parse_payload
  apply-own dc name version payload rest b h e = ground (arith, h, decode-encode dc payload e)

  abbrev Mirrors :
      ClientState
      → Map IpAddr Datacenter
      → DatacenterMap
      → ClusterMap U P
      → Bool × Bridge U P
      → Type 0
  Mirrors cs server m cm out =
      (out.0 ≡ true)
      × (m' : DatacenterMap) × (out.1.maps ≡ some (m', cm))
      × ((ip : IpAddr) → Maps.get ip m'.map ≡ mirrored fmt env cs server m.map ip)

  push_datacenters-cons :
      (cs : ClientState) (ip : IpAddr) (dc : Datacenter) (server : Map IpAddr Datacenter)
      (res : List (Resource P))
      → push_datacenters fmt env cs ((ip, dc) ∷ server) ≡ some res
      → (first more : List (Resource P)) × (push_datacenter fmt env cs
            (fmt.show_ip ip)
            (fmt.show_ip ip)
            dc.icao_code
            dc.qcmp_port
          ≡ some first)
        × (push_datacenters fmt env cs server ≡ some more)
        × (first ++ more ≡ res)
  unfolding push_datacenters
  push_datacenters-cons cs ip dc server res e =
      elim (Option-cases
        (push_datacenter fmt env cs (fmt.show_ip ip) (fmt.show_ip ip) dc.icao_code dc.qcmp_port)) [
          | inl f ↦ absurd (ground (arith, e, f))
          | inr (first, f) ↦ elim (Option-cases (push_datacenters fmt env cs server)) [
            | inl g ↦ absurd (ground (arith, e, f, g))
            | inr (more, g) ↦ (first, more, f, g, ground (arith, e, f, g))
          ]
        ]

  push_datacenters-Mirrors :
      (cs : ClientState) (server : Map IpAddr Datacenter) (res : List (Resource P)) (b : Bridge U P)
      (m : DatacenterMap) (cm : ClusterMap U P)
      → IsSorted server
      → All (λ e. IsDatacenter e.1) server
      → push_datacenters fmt env cs server ≡ some res
      → b.maps ≡ some (m, cm)
      → Mirrors cs server m cm (apply_datacenters fmt none res b)
  unfolding push_datacenters apply_datacenters Maps.get Datacenters.insert_datacenter Maps.insert
  push_datacenters-Mirrors cs [] res b m cm sorted valid e f =
      let nothing : [] ≡ res = ground (arith, e) in
      subst (λ r. Mirrors cs [] m cm (apply_datacenters fmt none r b)) nothing
        (refl, m, f, λ ip. refl)
  push_datacenters-Mirrors cs ((j, dc) ∷ server) res b m cm sorted (v, valid) e f =
      let (first, more, g, h, parts) = push_datacenters-cons cs j dc server res e in
      let sorted' = Above-IsSorted j server sorted in
      let absent = get-head j server sorted in
      let version = resource_version fmt env dc.icao_code dc.qcmp_port in
      subst (λ r. Mirrors cs ((j, dc) ∷ server) m cm (apply_datacenters fmt none r b)) parts
        (elim (push_datacenter-cases fmt env cs (fmt.show_ip j) (fmt.show_ip j) dc.icao_code
          dc.qcmp_port first g) [
            | inl (known, none_first) ↦
                let (ok, m', kept, has) =
                  push_datacenters-Mirrors cs server more b m cm sorted' valid h f in
                subst
                  (λ r.
                    Mirrors cs ((j, dc) ∷ server) m cm (apply_datacenters fmt none (r ++ more) b))
                  (sym none_first)
                  (
                    ok,
                    m',
                    kept,
                    λ ip.
                        has ip ∙ sym (mirrored_known fmt env cs j dc server m.map ip known absent),
                  )
            | inr (unknown, payload, encoded, one_first) ↦
                let m1 = Datacenters.insert_datacenter j dc m in
                let (ok, m', kept, has) =
                  push_datacenters-Mirrors cs server more (insert_dc j dc b) m1 cm sorted' valid h
                    (maps-insert_dc fmt env j dc b m cm f) in
                subst
                  (λ r.
                    Mirrors cs ((j, dc) ∷ server) m cm (apply_datacenters fmt none (r ++ more) b))
                  (sym one_first)
                  (subst (Mirrors cs ((j, dc) ∷ server) m cm)
                    (sym (apply-other cs j dc (fmt.show_ip j) version payload more b v encoded))
                    (
                      ok,
                      m',
                      kept,
                      λ ip.
                          has ip
                          ∙ sym (mirrored_unknown fmt env cs j dc server m.map ip unknown absent),
                    ))
          ])

  own_skipped :
      (cs : ClientState) (server : Config F U P) (own rest : List (Resource P)) (b : Bridge U P)
      → push_self fmt env cs server ≡ some own
      → apply_datacenters fmt none (own ++ rest) b ≡ apply_datacenters fmt none rest b
  unfolding push_self
  own_skipped cs server own rest b e = elim (Option-cases server.qcmp_port) [
    | inl f ↦
        let nothing : [] ≡ own = ground (arith, e, f) in
        ap (λ r. apply_datacenters fmt none (r ++ rest) b) (sym nothing)
    | inr (port, f) ↦
        let g : push_datacenter fmt env cs server.id [] server.icao_code port ≡ some own =
          ground (arith, e, f) in
        elim (push_datacenter-cases fmt env cs server.id [] server.icao_code port own g) [
          | inl (_, nothing) ↦ ap (λ r. apply_datacenters fmt none (r ++ rest) b) nothing
          | inr (_, payload, encoded, one) ↦
              ap (λ r. apply_datacenters fmt none (r ++ rest) b) one
              ∙ apply-own (record { host = []; qcmp_port = port; icao_code = server.icao_code })
                  server.id (resource_version fmt env server.icao_code port) payload rest b refl
                  encoded
        ]
  ]

  found_datacenters :
      (cs : ClientState) (server : Config F U P) (dcs : DatacenterMap) (res : DeltaDiscoveryRes P)
      → server.datacenters ≡ some dcs
      → delta_datacenters fmt env cs server ≡ some res
      → (own others : List (Resource P)) × (push_self fmt env cs server ≡ some own)
        × (push_datacenters fmt env cs dcs.map ≡ some others)
        × (own ++ others ≡ res.resources)
  unfolding delta_datacenters
  found_datacenters cs server dcs res d e = elim (Option-cases (push_self fmt env cs server)) [
    | inl f ↦ absurd (ground (arith, e, f))
    | inr (own, f) ↦ elim (Option-cases (push_datacenters fmt env cs dcs.map)) [
      | inl g ↦ absurd (ground (arith, e, d, f, g))
      | inr (others, g) ↦
          let found : record {
            resources = own ++ others;
            removed = gone fmt env cs.versions dcs.map;
          }
              ≡ res =
            ground (arith, e, d, f, g) in
          (own, others, f, g, ap (λ r. r.resources) found)
    ]
  ]

  apply_delta-datacenters :
      (ty : Bytes) (resources : List (Resource P)) (removed : List Bytes) (client : Config F U P)
      (m m' : DatacenterMap) (cm : ClusterMap U P)
      → resource_type ty ≡ some datacenter_type
      → client.datacenters ≡ some m
      → client.clusters ≡ some cm
      → (apply_datacenters fmt none resources (new_bridge client)).1.maps ≡ some (m', cm)
      → let (is_ok, client') = apply_delta fmt env ty resources removed none client in
        (is_ok ≡ (apply_datacenters fmt none resources (new_bridge client)).0)
        × (client'.datacenters ≡ some m')
        × (client'.clusters ≡ some cm)
  unfolding apply_delta drop_bridge
  apply_delta-datacenters ty resources removed client m m' cm k d c e =
      (ground (arith, k, d), ground (arith, k, d, e), ground (arith, k, d, e))

  -- A client that does not know the server's address applies what the server finds of its datacenters
  -- for what it holds of the client: the client takes it, and then has at every address the server's
  -- datacenter, or what it had when the server has none there or holds that the client has it; its
  -- clusters are as before. The server's map is in order, its datacenters
  -- have ports of 16 bits and codes of four letters, and printing and encoding can be undone and
  -- print no address as nothing.
  pub apply_delta-delta_datacenters :
      (ty : Bytes) (cs : ClientState) (server client : Config F U P) (dcs m : DatacenterMap)
      (cm : ClusterMap U P) (res : DeltaDiscoveryRes P)
      → resource_type ty ≡ some datacenter_type
      → server.datacenters ≡ some dcs
      → IsSorted dcs.map
      → All (λ e. IsDatacenter e.1) dcs.map
      → client.datacenters ≡ some m
      → client.clusters ≡ some cm
      → delta_datacenters fmt env cs server ≡ some res
      → let (is_ok, client') =
          apply_delta fmt env ty res.resources (Sets.elements res.removed) none client in
        (is_ok ≡ true)
        × (m' : DatacenterMap) × (client'.datacenters ≡ some m')
        × (client'.clusters ≡ some cm)
        × ((ip : IpAddr) → Maps.get ip m'.map ≡ mirrored fmt env cs dcs.map m.map ip)
  unfolding new_bridge
  apply_delta-delta_datacenters ty cs server client dcs m cm res k d sorted valid n c e =
      let b = new_bridge client in
      let (own, others, f, g, parts) = found_datacenters cs server dcs res d e in
      let start : b.maps ≡ some (m, cm) = ground (arith, n, c) in
      let skipped = own_skipped cs server own others b f in
      let (is_ok, m', kept, has) =
        subst (λ r. Mirrors cs dcs.map m cm (apply_datacenters fmt none r b)) parts
          (subst (Mirrors cs dcs.map m cm) (sym skipped)
            (push_datacenters-Mirrors cs dcs.map others b m cm sorted valid g start)) in
      let (same_ok, datacenters, clusters) =
        apply_delta-datacenters ty res.resources (Sets.elements res.removed) client m m' cm k n c
          kept in
      (same_ok ∙ is_ok, m', datacenters, clusters, has)
