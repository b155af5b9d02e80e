-- ===== src/Config/Pushed.antt =====
-- A datacenter of a server that is found for a client, and that the client inserts (src/config.rs,
-- `delta_discovery_request`; src/config/corro.rs, `insert_dc`).
use quilkin.Common.{
  ℕ, ◌^◌, ◌≡◌, ◌⊎◌, sym, subst, inl, inr, true, false, ltb, Option, none, some, List, [], ◌∷◌,
  if◌then◌else◌, Option-cases, Bool-cases, arith,
}
use quilkin.Common.Order.{same, same→eq}
use quilkin.Common.Maps
use quilkin.Common.Maps.{Map, get-insert}
use quilkin.Net.Address.{Bytes, IpAddr, ip_ord, bytes_ord}
use quilkin.Net.Cluster.{Env}
use quilkin.Net.Cluster.Clusters.{ClusterMap}
use quilkin.Xds.{Resource, ClientState, version_matches}
use quilkin.Config.{Formats, Datacenter, DatacenterMap, IcaoCode, icao_from_str}
use quilkin.Config.Datacenters
use quilkin.Config.Bridge.{Bridge, insert_dc}
use quilkin.Config.Delta.{resource_version, push_datacenter}

-- A port of 16 bits, and a code that is read as itself.
abbrev pub IsDatacenter : Datacenter → Type 0
IsDatacenter dc =
    (ltb dc.qcmp_port (2 ^ 16) ≡ true) × (icao_from_str dc.icao_code ≡ some dc.icao_code)

module _ {E F P U X : Type 0} (fmt : Formats E F P U X) (env : Env U P) where
  -- What a client has at an address, of what the server has there and what it had itself.
  abbrev pub mirrored :
      ClientState → Map IpAddr Datacenter → Map IpAddr Datacenter → IpAddr → Option Datacenter
  mirrored cs server client ip = elim (Maps.get ip server) [
    | none ↦ Maps.get ip client
    | some dc ↦
        if version_matches (fmt.show_ip ip) (resource_version fmt env dc.icao_code dc.qcmp_port) cs
        then Maps.get ip client
        else some dc
  ]

  pub mirrored_known :
      (cs : ClientState) (j : IpAddr) (dc : Datacenter) (server client : Map IpAddr Datacenter)
      (ip : IpAddr)
      → version_matches (fmt.show_ip j) (resource_version fmt env dc.icao_code dc.qcmp_port) cs
        ≡ true
      → Maps.get j server ≡ none
      → mirrored cs ((j, dc) ∷ server) client ip ≡ mirrored cs server client ip
  unfolding Maps.get
  mirrored_known cs j dc server client ip k n = elim (Bool-cases (same ip j)) [
    | inl s ↦
        let e = same→eq ip j s in
        subst (λ x. mirrored cs ((j, dc) ∷ server) client x ≡ mirrored cs server client x) (sym e)
          (ground (arith, k, n, ip_ord.cmp_refl j))
    | inr s ↦ ground (arith, s)
  ]

  pub mirrored_unknown :
      (cs : ClientState) (j : IpAddr) (dc : Datacenter) (server client : Map IpAddr Datacenter)
      (ip : IpAddr)
      → version_matches (fmt.show_ip j) (resource_version fmt env dc.icao_code dc.qcmp_port) cs
        ≡ false
      → Maps.get j server ≡ none
      → mirrored cs ((j, dc) ∷ server) client ip ≡ mirrored cs server (Maps.insert j dc client) ip
  unfolding Maps.get
  mirrored_unknown cs j dc server client ip k n = elim (Bool-cases (same ip j)) [
    | inl s ↦
        let e = same→eq ip j s in
        subst
          (λ x.
            mirrored cs ((j, dc) ∷ server) client x
            ≡ mirrored cs server (Maps.insert j dc client) x)
          (sym e) (ground (arith, k, n, ip_ord.cmp_refl j, get-insert j j dc client))
    | inr s ↦ ground (arith, s, get-insert ip j dc client)
  ]

  pub push_datacenter-cases :
      (cs : ClientState) (name host : Bytes) (icao : IcaoCode) (port : ℕ) (res : List (Resource P))
      → push_datacenter fmt env cs name host icao port ≡ some res
      → let version = resource_version fmt env icao port in
        ((version_matches name version cs ≡ true) × (res ≡ []))
        ⊎ ((version_matches name version cs ≡ false)
            × (payload : P) × (fmt.encode_datacenter
                  (record { host = host; qcmp_port = port; icao_code = icao })
                ≡ some payload)
            × (res ≡ record { name = name; version = version; payload = some payload } ∷ []))
  unfolding push_datacenter
  push_datacenter-cases cs name host icao port res e =
      let version = resource_version fmt env icao port in
      elim (Bool-cases (version_matches name version cs)) [
        | inl b ↦ inl (b, ground (arith, e, b))
        | inr b ↦
            elim (Option-cases (
              fmt.encode_datacenter (record { host = host; qcmp_port = port; icao_code = icao }))) [
                | inl f ↦ absurd (ground (arith, e, b, f))
                | inr (payload, f) ↦ inr (b, payload, f, ground (arith, e, b, f))
              ]
      ]

  pub maps-insert_dc :
      (ip : IpAddr) (dc : Datacenter) (b : Bridge U P) (m : DatacenterMap) (cm : ClusterMap U P)
      → b.maps ≡ some (m, cm)
      → (insert_dc ip dc b).maps ≡ some (Datacenters.insert_datacenter ip dc m, cm)
  unfolding insert_dc
  maps-insert_dc ip dc b m cm e = elim (Option-cases b.statements) [
    | inl f ↦ ground (arith, e, f)
    | inr (sts, f) ↦ ground (arith, e, f)
  ]
