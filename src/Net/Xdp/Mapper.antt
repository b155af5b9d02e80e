-- ===== src/Net/Xdp/Mapper.antt =====
-- The mapper of a server, whose ports stand for its clients
-- (src/net/io/nic/xdp/process.rs, `PortMapper` and `SessionState::get_or_create`).
use quilkin.Common.{
  ℕ, ◌+◌, ◌-◌, ◌/◌, ◌%◌, ◌^◌, ◌≡◌, ◌≤◌, ◌<◌, ◌⊎◌, ap, inl, inr, Option-cases, Bool-cases, Option,
  none, some, length, ◌==◌, if◌then◌else◌, arith,
}
use quilkin.Common.Maps
use quilkin.Common.Maps.{Map, get-insert, get-insert_self}
use quilkin.Common.Order.{same, same→eq}
use quilkin.Net.Address.{SocketAddr, socket_ord}
use quilkin.Net.Xdp.{
  ephemeral_range_end, bucket_size, Buckets, port_map_get, ClientInfo, PortMapper, new_port_mapper,
  get_or_alloc,
}
use quilkin.Net.Xdp.Ports.{IsClient}
use quilkin.Net.Xdp.Items.{IsFull, new_port_map-IsFull}
use quilkin.Net.Xdp.Clients.{port_map_insert-get}

module _ {A : Type 0} where
  -- The port of each client is below the next one, and the map of ports has the client at it.
  abbrev IsMapped : PortMapper A → Type 0
  IsMapped pm =
      (c : SocketAddr) (info : ClientInfo A)
      → Maps.get c pm.client_to_port ≡ some info
      → (ephemeral_range_end ≤ info.port)
        × (info.port < 2 ^ 16)
        × (ephemeral_range_end ≤ pm.port → info.port < pm.port)
        × (port_map_get info.port pm.port_to_client ≡ some c)

  -- The next port is in the range with a bucket for it, or the ports have run out.
  abbrev HasPorts : PortMapper A → Type 0
  HasPorts pm =
      (pm.port ≡ 0)
      ⊎ ((ephemeral_range_end ≤ pm.port)
          × (pm.port < 2 ^ 16)
          × ((pm.port - ephemeral_range_end) / bucket_size ≤ length pm.port_to_client))

  abbrev pub Mapper : PortMapper A → Type 0
  Mapper pm = IsFull pm.port_to_client × HasPorts pm × IsMapped pm

  -- What a call that gave a port leaves: the client is at the port.
  abbrev pub Gives : SocketAddr → ℕ → PortMapper A → Type 0
  Gives client port pm =
      (ephemeral_range_end ≤ port)
      × (port < 2 ^ 16)
      × (port_map_get port pm.port_to_client ≡ some client)
      × Mapper pm

  pub new_port_mapper-Mapper : Mapper new_port_mapper
  unfolding new_port_mapper Maps.get
  new_port_mapper-Mapper = (
    new_port_map-IsFull,
    inr (omega arith, omega arith, omega arith),
    λ c info e. absurd (ground (arith, e)),
  )

  -- The mapper after a new client has the next port.
  abbrev allocated : SocketAddr → Option A → Buckets → PortMapper A → PortMapper A
  allocated client asn buckets pm = record pm {
    port = (pm.port + 1) % 2 ^ 16;
    port_to_client = buckets;
    client_to_port =
        Maps.insert client (record { asn_info = asn; port = pm.port }) pm.client_to_port;
  }

  allocated-HasPorts :
      (client : SocketAddr) (asn : Option A) (buckets : Buckets) (pm : PortMapper A)
      → ephemeral_range_end ≤ pm.port
      → pm.port < 2 ^ 16
      → (pm.port - ephemeral_range_end) / bucket_size < length buckets
      → HasPorts (allocated client asn buckets pm)
  allocated-HasPorts client asn buckets pm low high room = elim (Bool-cases (pm.port == 65535)) [
    | inl e ↦ inl (ground (arith, e))
    | inr e ↦ inr (ground (arith, e), ground (arith, e), ground (arith, e, room))
  ]

  allocated-IsMapped :
      (client : SocketAddr) (asn : Option A) (buckets : Buckets) (pm : PortMapper A)
      → ephemeral_range_end ≤ pm.port
      → pm.port < 2 ^ 16
      → IsMapped pm
      → ((q : ℕ)
          → ephemeral_range_end ≤ q
          → port_map_get q buckets
            ≡ (if q == pm.port then some client else port_map_get q pm.port_to_client))
      → IsMapped (allocated client asn buckets pm)
  allocated-IsMapped client asn buckets pm low high mapped shown c info e =
      let new : ClientInfo A = record { asn_info = asn; port = pm.port } in
      let got = get-insert c client new pm.client_to_port in
      elim (Bool-cases (same c client)) [
        | inl s ↦
            let t : info ≡ new = ground (arith, e, got, s) in
            let u : info.port ≡ pm.port = ap (λ i. i.port) t in
            (
              ground (arith, u),
              ground (arith, u),
              (λ h. ground (arith, u, h)),
              ground (arith, u, shown info.port (ground (arith, u)), same→eq c client s),
            )
        | inr d ↦
            let (low', high', below, back) = mapped c info (ground (arith, e, got, d)) in
            (
              low',
              high',
              (λ h. ground (arith, below low, h)),
              ground (arith, below low, shown info.port low', back),
            )
      ]

  -- A mapper gives a port for every client, or its ports have run out.
  pub get_or_alloc-Mapper :
      (client : SocketAddr) (asn : Option A) (pm : PortMapper A)
      → IsClient client
      → Mapper pm
      → ((port : ℕ) × (pm' : PortMapper A) × (get_or_alloc client asn pm ≡ some (some port, pm'))
          × Gives client port pm')
        ⊎ ((Maps.get client pm.client_to_port ≡ none)
            × (pm.port ≡ 0)
            × (pm' : PortMapper A) × (get_or_alloc client asn pm ≡ some (none, pm')))
  unfolding get_or_alloc
  get_or_alloc-Mapper client asn pm c (full, ports, mapped) =
      elim (Option-cases (Maps.get client pm.client_to_port)) [
        | inr (info, e) ↦
            let (low, high, below, back) = mapped client info e in
            inl (info.port, pm, ground (arith, e), (low, high, back, (full, ports, mapped)))
        | inl n ↦ elim ports [
          | inl z ↦ inr (n, z, record pm { port = (pm.port + 1) % 2 ^ 16 }, ground (arith, n, z))
          | inr (low, high, room) ↦
              let (buckets, e, full', room', shown) =
                port_map_insert-get client pm.port pm.port_to_client c full low room in
              inl (
                pm.port,
                allocated client asn buckets pm,
                ground (arith, n, e, low),
                (
                  low,
                  high,
                  ground (arith, shown pm.port low),
                  (
                    full',
                    allocated-HasPorts client asn buckets pm low high room',
                    allocated-IsMapped client asn buckets pm low high mapped shown,
                  ),
                ),
              )
        ]
      ]
