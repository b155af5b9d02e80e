-- ===== src/Tests/Xdp.antt =====
-- Sessions of the XDP backend at concrete inputs.
use quilkin.Common.{
  Option, ◌+◌, ℕ, ◌-◌, ◌/◌, ◌^◌, ◌≡◌, ◌≤◌, ◌<◌, ◌==◌, refl, sym, subst, inl, some, none, [], ◌∷◌,
  length, if◌then◌else◌, arith,
}
use quilkin.Common.Maps
use quilkin.Net.Address.{IpAddr, ip_ord, v4, v6, SocketAddr}
use quilkin.Collections.Ttl.{Expiring}
use quilkin.Net.Xdp.{
  ephemeral_range_end, bucket_size, Buckets, new_port_map, port_map_get, port_map_insert,
  PortMapper, SessionState, lookup_client, get_or_create,
}
use quilkin.Net.Xdp.Asn.{
  asn_cache_ttl, AsnCache, cache_get, get_or_insert_with, sweep, State, AsnInfo, ips,
  state_lookup_client, state_session, receive,
}
use quilkin.Net.Xdp.Known.{state_session-lookup_client}
use quilkin.Net.Xdp.Ports.{IsClient}
use quilkin.Net.Xdp.Items.{IsFull, new_port_map-IsFull}
use quilkin.Net.Xdp.Clients.{port_map_insert-get}
use quilkin.Net.Xdp.Mapper.{Mapper}
use quilkin.Net.Xdp.States.{IsState, get_or_create-lookup_client}

abbrev client : SocketAddr
client = record { ip = v4 16909060; port = 7000 }

abbrev server : SocketAddr
server = record { ip = v6 1; port = 26000 }

client-IsClient : IsClient client
client-IsClient = (omega arith, ground arith)

-- The last port of the first bucket.
port_map_insert-get_example :
    (buckets' : Buckets) × (port_map_insert client 61111 new_port_map ≡ some buckets')
    × IsFull buckets'
    × ((61111 - ephemeral_range_end) / bucket_size < length buckets')
    × ((q : ℕ)
        → ephemeral_range_end ≤ q
        → port_map_get q buckets'
          ≡ (if q == 61111 then some client else port_map_get q new_port_map))
port_map_insert-get_example =
    port_map_insert-get client 61111 new_port_map client-IsClient new_port_map-IsFull (omega arith)
      (omega arith)

-- A mapper whose ports have run out.
abbrev spent : PortMapper ℕ
spent = record { client_to_port = []; port_to_client = new_port_map; port = 0 }

abbrev state : SessionState ℕ
state = record { inner = (server, record { value = spent; expires_at = 9 }) ∷ []; ttl = 60 }

spent-Mapper : Mapper spent
unfolding Maps.get
spent-Mapper = (new_port_map-IsFull, inl refl, λ c info e. absurd (ground (arith, e)))

state-IsState : IsState state
unfolding Maps.get
state-IsState other pm e =
    let v : Expiring (PortMapper ℕ) = record { value = spent; expires_at = 9 } in
    let same_entry : pm ≡ v = ground (arith, e) in
    subst (λ w. Mapper w.value) (sym same_entry) spent-Mapper

get_or_create-lookup_client_example :
    (port : ℕ) × (state' : SessionState ℕ) × (get_or_create (some 5) client server none 2 state
      ≡ some (port, state'))
    × (ephemeral_range_end ≤ port)
    × (port < 2 ^ 16)
    × ((lookup_client (some 7) server port state').0 ≡ some client)
    × IsState state'
get_or_create-lookup_client_example =
    get_or_create-lookup_client (some 5) (some 7) client server none 0 state state-IsState
      client-IsClient

-- A network is its number here, and so is the text of it.
abbrev lookup : IpAddr → Option ℕ
lookup (v4 n) = some 64512
lookup (v6 n) = none

abbrev unknown : AsnInfo ℕ ℕ
unknown = record { asn = 0; prefix = 0 }

abbrev started : State ℕ ℕ
started = record {
  addr_to_asn = record { map = []; next_sweep = 0 };
  sessions = state;
  local_ipv4 = 1;
  local_ipv6 = 2;
  last_receive = 100;
}

abbrev same_text : ℕ → ℕ
same_text n = n

state_session-lookup_client_example :
    (port : ℕ) × (asn : AsnInfo ℕ ℕ) × (s' : State ℕ ℕ) × (state_session lookup same_text same_text
        unknown
        (some 5)
        client
        server
        2
        started
      ≡ some ((port, asn, ips started server.ip), s'))
    × (ephemeral_range_end ≤ port)
    × ((state_lookup_client lookup same_text same_text unknown
          (some 7)
          server
          port
          (receive 59000000099 s')).0
        ≡ some (client, asn))
state_session-lookup_client_example =
    state_session-lookup_client lookup same_text same_text unknown (some 5) (some 7) client server 0
      59000000099 started state-IsState tt client-IsClient (omega arith)

-- Two addresses, of which one is read again before the interval is over.
abbrev two_entries : AsnCache ℕ ℕ
two_entries =
    (get_or_insert_with (v4 2) 0 none (get_or_insert_with (v4 1) 0 none started.addr_to_asn).1).1

idle_entry_evicted :
    length (sweep (asn_cache_ttl + 1) (cache_get (v4 1) asn_cache_ttl (sweep 1 two_entries)).1).map
    ≡ 1
unfolding sweep cache_get get_or_insert_with Maps.get Maps.insert ip_ord
idle_entry_evicted = refl
