-- ===== src/Net/Xdp.antt =====
-- The sessions of the XDP backend (src/net/io/nic/xdp/process.rs): for each server, the ports that
-- stand for its clients. What is known of a client is a value of `A`; metrics and locks are left out.
-- A write past the end of a vector that is not checked has no result.
pub mod Ports
pub mod Items
pub mod Clients
pub mod Mapper
pub mod States
pub mod Asn
pub mod Known
use quilkin.Common.{
  ℕ, suc, ◌+◌, ◌-◌, ◌*◌, ◌/◌, ◌%◌, ◌^◌, zero, Bool, true, false, Option, none, some, List, [], ◌∷◌,
  ◌++◌, length, get_elem?, ltb, leb, ◌==◌, if◌then◌else◌,
}
use quilkin.Common.Maps
use quilkin.Common.Maps.{Map}
use quilkin.Net.Address.{IpAddr, v4, v6, SocketAddr, socket_ord}
use quilkin.Collections.Ttl
use quilkin.Collections.Ttl.{TtlMap, Expiring}

abbrev pub ephemeral_range_end : ℕ
ephemeral_range_end = 61000

abbrev pub bucket_size : ℕ
bucket_size = 112

-- The 16 octets as one number, the first octet highest.
pub record Item : Type 0 where
  pub octets : ℕ
  pub port : ℕ

abbrev pub zeroed : Item
zeroed = record { octets = 0; port = 0 }

-- Of an IPv4 address the first octet is 0xff and the last four are the address; the others stay.
unfoldable pub set_octets : IpAddr → ℕ → ℕ
set_octets (v4 n) octets = (255 * 2 ^ 120 + octets % 2 ^ 120) / 2 ^ 32 * 2 ^ 32 + n
set_octets (v6 n) octets = n

unfoldable pub item_set : SocketAddr → Item → Item
unfolding set_octets
item_set addr item = record { octets = set_octets addr.ip item.octets; port = addr.port }

unfoldable pub item_get : Item → SocketAddr
item_get item = record {
  ip = if item.octets / 2 ^ 120 == 255 then v4 (item.octets % 2 ^ 32) else v6 item.octets;
  port = item.port;
}

abbrev pub Buckets : Type 0
Buckets = List (List Item)

abbrev pub replicate : ℕ → Item → List Item
replicate zero x = []
replicate (suc n) x = x ∷ replicate n x

unfoldable pub zeroed_bucket : List Item
zeroed_bucket = replicate bucket_size zeroed

unfoldable pub new_port_map : Buckets
unfolding zeroed_bucket
new_port_map = zeroed_bucket ∷ []

-- The item at an index, over the buckets.
abbrev pub item_at : ℕ → Buckets → Option Item
item_at i buckets = elim (get_elem? buckets (i / bucket_size)) [
  | none ↦ none
  | some bucket ↦ get_elem? bucket (i % bucket_size)
]

unfoldable pub port_map_get : ℕ → Buckets → Option SocketAddr
unfolding item_get
port_map_get port buckets =
    if ltb port ephemeral_range_end
    then none
    else elim (item_at (port - ephemeral_range_end) buckets) [
      | none ↦ none
      | some item ↦ if item.port == 0 then none else some (item_get item)
    ]

abbrev pub update_at {ℓ} : {A : Type ℓ} → ℕ → (A → A) → List A → List A
update_at i f [] = []
update_at zero f (x ∷ xs) = f x ∷ xs
update_at (suc i) f (x ∷ xs) = x ∷ update_at i f xs

-- One bucket more, if the item would be in the next one.
abbrev pub extended : ℕ → Buckets → Buckets
extended bucket buckets =
    if length buckets == bucket then buckets ++ zeroed_bucket ∷ [] else buckets

-- `port - EPHEMERAL_RANGE_END`, for a port in the range; the buckets are written without a check.
unfoldable pub port_map_insert : SocketAddr → ℕ → Buckets → Option Buckets
unfolding item_set
port_map_insert client_addr port buckets =
    let i = port - ephemeral_range_end in
    let buckets' = extended (i / bucket_size) buckets in
    if ltb (i / bucket_size) (length buckets')
    then some
        (update_at (i / bucket_size) (update_at (i % bucket_size) (item_set client_addr)) buckets')
    else none

pub record ClientInfo (A : Type 0) : Type 0 where
  pub asn_info : Option A
  pub port : ℕ

pub record PortMapper (A : Type 0) : Type 0 where
  pub client_to_port : Map SocketAddr (ClientInfo A)
  pub port_to_client : Buckets
  pub port : ℕ

abbrev pub SessionState : Type 0 → Type 0
SessionState A = TtlMap SocketAddr (PortMapper A)

module _ {A : Type 0} where
  unfoldable pub new_port_mapper : PortMapper A
  unfolding new_port_map
  new_port_mapper = record {
    client_to_port = [];
    port_to_client = new_port_map;
    port = ephemeral_range_end;
  }

  -- The port of a client, or none when the ports have run out; and the mapper.
  unfoldable pub get_or_alloc :
      SocketAddr → Option A → PortMapper A → Option (Option ℕ × PortMapper A)
  unfolding port_map_insert
  get_or_alloc client_addr asn pm = elim (Maps.get client_addr pm.client_to_port) [
    | some info ↦ some (some info.port, pm)
    | none ↦
        let port = pm.port in
        let pm' : PortMapper A = record pm { port = (port + 1) % 2 ^ 16 } in
        if ltb port ephemeral_range_end
        then some (none, pm')
        else elim (port_map_insert client_addr port pm.port_to_client) [
          | none ↦ none
          | some buckets ↦ some (
            some port,
            record pm' {
              port_to_client = buckets;
              client_to_port =
                  Maps.insert client_addr (record { asn_info = asn; port = port })
                    pm.client_to_port;
            },
          )
        ]
  ]

  unfoldable pub lookup_client :
      Option ℕ → SocketAddr → ℕ → SessionState A → Option SocketAddr × SessionState A
  unfolding port_map_get
  lookup_client clock server_addr port state =
      let (found, state') = Ttl.get clock server_addr state in
      (elim found [ none ↦ none | some pm ↦ port_map_get port pm.value.port_to_client ], state')

  -- The mapper of a server, whose entry begins its time anew, or a new one.
  unfoldable pub entry : Option ℕ → SocketAddr → SessionState A → PortMapper A
  unfolding new_port_mapper
  entry clock server_addr state = elim (Ttl.get clock server_addr state).0 [
    | none ↦ new_port_mapper
    | some pm ↦ pm.value
  ]

  -- The mapper in its entry, or in a new one.
  unfoldable pub write_back : Option ℕ → SocketAddr → PortMapper A → SessionState A → SessionState A
  write_back clock server_addr pm state = elim (Ttl.get clock server_addr state).0 [
    | none ↦ (Ttl.insert clock server_addr pm state).1
    | some v ↦ record state {
      inner = Maps.insert server_addr (record v { value = pm }) state.inner;
    }
  ]

  -- When the ports of a server have run out, its mapper is dropped, and the call made again; with no
  -- fuel there is no result.
  unfoldable pub get_or_create :
      Option ℕ
      → SocketAddr
      → SocketAddr
      → Option A
      → ℕ
      → SessionState A
      → Option (ℕ × SessionState A)
  unfolding get_or_alloc entry write_back
  get_or_create clock client_addr server_addr asn zero state = none
  get_or_create clock client_addr server_addr asn (suc fuel) state =
      elim (get_or_alloc client_addr asn (entry clock server_addr state)) [
        | none ↦ none
        | some (some port, pm) ↦ some (port, write_back clock server_addr pm state)
        | some (none, pm) ↦
            get_or_create clock client_addr server_addr asn fuel
              (Ttl.remove server_addr (write_back clock server_addr pm state)).1
      ]
