-- ===== src/Filters.antt =====
-- Filters (src/filters): the contexts that they read and write, their errors, and the values that they
-- pass to one another (src/net/endpoint/metadata.rs). A run that panics gives no result.
pub mod Packet
pub mod Firewall
pub mod Capture
pub mod Routing
pub mod Chain
pub mod Match
pub mod RateLimit
use quilkin.Common.{
  ℕ, ◌-◌, Bool, true, false, Option, none, some, List, [], ◌∷◌, length, ◌==◌, ◌&&◌,
}
use quilkin.Common.Order.{Ord, same}
use quilkin.Common.Maps.{Map}
use quilkin.Net.Address.{Bytes, IpAddr, EndpointAddress, SocketAddr, AddressKind, bytes_ord}
use quilkin.Net.Cluster.Clusters.{ClusterMap}

mutual
  pub data Value : Type 0 where
    bool : Bool → Value
    number : ℕ → Value
    list : Values → Value
    string : Bytes → Value
    bytes : Bytes → Value

  pub data Values : Type 0 where
    empty : Values
    more : Value → Values → Values

abbrev pub DynamicMetadata : Type 0
DynamicMetadata = Map Bytes Value

pub data RouterError : Type 0 where
  no_token_found : RouterError
  no_endpoint_match : Bytes → RouterError

pub data FilterError : Type 0 where
  no_value_captured : FilterError
  token_router : RouterError → FilterError
  io : FilterError
  firewall_denied : FilterError
  match_no_metadata : FilterError
  dropped : FilterError
  rate_limit_exceeded : FilterError
  custom : Bytes → FilterError

pub data Verdict : Type 0 where
  passed : Verdict
  failed : FilterError → Verdict

pub record ReadContext (U R : Type 0) : Type 0 where
  pub endpoints : ClusterMap U R
  pub destinations : List EndpointAddress
  pub source : EndpointAddress
  pub contents : Bytes
  pub metadata : DynamicMetadata

pub record WriteContext : Type 0 where
  pub source : EndpointAddress
  pub dest : EndpointAddress
  pub contents : Bytes
  pub metadata : DynamicMetadata

unfoldable pub new_read_context :
    {U R : Type 0}
    → ClusterMap U R
    → EndpointAddress
    → Bytes
    → List EndpointAddress
    → ReadContext U R
new_read_context endpoints source contents destinations = record {
  endpoints = endpoints;
  destinations = destinations;
  source = source;
  contents = contents;
  metadata = [];
}

-- A filter with the state `S` that filters keep between packets.
pub record Filter (U R S : Type 0) : Type 0 where
  pub read : ReadContext U R → S → Option (Verdict × ReadContext U R × S)
  pub write : WriteContext → S → Option (Verdict × WriteContext × S)

unfoldable pub is_byte : ℕ → Bytes → Bool
is_byte n (b ∷ []) = n == b
is_byte n _ = false

-- `PartialEq for Value`, the left side first.
unfoldable mutual
  pub value_eq : Value → Value → Bool
  value_eq (bool true) (bool b) = b
  value_eq (bool false) (bool true) = false
  value_eq (bool false) (bool false) = true
  value_eq (number a) (number b) = a == b
  value_eq (number a) (bytes b) = is_byte a b
  value_eq (list a) (list b) = values_eq a b
  value_eq (string a) (string b) = same a b
  value_eq (bytes a) (bytes b) = same a b
  value_eq (string a) (bytes b) = same a b
  value_eq (bytes b) (string a) = same a b
  value_eq _ _ = false

  pub values_eq : Values → Values → Bool
  values_eq empty empty = true
  values_eq (more a rest) (more b rest') = value_eq a b && values_eq rest rest'
  values_eq _ _ = false

-- `to_socket_addr`: a name is resolved outside, which may fail.
unfoldable pub to_socket_addr : (Bytes → Option IpAddr) → EndpointAddress → Option SocketAddr
to_socket_addr resolve address = elim address.host [
  | AddressKind.ip ip ↦ some (record { ip = ip; port = address.port })
  | AddressKind.name n ↦ elim (resolve n) [
    | none ↦ none
    | some ip ↦ some (record { ip = ip; port = address.port })
  ]
]
