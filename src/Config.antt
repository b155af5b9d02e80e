-- ===== src/Config.antt =====
-- The configuration of a proxy as far as xDS reads and changes it (src/config.rs,
-- src/config/datacenter.rs, src/xds.rs, crates/types/src/icao.rs). A part that the configuration need
-- not have is none. Printing and parsing of the standard library, the messages' encodings and the
-- endpoints in them are the record `Formats`.
pub mod Datacenters
pub mod Bridge
pub mod Delta
pub mod Apply
pub mod Converges
pub mod Names
pub mod Found
pub mod Settles
pub mod Arrives
pub mod Pushed
pub mod Mirror
pub mod Encodes
pub mod Bridged
pub mod Keeps
pub mod Operations
pub mod Routes
use quilkin.Common.{
  ℕ, ◌+◌, Bool, true, false, ◌&&◌, Option, none, some, List, [], ◌∷◌, length, leb, ltb, ◌==◌,
  if◌then◌else◌,
}
use quilkin.Common.Order.{same}
use quilkin.Common.Maps.{Map}
use quilkin.Net.Address.{Bytes, IpAddr, SocketAddr, EndpointAddress, bytes_ord}
use quilkin.Net.Locality.{ProtoLocality}
use quilkin.Net.Cluster.{Endpoint}
use quilkin.Net.Cluster.Clusters.{ClusterMap}
use quilkin.Common.Sets.{Set}

-- crates/types/src/icao.rs: the four letters.
abbrev pub IcaoCode : Type 0
IcaoCode = Bytes

abbrev valid_range : ℕ → Bool
valid_range c = leb 65 c && leb c 90

abbrev all_valid : Bytes → Bool
all_valid [] = true
all_valid (c ∷ cs) = valid_range c && all_valid cs

unfoldable pub icao_from_str : Bytes → Option IcaoCode
icao_from_str value =
    if length value == 4 then (if all_valid value then some value else none) else none

pub record Datacenter : Type 0 where
  pub qcmp_port : ℕ
  pub icao_code : IcaoCode

pub record DatacenterMap : Type 0 where
  pub map : Map IpAddr Datacenter
  pub removed : List SocketAddr
  pub version : ℕ

-- `proto::Datacenter`; its port has 32 bits.
pub record ProtoDatacenter : Type 0 where
  pub host : Bytes
  pub qcmp_port : ℕ
  pub icao_code : Bytes

-- `proto::Cluster`, `proto::Datacenter` and `proto::FilterChain`; `E` is an endpoint's message, and
-- `X` a filter chain's.
pub data Decoded (E X : Type 0) : Type 0 where
  cluster : Option ProtoLocality → List E → Decoded E X
  datacenter : ProtoDatacenter → Decoded E X
  filter_chain : X → Decoded E X

pub record Formats (E F P U X : Type 0) : Type 0 where
  pub show_ip : IpAddr → Bytes
  pub parse_ip : Bytes → Option IpAddr
  pub show_u64 : ℕ → Bytes
  pub parse_u64 : Bytes → Option ℕ
  pub try_decode : P → Option (Decoded E X)
  pub encode_datacenter : ProtoDatacenter → Option P
  pub encode_filters : F → Option P
  pub hash_payload : P → ℕ
  pub endpoint_try_from : E → Option (Endpoint U)
  pub try_create : X → Option F

-- What is written to corrosion's database for a peer (crates/corrosion/src/db/write.rs).
pub data Statement : Type 0 where
  insert_datacenter : IpAddr → ℕ → IcaoCode → Statement
  remove_datacenter : IpAddr → Statement
  upsert_server : IpAddr → EndpointAddress → IcaoCode → Set Bytes → Statement
  remove_deferred : IpAddr → EndpointAddress → Statement

-- `db_tx` has the batches of statements that were sent.
pub record Config (F U P : Type 0) : Type 0 where
  pub id : Bytes
  pub icao_code : IcaoCode
  pub qcmp_port : Option ℕ
  pub filters : Option F
  pub clusters : Option (ClusterMap U P)
  pub datacenters : Option DatacenterMap
  pub db_tx : Option (List (List Statement))

pub data ResourceType : Type 0 where
  cluster_type datacenter_type filter_chain_type : ResourceType

-- "type.googleapis.com/quilkin.config.v1alpha1."
abbrev pub prefix : Bytes
prefix =
    116 ∷ 121 ∷ 112 ∷ 101 ∷ 46 ∷ 103 ∷ 111 ∷ 111 ∷ 103 ∷ 108 ∷ 101 ∷ 97 ∷ 112 ∷ 105 ∷ 115 ∷ 46 ∷ 99
    ∷ 111 ∷ 109 ∷ 47 ∷ 113 ∷ 117 ∷ 105 ∷ 108 ∷ 107 ∷ 105 ∷ 110 ∷ 46 ∷ 99 ∷ 111 ∷ 110 ∷ 102 ∷ 105
    ∷ 103 ∷ 46 ∷ 118 ∷ 49 ∷ 97 ∷ 108 ∷ 112 ∷ 104 ∷ 97 ∷ 49 ∷ 46 ∷ []

-- "Cluster", "Datacenter" and "FilterChain".
abbrev pub cluster_name : Bytes
cluster_name = 67 ∷ 108 ∷ 117 ∷ 115 ∷ 116 ∷ 101 ∷ 114 ∷ []

abbrev pub datacenter_name : Bytes
datacenter_name = 68 ∷ 97 ∷ 116 ∷ 97 ∷ 99 ∷ 101 ∷ 110 ∷ 116 ∷ 101 ∷ 114 ∷ []

abbrev filter_chain_name : Bytes
filter_chain_name = 70 ∷ 105 ∷ 108 ∷ 116 ∷ 101 ∷ 114 ∷ 67 ∷ 104 ∷ 97 ∷ 105 ∷ 110 ∷ []

abbrev strip_prefix : Bytes → Bytes → Option Bytes
strip_prefix [] s = some s
strip_prefix (c ∷ cs) [] = none
strip_prefix (c ∷ cs) (d ∷ ds) = let rest = strip_prefix cs ds in if c == d then rest else none

unfoldable pub resource_type : Bytes → Option ResourceType
resource_type s = elim (strip_prefix prefix s) [
  | none ↦ none
  | some name ↦
      if same name cluster_name
      then some cluster_type
      else if same name datacenter_name
      then some datacenter_type
      else if same name filter_chain_name
      then some filter_chain_type
      else none
]
