-- ===== src/Net/Cluster.antt =====
-- Endpoint sets and clusters (src/net/cluster.rs): the data, and what the code takes from outside.
pub mod Tokens
pub mod Endpoints
pub mod Clusters
pub mod Batch
pub mod Runs
pub mod Corrosion
use quilkin.Common.{ℕ, Option, Bool, List}
use quilkin.Common.Maps.{Map}
use quilkin.Common.Sets.{Set}
use quilkin.Net.Address.{Bytes, EndpointAddress, Locality}

-- src/net/endpoint.rs: `Metadata`.
pub record Metadata : Type 0 where
  pub tokens : Set Bytes

-- `MetadataView<Metadata>`. `U` stands for the JSON object of user metadata.
pub record EndpointMetadata (U : Type 0) : Type 0 where
  pub known : Metadata
  pub open known use *
  pub unknown : U

pub record Endpoint (U : Type 0) : Type 0 where
  pub address : EndpointAddress
  pub metadata : EndpointMetadata U

abbrev pub InnerMap : Type 0 → Type 0
InnerMap U = Map EndpointAddress (EndpointMetadata U)

abbrev pub TokenAddressMap : Type 0
TokenAddressMap = Map ℕ (Set EndpointAddress)

-- What a change of the token map asks of a larger map: a new set of addresses, or a removal.
abbrev pub TokenMapDiff : Type 0
TokenMapDiff = Map ℕ (Option (Set EndpointAddress))

-- The hash functions of `gxhash`, the default and the `name` test of the user metadata, and the
-- encoding of a cluster as an xDS resource, which may fail.
pub record Env (U R : Type 0) : Type 0 where
  pub hash_token : Bytes → ℕ
  pub hash_endpoints : List (EndpointAddress × Set Bytes) → ℕ
  pub no_unknown : U
  pub has_name : U → Bytes → Bool
  pub encode : Option Locality → List (Endpoint U) → Option R

pub record EncodedCluster (R : Type 0) : Type 0 where
  pub version : ℕ
  pub locality : Option Locality
  pub resource : R

pub record EndpointSet (U R : Type 0) : Type 0 where
  pub endpoints : InnerMap U
  pub token_map : TokenAddressMap
  pub hash : ℕ
  pub change_id : ℕ
  pub cache : Option (EncodedCluster R)
