-- ===== src/Xds.antt =====
-- The delta protocol of xDS (crates/xds/src/config.rs): its messages, and what a server knows of the
-- resources of one type that a client has. Names, versions and type URLs are texts, byte by byte; a
-- nonce is the number of its UUID, or none where the text is not one.
pub mod Tracker
pub mod Server
pub mod Client
pub mod Link
pub mod Quiet
pub mod Panics
use quilkin.Common.{ℕ, Bool, true, false, Option, none, some, List, [], ◌∷◌, if◌then◌else◌}
use quilkin.Common.Order.{same}
use quilkin.Common.Maps
use quilkin.Common.Maps.{Map}
use quilkin.Common.Sets
use quilkin.Common.Sets.{Set}
use quilkin.Net.Address.{Bytes, bytes_ord}

abbrev pub VersionMap : Type 0
VersionMap = Map Bytes Bytes

pub record DeltaDiscoveryRequest : Type 0 where
  pub node : Option Bytes
  pub type_url : Bytes
  pub resource_names_subscribe : List Bytes
  pub resource_names_unsubscribe : List Bytes
  pub initial_resource_versions : VersionMap
  pub response_nonce : Option ℕ
  pub error_detail : Option Bytes

-- `P` stands for the encoded payload.
pub record Resource (P : Type 0) : Type 0 where
  pub name : Bytes
  pub version : Bytes
  pub payload : Option P

pub record DeltaDiscoveryResponse (P : Type 0) : Type 0 where
  pub control_plane : Option Bytes
  pub type_url : Bytes
  pub resources : List (Resource P)
  pub removed_resources : List Bytes
  pub nonce : Option ℕ
  pub system_version_info : Bytes

pub record ClientState : Type 0 where
  pub resource_type : Bytes
  pub versions : VersionMap
  pub subscribed : Set Bytes

abbrev pub is_empty_map {ℓ} : {A : Type ℓ} → List A → Bool
is_empty_map [] = true
is_empty_map (x ∷ xs) = false

unfoldable pub new_state : Bytes → ClientState
new_state resource_type = record { resource_type = resource_type; versions = []; subscribed = [] }

unfoldable pub reset : VersionMap → ClientState → ClientState
reset versions cs = record cs { versions = versions; subscribed = [] }

unfoldable pub subscribe : List Bytes → ClientState → ClientState
subscribe [] cs = cs
subscribe (sub ∷ subs) cs = subscribe subs (record cs {
  versions = Maps.remove sub cs.versions;
  subscribed = Sets.insert sub cs.subscribed;
})

unfoldable pub unsubscribe : List Bytes → ClientState → ClientState
unsubscribe [] cs = cs
unsubscribe (sub ∷ subs) cs = unsubscribe subs (record cs {
  versions = Maps.remove sub cs.versions;
  subscribed = Sets.remove sub cs.subscribed;
})

-- With initial versions in the request the state becomes what the client says it has.
unfoldable pub update_state : DeltaDiscoveryRequest → ClientState → ClientState
unfolding reset subscribe unsubscribe
update_state req cs =
    let cs' =
      if is_empty_map req.initial_resource_versions
      then cs
      else reset req.initial_resource_versions cs in
    unsubscribe req.resource_names_unsubscribe (subscribe req.resource_names_subscribe cs')

unfoldable pub version_matches : Bytes → Bytes → ClientState → Bool
version_matches key value cs = elim (Maps.get key cs.versions) [
  | none ↦ false
  | some v ↦ same v value
]
