-- ===== src/Xds/Client.antt =====
-- The client's side of a delta stream (crates/xds/src/config.rs, `LocalVersions` and
-- `handle_delta_discovery_responses`; crates/xds/src/client.rs, `refresh`). The channel that is told
-- of each type, metrics and traces are left out.
use quilkin.Common.{Option, none, some, List, [], ◌∷◌, map, if◌then◌else◌}
use quilkin.Common.Order.{same}
use quilkin.Common.Maps
use quilkin.Net.Address.{Bytes, IpAddr, bytes_ord}
use quilkin.Xds.{VersionMap, DeltaDiscoveryRequest, DeltaDiscoveryResponse}
use quilkin.Xds.Tracker.{extend}
use quilkin.Xds.Server.{Configuration, ignore_me, versions_of}

abbrev pub LocalVersions : Type 0
LocalVersions = List (Bytes × VersionMap)

unfoldable pub new_local : List Bytes → LocalVersions
new_local types = map (λ ty. (ty, [])) types

-- `get`, the first of the type; where there is none the code panics.
unfoldable pub get_local : Bytes → LocalVersions → Option VersionMap
get_local ty [] = none
get_local ty ((t, versions) ∷ local) = if same t ty then some versions else get_local ty local

-- The map that `get` gives is changed in place.
unfoldable pub put_local : Bytes → VersionMap → LocalVersions → LocalVersions
put_local ty versions' [] = []
put_local ty versions' ((t, versions) ∷ local) =
    if same t ty then (t, versions') ∷ local else (t, versions) ∷ put_local ty versions' local

unfoldable pub remove_names : List Bytes → VersionMap → VersionMap
remove_names [] m = m
remove_names (name ∷ names) m = remove_names names (Maps.remove name m)

-- The type that is ignored, the request that acknowledges or refuses a response, or a panic.
pub data Handled (C : Type 0) : Type 0 where
  ignored panicked : Handled C
  replied : DeltaDiscoveryRequest → C → LocalVersions → Handled C

-- The request that answers a response, with the error where there is one.
abbrev pub reply : {P : Type 0} → Option Bytes → DeltaDiscoveryResponse P → DeltaDiscoveryRequest
reply error response = record {
  node = none;
  type_url = response.type_url;
  resource_names_subscribe = [];
  resource_names_unsubscribe = [];
  initial_resource_versions = [];
  response_nonce = response.nonce;
  error_detail = error;
}

module _ {C P : Type 0} (cfg : Configuration C P) (remote_addr : Option IpAddr)
    (failure : Bytes) where
  -- One response. The text of an error is `failure`.
  unfoldable pub handle_delta_discovery_response :
      DeltaDiscoveryResponse P → C → LocalVersions → Handled C
  unfolding get_local put_local remove_names extend
  handle_delta_discovery_response response config local =
      if same response.type_url ignore_me
      then ignored
      else let (is_ok, config') =
          cfg.apply_delta response.type_url response.resources response.removed_resources
            remote_addr config in
        if is_ok
        then elim (get_local response.type_url local) [
          | none ↦ panicked
          | some versions ↦
              let versions' =
                extend (versions_of response.resources)
                  (remove_names response.removed_resources versions) in
              replied (reply none response) config' (put_local response.type_url versions' local)
        ]
        else replied (reply (some failure) response) config' local

-- The requests of `refresh`, one for each type; a type that is not there panics.
unfoldable pub refresh :
    Bytes → List (Bytes × List Bytes) → LocalVersions → Option (List DeltaDiscoveryRequest)
unfolding get_local
refresh identifier [] local = some []
refresh identifier ((rt, names) ∷ subs) local =
    let rest = refresh identifier subs local in
    elim (get_local rt local) [
      | none ↦ none
      | some versions ↦ elim rest [
        | none ↦ none
        | some requests ↦ some (
            record {
              node = some identifier;
              type_url = rt;
              resource_names_subscribe = names;
              resource_names_unsubscribe = [];
              initial_resource_versions = versions;
              response_nonce = none;
              error_detail = none;
            }
            ∷ requests)
      ]
    ]
