-- ===== src/Net/Cluster/Endpoints.antt =====
-- `EndpointSet` of src/net/cluster.rs and its write guard. The hash of the endpoints is recomputed by
-- `update`; `&mut self` is the set that a function returns.
pub mod Given
pub mod Versions
pub mod Report
use quilkin.Common.{
  ℕ, Bool, true, false, not, Option, none, some, List, [], ◌∷◌, ◌++◌, map, if◌then◌else◌, is_some,
  keep, length, ◌==◌, ◌&&◌,
}
use quilkin.Common.Order.{Ord, same}
use quilkin.Common.Order.Derive.{list_ord}
use quilkin.Common.Maps
use quilkin.Common.Maps.{Map}
use quilkin.Common.Sets
use quilkin.Common.Sets.{Set}
use quilkin.Net.Address.{Bytes, EndpointAddress, Locality, address_ord, bytes_ord, locality_key_ord}
use quilkin.Net.Cluster.{
  EndpointMetadata, Endpoint, InnerMap, TokenAddressMap, TokenMapDiff, Env, EndpointSet,
}
use quilkin.Net.Cluster.Tokens.{collect_tokens, token_map_diff}

-- `!=` on two token sets.
abbrev pub tokens_ne : Set Bytes → Set Bytes → Bool
tokens_ne a b = not (same ⦃o = list_ord bytes_ord⦄ (Sets.elements a) (Sets.elements b))

abbrev pub Upserts : Type 0
Upserts = List (EndpointAddress × Set Bytes)

module _ {U : Type 0} where
  -- What `update` feeds to the hasher.
  unfoldable hashed : InnerMap U → List (EndpointAddress × Set Bytes)
  hashed eps = map (λ e. (e.0, e.1.known.tokens)) eps

  -- One round of the loop of `replace` over the new endpoints.
  unfoldable pub push_if_changed :
      EndpointAddress → Set Bytes → Option (EndpointMetadata U) → Upserts → Upserts
  push_if_changed addr tokens none upserted = upserted ++ (addr, tokens) ∷ []
  push_if_changed addr tokens (some o) upserted =
      if tokens_ne tokens o.known.tokens then upserted ++ (addr, tokens) ∷ [] else upserted

  unfoldable pub push_upserted : InnerMap U → InnerMap U → Upserts → Upserts
  unfolding push_if_changed
  push_upserted old [] upserted = upserted
  push_upserted old ((addr, md) ∷ eps) upserted =
      push_upserted old eps (push_if_changed addr md.known.tokens (Maps.get addr old) upserted)

  -- The loop of `replace` over the old endpoints.
  unfoldable pub push_removed :
      InnerMap U → InnerMap U → List EndpointAddress → List EndpointAddress
  push_removed new [] removed = removed
  push_removed new ((addr, md) ∷ old) removed =
      push_removed new old (if Maps.contains_key addr new then removed else removed ++ addr ∷ [])

  unfoldable pub insert_all : InnerMap U → InnerMap U → InnerMap U
  insert_all [] eps = eps
  insert_all ((addr, md) ∷ new) eps = insert_all new (Maps.insert addr md eps)

  -- Of several endpoints with one address, the last stays: they are ordered by their address alone.
  unfoldable pub collect_endpoints : List (Endpoint U) → InnerMap U
  unfolding insert_all
  collect_endpoints eps = insert_all (map (λ ep. (ep.address, ep.metadata)) eps) []

  -- `iter().find_map(...)`: the first address whose metadata passes the test.
  unfoldable pub find_address : (EndpointMetadata U → Bool) → InnerMap U → Option EndpointAddress
  find_address p [] = none
  find_address p ((addr, md) ∷ eps) = if p md then some addr else find_address p eps

module _ {U R : Type 0} where
  unfoldable pub from_set : List (Endpoint U) → EndpointSet U R
  unfolding collect_endpoints
  from_set eps = record {
    endpoints = collect_endpoints eps;
    token_map = [];
    hash = 0;
    change_id = 0;
    cache = none;
  }

  abbrev len : EndpointSet U R → ℕ
  len s = length s.endpoints

  abbrev is_empty : EndpointSet U R → Bool
  is_empty s = len s == 0

  abbrev contains : Endpoint U → EndpointSet U R → Bool
  contains ep s = Maps.contains_key ep.address s.endpoints

  abbrev version : EndpointSet U R → ℕ
  version s = s.hash

  unfoldable pub endpoint_iter : EndpointSet U R → List (Endpoint U)
  endpoint_iter s = map (λ e. record { address = e.0; metadata = e.1 }) s.endpoints

  unfoldable pub to_map : EndpointSet U R → Upserts
  to_map s = map (λ e. (e.0, e.1.known.tokens)) s.endpoints

module _ {U R : Type 0} (env : Env U R) where
  -- The new set, and the token map that it had.
  unfoldable pub update : EndpointSet U R → EndpointSet U R × TokenAddressMap
  unfolding hashed
  update s = (
    record s {
      token_map = collect_tokens env.hash_token s.endpoints [];
      hash = env.hash_endpoints (hashed s.endpoints);
    },
    s.token_map,
  )

  unfoldable pub build_token_map : EndpointSet U R → EndpointSet U R × TokenAddressMap
  build_token_map s =
      (record s { token_map = collect_tokens env.hash_token s.endpoints [] }, s.token_map)

  unfoldable pub new : List (Endpoint U) → EndpointSet U R
  unfolding update from_set
  new eps = (update (from_set eps)).0

  unfoldable pub with_version : List (Endpoint U) → ℕ → EndpointSet U R
  unfolding build_token_map from_set
  with_version eps hash = (build_token_map (record (from_set eps) { hash = hash })).0

  -- Without an encoding the cached one is kept; the set comes back beside the result.
  unfoldable pub encoded_cluster : Option Locality → EndpointSet U R → Option R × EndpointSet U R
  unfolding endpoint_iter
  encoded_cluster locality s =
      let fresh : Option R × EndpointSet U R = elim (env.encode locality (endpoint_iter s)) [
        | none ↦ (none, s)
        | some resource ↦ (
          some resource,
          record s {
            cache = some (record { version = s.hash; locality = locality; resource = resource });
          },
        )
      ] in
      elim s.cache [
        | none ↦ fresh
        | some cached ↦
            if cached.version == s.hash && same cached.locality locality
            then (some cached.resource, s)
            else fresh
      ]

  -- `replace`: the set, `removed`, `upserted`, the old length and the difference of the token maps.
  unfoldable pub replace :
      EndpointSet U R
      → List EndpointAddress
      → Upserts
      → EndpointSet U R
      → EndpointSet U R × List EndpointAddress × Upserts × ℕ × TokenMapDiff
  unfolding push_upserted push_removed update build_token_map
  replace replacement removed upserted s =
      let old = s.endpoints in
      let s' : EndpointSet U R = record s { endpoints = replacement.endpoints } in
      let (s'', old_tm) =
        if replacement.hash == 0
        then update s'
        else build_token_map (record s' { hash = replacement.hash }) in
      (
        s'',
        push_removed replacement.endpoints old removed,
        push_upserted old replacement.endpoints upserted,
        length old,
        token_map_diff old_tm s''.token_map,
      )

  -- The set, its new and old lengths, and the difference of the token maps.
  unfoldable pub partial_replace :
      EndpointSet U R
      → (EndpointMetadata U → Bool)
      → EndpointSet U R
      → EndpointSet U R × ℕ × ℕ × TokenMapDiff
  unfolding insert_all update
  partial_replace replacement should_be_replaced s =
      let kept = keep (λ e. not (should_be_replaced e.1)) s.endpoints in
      let eps = insert_all replacement.endpoints kept in
      let (s', old_tm) = update (record s { endpoints = eps }) in
      (s', length eps, length s.endpoints, token_map_diff old_tm s'.token_map)

pub record EndpointSetWriteGuard (U R : Type 0) : Type 0 where
  pub endpoint_set : EndpointSet U R
  pub needs_update : Bool

module _ {U R : Type 0} where
  abbrev pub modify : EndpointSet U R → EndpointSetWriteGuard U R
  modify s = record { endpoint_set = s; needs_update = false }

  abbrev write_endpoints : EndpointSetWriteGuard U R → InnerMap U → EndpointSetWriteGuard U R
  write_endpoints g eps = record {
    endpoint_set = record g.endpoint_set { endpoints = eps };
    needs_update = true;
  }

  unfoldable pub replace_endpoint :
      Endpoint U → EndpointSetWriteGuard U R → EndpointSetWriteGuard U R × Option (Endpoint U)
  replace_endpoint ep g = (
    write_endpoints g (Maps.insert ep.address ep.metadata g.endpoint_set.endpoints),
    elim (Maps.get ep.address g.endpoint_set.endpoints) [
      | none ↦ none
      | some metadata ↦ some (record { address = ep.address; metadata = metadata })
    ],
  )

  unfoldable pub remove_endpoint :
      Endpoint U → EndpointSetWriteGuard U R → EndpointSetWriteGuard U R × Bool
  remove_endpoint ep g = (
    write_endpoints g (Maps.remove ep.address g.endpoint_set.endpoints),
    is_some (Maps.get ep.address g.endpoint_set.endpoints),
  )

  unfoldable pub remove_endpoint_if :
      (EndpointMetadata U → Bool) → EndpointSetWriteGuard U R → EndpointSetWriteGuard U R × Bool
  remove_endpoint_if closure g = elim (find_address closure g.endpoint_set.endpoints) [
    | some address ↦ (write_endpoints g (Maps.remove address g.endpoint_set.endpoints), true)
    | none ↦ (g, false)
  ]

-- Dropping the guard brings the token map and the hash up to date.
unfoldable pub drop_guard : {U R : Type 0} → Env U R → EndpointSetWriteGuard U R → EndpointSet U R
unfolding update
drop_guard env g = if g.needs_update then (update env g.endpoint_set).0 else g.endpoint_set
