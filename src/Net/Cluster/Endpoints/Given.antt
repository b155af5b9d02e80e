-- ===== src/Net/Cluster/Endpoints/Given.antt =====
-- A set that is made of a list of endpoints (src/net/cluster.rs), which may name an address twice.
use quilkin.Common.{
  ℕ, ◌≡◌, refl, ◌∙◌, ap, Option, none, some, List, [], ◌∷◌, map, if◌then◌else◌, arith,
}
use quilkin.Common.Order.{same}
use quilkin.Common.Maps
use quilkin.Common.Maps.{get-insert}
use quilkin.Net.Address.{EndpointAddress, address_ord}
use quilkin.Net.Cluster.{Env, Endpoint, EndpointMetadata, InnerMap}
use quilkin.Net.Cluster.Tokens.Laws.{listed, has_token}
use quilkin.Net.Cluster.Endpoints.{
  with_version, from_set, build_token_map, collect_endpoints, insert_all,
}
use quilkin.Net.Cluster.Endpoints.Versions.{listed_iff_has_token, with_version-IsValid}

module _ {U : Type 0} where
  -- The first of two, if it is there.
  abbrev or_else :
      Option (EndpointMetadata U) → Option (EndpointMetadata U) → Option (EndpointMetadata U)
  or_else (some md) other = some md
  or_else none other = other

  -- What the last endpoint of the list with this address has.
  unfoldable pub last_given : EndpointAddress → List (Endpoint U) → Option (EndpointMetadata U)
  last_given a [] = none
  last_given a (ep ∷ eps) =
      or_else (last_given a eps) (if same a ep.address then some ep.metadata else none)

  get-insert_all :
      (a : EndpointAddress) (eps : List (Endpoint U)) (m : InnerMap U)
      → Maps.get a (insert_all (map (λ ep. (ep.address, ep.metadata)) eps) m)
        ≡ or_else (last_given a eps) (Maps.get a m)
  unfolding insert_all last_given
  get-insert_all a [] m = refl
  get-insert_all a (ep ∷ eps) m = ground (
    arith,
    get-insert_all a eps (Maps.insert ep.address ep.metadata m),
    get-insert a ep.address ep.metadata m,
  )

module _ {U R : Type 0} (env : Env U R) where
  endpoints-with_version :
      (a : EndpointAddress) (eps : List (Endpoint U)) (version : ℕ)
      → Maps.get a (with_version {R = R} env eps version).endpoints ≡ last_given a eps
  unfolding with_version build_token_map from_set collect_endpoints Maps.get
  endpoints-with_version a eps version = ground (arith, get-insert_all a eps [])

  -- In the set that is made of a list of endpoints, an address has what the last endpoint of the list
  -- with this address has; and the address stands under a hash, in the set's token map, exactly when
  -- this last endpoint has a token with that hash, whatever earlier ones have.
  pub with_version-last_given :
      (a : EndpointAddress) (h : ℕ) (eps : List (Endpoint U)) (version : ℕ)
      → (let s = with_version {R = R} env eps version in
          (Maps.get a s.endpoints ≡ last_given a eps)
          × (listed h a s.token_map ≡ has_token env.hash_token h (last_given a eps)))
  with_version-last_given a h eps version =
      let e = endpoints-with_version a eps version in
      (
        e,
        listed_iff_has_token env (with_version env eps version) h a
              (with_version-IsValid env eps version)
            ∙ ap (has_token env.hash_token h) e,
      )
