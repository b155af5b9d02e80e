-- ===== src/Net/Cluster/Endpoints/Versions.antt =====
-- The invariant of an endpoint set, and its version (src/net/cluster.rs).
use quilkin.Common.{ℕ, ◌≡◌, refl, Bool, false, List, [], ◌∷◌, map, arith}
use quilkin.Common.Order.{ℕ_ord}
use quilkin.Common.Maps
use quilkin.Common.Maps.{Map, get-insert}
use quilkin.Common.Maps.Sorted.{IsSorted, insert-IsSorted, keep-IsSorted}
use quilkin.Net.Address.{EndpointAddress, address_ord}
use quilkin.Net.Cluster.{EndpointMetadata, Endpoint, InnerMap, Env, EndpointSet}
use quilkin.Net.Cluster.Tokens.{collect_tokens}
use quilkin.Net.Cluster.Tokens.Laws.{
  listed, has_token, listed-collect_tokens, collect_tokens-IsSorted,
}
use quilkin.Net.Cluster.Endpoints.{
  Upserts, update, new, with_version, from_set, replace, partial_replace, insert_all,
  collect_endpoints,
}

module _ {U R : Type 0} (env : Env U R) where
  -- The endpoints stand in order, one for each address, and the token map is theirs.
  pub record IsValid (s : EndpointSet U R) : Type 0 where
    pub sorted : IsSorted s.endpoints
    pub tokens_current : s.token_map ≡ collect_tokens env.hash_token s.endpoints []

insert_all-IsSorted :
    {U : Type 0} (new eps : InnerMap U) → IsSorted eps → IsSorted (insert_all new eps)
unfolding insert_all
insert_all-IsSorted [] eps s = s
insert_all-IsSorted ((a, md) ∷ new) eps s = insert_all-IsSorted new _ (insert-IsSorted a md eps s)

collect_endpoints-IsSorted :
    {U : Type 0} (eps : List (Endpoint U)) → IsSorted (collect_endpoints eps)
unfolding collect_endpoints
collect_endpoints-IsSorted eps =
    insert_all-IsSorted (map (λ ep. (ep.address, ep.metadata)) eps) [] tt

pub nothing_listed : (h : ℕ) (a : EndpointAddress) → listed h a [] ≡ false
unfolding Maps.get
nothing_listed h a = refl

module _ {U R : Type 0} (env : Env U R) where
  pub update-IsValid : (s : EndpointSet U R) → IsSorted s.endpoints → IsValid env (update env s).0
  unfolding update
  update-IsValid s h = record { sorted = h; tokens_current = refl }

  pub new-IsValid : (eps : List (Endpoint U)) → IsValid env (new env eps)
  unfolding new
  new-IsValid eps = update-IsValid (from_set eps) (collect_endpoints-IsSorted eps)

  pub with_version-IsValid :
      (eps : List (Endpoint U)) (v : ℕ) → IsValid env (with_version env eps v)
  unfolding with_version
  with_version-IsValid eps v = record {
    sorted = collect_endpoints-IsSorted eps;
    tokens_current = refl;
  }

  pub replace-IsValid :
      (s t : EndpointSet U R) (removed : List EndpointAddress) (upserted : Upserts)
      → IsValid env t
      → IsValid env (replace env t removed upserted s).0
  unfolding replace
  replace-IsValid s t removed upserted h = ground (arith, h.sorted)

  pub endpoints-replace :
      (s t : EndpointSet U R) (removed : List EndpointAddress) (upserted : Upserts)
      → (replace env t removed upserted s).0.endpoints ≡ t.endpoints
  unfolding replace
  endpoints-replace s t removed upserted = ground arith

  pub partial_replace-IsValid :
      (s t : EndpointSet U R) (p : EndpointMetadata U → Bool)
      → IsValid env s
      → IsValid env (partial_replace env t p s).0
  unfolding partial_replace
  partial_replace-IsValid s t p h = record {
    sorted = insert_all-IsSorted t.endpoints _ (keep-IsSorted _ s.endpoints h.sorted);
    tokens_current = refl;
  }

  -- In a valid set, an address stands under a hash exactly when its endpoint has a token with
  -- that hash.
  pub listed_iff_has_token :
      (s : EndpointSet U R) (h : ℕ) (a : EndpointAddress)
      → IsValid env s
      → listed h a s.token_map ≡ has_token env.hash_token h (Maps.get a s.endpoints)
  listed_iff_has_token s h a v = ground (
    arith,
    v.tokens_current,
    v.sorted,
    listed-collect_tokens env.hash_token h a s.endpoints [] v.sorted,
    nothing_listed h a,
  )

  pub token_map-IsSorted : (s : EndpointSet U R) → IsValid env s → IsSorted s.token_map
  token_map-IsSorted s v =
      rw v.tokens_current (collect_tokens-IsSorted env.hash_token s.endpoints [] tt)
