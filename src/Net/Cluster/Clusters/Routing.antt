-- ===== src/Net/Cluster/Clusters/Routing.antt =====
-- The token map of a cluster map (src/net/cluster.rs) after `apply`.
use quilkin.Common.{ℕ, ◌≡◌, refl, ◌∙◌, true, Option, none, some, List, [], ◌∷◌, arith}
use quilkin.Common.Order.{ℕ_ord}
use quilkin.Common.Maps
use quilkin.Common.Maps.{get-insert}
use quilkin.Common.Maps.Sorted.{IsSorted, Above-IsSorted, get-head}
use quilkin.Net.Address.{EndpointAddress, Locality, address_ord, locality_key_ord}
use quilkin.Net.Cluster.{Env, EndpointSet, TokenAddressMap}
use quilkin.Net.Cluster.Tokens.{token_map_diff}
use quilkin.Net.Cluster.Tokens.Laws.{listed, has_token}
use quilkin.Net.Cluster.Tokens.Diff.{routed, get-apply_token_map_diff}
use quilkin.Net.Cluster.Endpoints.{Upserts, replace, update, build_token_map}
use quilkin.Net.Cluster.Endpoints.Versions.{
  IsValid, nothing_listed, listed_iff_has_token, token_map-IsSorted,
}
use quilkin.Net.Cluster.Clusters.{ClusterMap, apply_managed, insert_new, add_all}
use quilkin.Net.Cluster.Clusters.Total.{get-AllValid}
use quilkin.Net.Cluster.Clusters.Invariant.{Inv}

get-add_all :
    (t : ℕ) (new_map tm : TokenAddressMap)
    → IsSorted new_map
    → Maps.get t (add_all new_map tm) ≡ routed none (Maps.get t new_map) (Maps.get t tm)
unfolding Maps.get
get-add_all t [] tm s = refl
get-add_all t ((k, addrs) ∷ rest) tm s = ground (
  arith,
  get-add_all t rest (Maps.insert k addrs tm) (Above-IsSorted k rest s),
  get-insert t k addrs tm,
  get-head k rest s,
  ℕ_ord.eq_of_cmp t k,
)

module _ {U R : Type 0} (env : Env U R) where
  abbrev pub old_tokens : Option (EndpointSet U R) → TokenAddressMap
  old_tokens none = []
  old_tokens (some c) = c.token_map

  diff-replace :
      (c s : EndpointSet U R) (removed : List EndpointAddress) (upserted : Upserts)
      → IsValid env s
      → (replace env s removed upserted c).4 ≡ token_map_diff c.token_map s.token_map
  unfolding replace update build_token_map
  diff-replace c s removed upserted v = ground (arith, v.tokens_current)

  get-apply_managed :
      (t : ℕ) (l : Option Locality) (s : EndpointSet U R) (removed : List EndpointAddress)
      (upserted : Upserts) (cm : ClusterMap U R) (o : Option (EndpointSet U R))
      → Maps.get l cm.map ≡ o
      → ((c : EndpointSet U R) → o ≡ some c → IsSorted c.token_map)
      → IsValid env s
      → Maps.get t (apply_managed env l s removed upserted cm).cluster_map.token_map
        ≡ routed (Maps.get t (old_tokens o)) (Maps.get t s.token_map) (Maps.get t cm.token_map)
  unfolding apply_managed insert_new Maps.get
  get-apply_managed t l s removed upserted cm none e sorted v =
      rw (e, apply_managed) (get-add_all t s.token_map cm.token_map (token_map-IsSorted env s v))
  get-apply_managed t l s removed upserted cm (some c) e sorted v =
      rw (e, apply_managed)
        (rw (diff-replace c s removed upserted v) (
          get-apply_token_map_diff t c.token_map s.token_map cm.token_map (sorted c refl)
            (token_map-IsSorted env s v)))

  -- In a map that keeps its invariant, after a valid set is applied to a locality, each token leads to
  -- the addresses that this set has for it; a token that it lacks and that the locality's set had
  -- before leads nowhere, and any other leads where it did.
  pub apply_routed :
      (t : ℕ) (l : Option Locality) (s : EndpointSet U R) (removed : List EndpointAddress)
      (upserted : Upserts) (cm : ClusterMap U R)
      → Inv env cm
      → IsValid env s
      → Maps.get t (apply_managed env l s removed upserted cm).cluster_map.token_map
        ≡ routed
            (Maps.get t (old_tokens (Maps.get l cm.map)))
            (Maps.get t s.token_map)
            (Maps.get t cm.token_map)
  apply_routed t l s removed upserted cm i v =
      get-apply_managed t l s removed upserted cm (Maps.get l cm.map) refl
        (λ c e. token_map-IsSorted env c (get-AllValid env l c cm.map i.sets_valid e)) v

  listed-routed :
      (t : ℕ) (a : EndpointAddress) (old now known tm : TokenAddressMap)
      → Maps.get t tm ≡ routed (Maps.get t old) (Maps.get t now) (Maps.get t known)
      → listed t a now ≡ true
      → listed t a tm ≡ true
  unfolding Maps.get
  listed-routed t a old now known tm e h = ground (arith, nothing_listed t a)

  -- In a map that keeps its invariant, after a valid set is applied, every endpoint of this set is
  -- listed under the hash of each of its tokens.
  apply_lists_tokens :
      (t : ℕ) (a : EndpointAddress) (l : Option Locality) (s : EndpointSet U R)
      (removed : List EndpointAddress) (upserted : Upserts) (cm : ClusterMap U R)
      → Inv env cm
      → IsValid env s
      → has_token env.hash_token t (Maps.get a s.endpoints) ≡ true
      → listed t a (apply_managed env l s removed upserted cm).cluster_map.token_map ≡ true
  apply_lists_tokens t a l s removed upserted cm i v h =
      listed-routed t a (old_tokens (Maps.get l cm.map)) s.token_map cm.token_map _
        (apply_routed t l s removed upserted cm i v) (listed_iff_has_token env s t a v ∙ h)
