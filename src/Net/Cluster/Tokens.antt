-- ===== src/Net/Cluster/Tokens.antt =====
-- Token maps: which addresses hold a token with a given hash, and the difference of two maps.
pub mod Laws
pub mod Diff
use quilkin.Common.{
  ℕ, ◌+◌, Bool, false, not, Option, none, some, List, [], ◌∷◌, map, if◌then◌else◌, is_some, keep,
  length, ◌==◌, ltb, any, ◌||◌,
}
use quilkin.Common.Order.{Ord, ℕ_ord}
use quilkin.Common.Maps
use quilkin.Common.Maps.{Map}
use quilkin.Common.Sets
use quilkin.Common.Sets.{Set}
use quilkin.Net.Address.{Bytes, EndpointAddress, address_ord, bytes_ord}
use quilkin.Net.Cluster.{EndpointMetadata, InnerMap, TokenAddressMap, TokenMapDiff}

abbrev pub or_default : Option (Set EndpointAddress) → Set EndpointAddress
or_default none = []
or_default (some s) = s

-- `a.symmetric_difference(b).count() > 0`
abbrev sets_differ : Set EndpointAddress → Set EndpointAddress → Bool
sets_differ a b = ltb 0 (length (Sets.difference a b) + length (Sets.difference b a))

-- `token_map.entry(hash).or_default().insert(addr)`
unfoldable pub add_address : ℕ → EndpointAddress → TokenAddressMap → TokenAddressMap
add_address hash addr tm = Maps.insert hash (Sets.insert addr (or_default (Maps.get hash tm))) tm

unfoldable pub add_tokens :
    (Bytes → ℕ) → EndpointAddress → List Bytes → TokenAddressMap → TokenAddressMap
unfolding add_address
add_tokens hash_token addr [] tm = tm
add_tokens hash_token addr (tok ∷ toks) tm =
    add_tokens hash_token addr toks (add_address (hash_token tok) addr tm)

-- The loop over the endpoints that `update` and `build_token_map` share.
module _ {U : Type 0} (hash_token : Bytes → ℕ) where
  unfoldable pub collect_tokens : InnerMap U → TokenAddressMap → TokenAddressMap
  unfolding add_tokens
  collect_tokens [] tm = tm
  collect_tokens ((addr, md) ∷ eps) tm =
      collect_tokens eps (add_tokens hash_token addr (Sets.elements md.tokens) tm)

-- One round of the loop over the old map, given what the new map has for the token.
diff_round : ℕ → Set EndpointAddress → Option (Set EndpointAddress) → TokenMapDiff → TokenMapDiff
diff_round token addrs (some naddrs) hm =
    if sets_differ addrs naddrs then Maps.insert token (some naddrs) hm else hm
diff_round token addrs none hm = Maps.insert token none hm

-- The tokens whose addresses changed or that are gone, from the loop over the old map.
diff_old : TokenAddressMap → TokenAddressMap → TokenMapDiff → TokenMapDiff
unfolding diff_round
diff_old [] new hm = hm
diff_old ((token, addrs) ∷ old) new hm =
    diff_old old new (diff_round token addrs (Maps.get token new) hm)

-- The tokens that the first loop left out, from the loop over the new map.
diff_new : TokenAddressMap → TokenMapDiff → TokenMapDiff
diff_new [] hm = hm
diff_new ((token, addrs) ∷ new) hm =
    diff_new new (if Maps.contains_key token hm then hm else Maps.insert token (some addrs) hm)

unfoldable pub token_map_diff : TokenAddressMap → TokenAddressMap → TokenMapDiff
unfolding diff_old diff_new
token_map_diff old new = diff_new new (diff_old old new [])

-- The loop by which a cluster map takes over a difference.
unfoldable pub apply_diff : TokenMapDiff → TokenAddressMap → TokenAddressMap
apply_diff [] tm = tm
apply_diff ((token, some addrs) ∷ diff) tm = apply_diff diff (Maps.insert token addrs tm)
apply_diff ((token, none) ∷ diff) tm = apply_diff diff (Maps.remove token tm)
