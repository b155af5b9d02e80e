-- ===== src/Net/Cluster/Tokens/Laws.antt =====
-- The token map of a set of endpoints (src/net/cluster.rs), looked up.
use quilkin.Common.{
  ℕ, ◌≡◌, refl, Bool, false, Option, none, some, List, [], ◌∷◌, ◌||◌, ◌&&◌, arith, any,
}
use quilkin.Common.Order.{ℕ_ord, same}
use quilkin.Common.Maps
use quilkin.Common.Maps.{Map, get-insert, get-remove}
use quilkin.Common.Maps.Sorted.{IsSorted, get-Above, Above-IsSorted, insert-IsSorted}
use quilkin.Common.Sets
use quilkin.Common.Sets.{Set, contains-insert}
use quilkin.Net.Address.{Bytes, EndpointAddress, address_ord, bytes_ord}
use quilkin.Net.Cluster.{EndpointMetadata, InnerMap, TokenAddressMap}
use quilkin.Net.Cluster.Tokens.{or_default, add_address, add_tokens, collect_tokens}

-- Whether an address stands under a hash.
abbrev pub listed : ℕ → EndpointAddress → TokenAddressMap → Bool
listed h a tm = Sets.contains a (or_default (Maps.get h tm))

-- Whether one of the tokens has the hash.
abbrev hashes_to : (Bytes → ℕ) → ℕ → List Bytes → Bool
hashes_to hash h toks = any (λ t. same h (hash t)) toks

module _ (h : ℕ) (a : EndpointAddress) where
  listed-add_address :
      (k : ℕ) (b : EndpointAddress) (tm : TokenAddressMap)
      → listed h a (add_address k b tm) ≡ ((same h k && same a b) || listed h a tm)
  unfolding add_address
  listed-add_address k b tm = ground (
    arith,
    get-insert h k (Sets.insert b (or_default (Maps.get k tm))) tm,
    contains-insert a b (or_default (Maps.get k tm)),
    ℕ_ord.eq_of_cmp h k,
  )

  listed-add_tokens :
      (hash : Bytes → ℕ) (b : EndpointAddress) (toks : List Bytes) (tm : TokenAddressMap)
      → listed h a (add_tokens hash b toks tm)
        ≡ ((hashes_to hash h toks && same a b) || listed h a tm)
  unfolding add_tokens
  listed-add_tokens hash b [] tm = refl
  listed-add_tokens hash b (t ∷ toks) tm = ground (
    arith,
    listed-add_tokens hash b toks (add_address (hash t) b tm),
    listed-add_address (hash t) b tm,
  )

-- Whether the endpoint, if there is one, has a token with the hash.
abbrev pub has_token : {U : Type 0} → (Bytes → ℕ) → ℕ → Option (EndpointMetadata U) → Bool
has_token hash h none = false
has_token hash h (some md) = hashes_to hash h (Sets.elements md.tokens)

module _ {U : Type 0} (hash : Bytes → ℕ) (h : ℕ) (a : EndpointAddress) where
  pub listed-collect_tokens :
      (eps : InnerMap U) (tm : TokenAddressMap)
      → IsSorted eps
      → listed h a (collect_tokens hash eps tm)
        ≡ (has_token hash h (Maps.get a eps) || listed h a tm)
  unfolding collect_tokens Maps.get
  listed-collect_tokens [] tm s = refl
  listed-collect_tokens ((b, md) ∷ eps) tm s = ground (
    arith,
    listed-collect_tokens eps (add_tokens hash b (Sets.elements md.tokens) tm)
        (Above-IsSorted b eps s),
    listed-add_tokens h a hash b (Sets.elements md.tokens) tm,
    get-Above a b eps s,
    address_ord.eq_of_cmp a b,
  )

add_tokens-IsSorted :
    (hash : Bytes → ℕ) (b : EndpointAddress) (toks : List Bytes) (tm : TokenAddressMap)
    → IsSorted tm
    → IsSorted (add_tokens hash b toks tm)
unfolding add_tokens add_address
add_tokens-IsSorted hash b [] tm s = s
add_tokens-IsSorted hash b (t ∷ toks) tm s =
    add_tokens-IsSorted hash b toks _ (insert-IsSorted (hash t) _ tm s)

pub collect_tokens-IsSorted :
    {U : Type 0} (hash : Bytes → ℕ) (eps : InnerMap U) (tm : TokenAddressMap)
    → IsSorted tm
    → IsSorted (collect_tokens hash eps tm)
unfolding collect_tokens
collect_tokens-IsSorted hash [] tm s = s
collect_tokens-IsSorted hash ((b, md) ∷ eps) tm s =
    collect_tokens-IsSorted hash eps _ (add_tokens-IsSorted hash b (Sets.elements md.tokens) tm s)
