-- ===== src/Net/Cluster/Tokens/Diff.antt =====
-- The difference of two token maps (src/net/cluster.rs), looked up and applied to a larger map.
use quilkin.Common.{ℕ, ◌≡◌, refl, Option, none, some, [], ◌∷◌, if◌then◌else◌, arith}
use quilkin.Common.Order.{ℕ_ord, same}
use quilkin.Common.Maps
use quilkin.Common.Maps.{Map, get-insert, get-remove}
use quilkin.Common.Maps.Sorted.{IsSorted, Above-IsSorted, insert-IsSorted, get-head}
use quilkin.Common.Sets.{Set}
use quilkin.Net.Address.{EndpointAddress}
use quilkin.Net.Cluster.{TokenAddressMap, TokenMapDiff}
use quilkin.Net.Cluster.Tokens.{
  token_map_diff, diff_round, diff_old, diff_new, apply_diff, sets_differ,
}

-- What the first loop says of one token.
abbrev first_loop :
    Option (Set EndpointAddress)
    → Option (Set EndpointAddress)
    → Option (Option (Set EndpointAddress))
    → Option (Option (Set EndpointAddress))
first_loop none n known = known
first_loop (some o) none known = some none
first_loop (some o) (some n) known = if sets_differ o n then some (some n) else known

module _ (t : ℕ) where
  get-diff_round :
      (k : ℕ) (addrs : Set EndpointAddress) (o : Option (Set EndpointAddress)) (hm : TokenMapDiff)
      → Maps.get t (diff_round k addrs o hm)
        ≡ (if same t k then first_loop (some addrs) o (Maps.get t hm) else Maps.get t hm)
  unfolding diff_round
  get-diff_round k addrs none hm = ground (arith, get-insert t k none hm)
  get-diff_round k addrs (some n) hm = ground (arith, get-insert t k (some n) hm)

  get-diff_old :
      (old new : TokenAddressMap) (hm : TokenMapDiff)
      → IsSorted old
      → Maps.get t (diff_old old new hm)
        ≡ first_loop (Maps.get t old) (Maps.get t new) (Maps.get t hm)
  unfolding diff_old Maps.get
  get-diff_old [] new hm s = refl
  get-diff_old ((k, addrs) ∷ old) new hm s = ground (
    arith,
    get-diff_old old new (diff_round k addrs (Maps.get k new) hm) (Above-IsSorted k old s),
    get-diff_round k addrs (Maps.get k new) hm,
    get-head k old s,
    ℕ_ord.eq_of_cmp t k,
  )

  get-diff_new :
      (new : TokenAddressMap) (hm : TokenMapDiff)
      → IsSorted new
      → Maps.get t (diff_new new hm) ≡ (elim (Maps.get t hm) [
        | some d ↦ some d
        | none ↦ elim (Maps.get t new) [ none ↦ none | some n ↦ some (some n) ]
      ])
  unfolding diff_new Maps.get
  get-diff_new [] hm s = ground arith
  get-diff_new ((k, addrs) ∷ new) hm s = ground (
    arith,
    get-diff_new new (if Maps.contains_key k hm then hm else Maps.insert k (some addrs) hm)
        (Above-IsSorted k new s),
    get-insert t k (some addrs) hm,
    get-head k new s,
    ℕ_ord.eq_of_cmp t k,
  )

  abbrev applied :
      Option (Option (Set EndpointAddress))
      → Option (Set EndpointAddress)
      → Option (Set EndpointAddress)
  applied none old = old
  applied (some d) old = d

  get-apply_diff :
      (diff : TokenMapDiff) (tm : TokenAddressMap)
      → IsSorted diff
      → Maps.get t (apply_diff diff tm) ≡ applied (Maps.get t diff) (Maps.get t tm)
  unfolding apply_diff Maps.get
  get-apply_diff [] tm s = refl
  get-apply_diff ((k, none) ∷ diff) tm s = ground (
    arith,
    get-apply_diff diff (Maps.remove k tm) (Above-IsSorted k diff s),
    get-remove t k tm,
    get-head k diff s,
    ℕ_ord.eq_of_cmp t k,
  )
  get-apply_diff ((k, some addrs) ∷ diff) tm s = ground (
    arith,
    get-apply_diff diff (Maps.insert k addrs tm) (Above-IsSorted k diff s),
    get-insert t k addrs tm,
    get-head k diff s,
    ℕ_ord.eq_of_cmp t k,
  )

diff_round-IsSorted :
    (k : ℕ) (addrs : Set EndpointAddress) (o : Option (Set EndpointAddress)) (hm : TokenMapDiff)
    → IsSorted hm
    → IsSorted (diff_round k addrs o hm)
unfolding diff_round
diff_round-IsSorted k addrs none hm s = insert-IsSorted k none hm s
diff_round-IsSorted k addrs (some n) hm s = ground (arith, insert-IsSorted k (some n) hm s)

diff_old-IsSorted :
    (old new : TokenAddressMap) (hm : TokenMapDiff) → IsSorted hm → IsSorted (diff_old old new hm)
unfolding diff_old
diff_old-IsSorted [] new hm s = s
diff_old-IsSorted ((k, addrs) ∷ old) new hm s =
    diff_old-IsSorted old new _ (diff_round-IsSorted k addrs (Maps.get k new) hm s)

diff_new-IsSorted :
    (new : TokenAddressMap) (hm : TokenMapDiff) → IsSorted hm → IsSorted (diff_new new hm)
unfolding diff_new
diff_new-IsSorted [] hm s = s
diff_new-IsSorted ((k, addrs) ∷ new) hm s =
    diff_new-IsSorted new _ (ground (arith, insert-IsSorted k (some addrs) hm s))

abbrev pub routed :
    Option (Set EndpointAddress)
    → Option (Set EndpointAddress)
    → Option (Set EndpointAddress)
    → Option (Set EndpointAddress)
routed old (some addrs) known = some addrs
routed (some o) none known = none
routed none none known = known

-- After the difference of two token maps in order is applied to any token map, a token has the
-- addresses of the new map; without any there, it is gone if the old map had it, and as it was if
-- not.
pub get-apply_token_map_diff :
    (t : ℕ) (old new tm : TokenAddressMap)
    → IsSorted old
    → IsSorted new
    → Maps.get t (apply_diff (token_map_diff old new) tm)
      ≡ routed (Maps.get t old) (Maps.get t new) (Maps.get t tm)
unfolding token_map_diff Maps.get
get-apply_token_map_diff t old new tm s l = ground (
  arith,
  get-apply_diff t (diff_new new (diff_old old new [])) tm
      (diff_new-IsSorted new _ (diff_old-IsSorted old new [] tt)),
  get-diff_new t new (diff_old old new []) l,
  get-diff_old t old new [] s,
)
