-- ===== src/Net/Cluster/Clusters/Total.antt =====
-- The number of endpoints in all the sets of a cluster map, under insertions and removals of sets.
use quilkin.Common.{ℕ, ◌+◌, ◌≡◌, refl, Option, none, some, [], ◌∷◌, length, arith}
use quilkin.Common.Maps
use quilkin.Common.Maps.{Map}
use quilkin.Common.Maps.Sorted.{IsSorted, Above-IsSorted, get-Above, get-head}
use quilkin.Net.Address.{Locality, locality_key_ord}
use quilkin.Net.Cluster.{Env, EndpointSet}
use quilkin.Net.Cluster.Clusters.{ClusterSets}
use quilkin.Net.Cluster.Endpoints.Versions.{IsValid}

module _ {U R : Type 0} where
  abbrev pub total : ClusterSets U R → ℕ
  total [] = 0
  total ((l, s) ∷ sets) = length s.endpoints + total sets

  abbrev pub size : Option (EndpointSet U R) → ℕ
  size none = 0
  size (some s) = length s.endpoints

  total-remove_absent :
      (l : Option Locality) (sets : ClusterSets U R)
      → Maps.get l sets ≡ none
      → total (Maps.remove l sets) ≡ total sets
  unfolding Maps.get Maps.remove
  total-remove_absent l [] h = refl
  total-remove_absent l ((k, s) ∷ sets) h = ground (arith, total-remove_absent l sets)

  pub total-insert :
      (l : Option Locality) (s : EndpointSet U R) (sets : ClusterSets U R)
      → IsSorted sets
      → total (Maps.insert l s sets) + size (Maps.get l sets) ≡ total sets + length s.endpoints
  unfolding Maps.get Maps.insert
  total-insert l s [] h = omega arith
  total-insert l s ((k, t) ∷ sets) h =
      ground (arith, total-insert l s sets (Above-IsSorted k sets h), get-Above l k sets h)

  pub total-remove :
      (l : Option Locality) (sets : ClusterSets U R)
      → IsSorted sets
      → total (Maps.remove l sets) + size (Maps.get l sets) ≡ total sets
  unfolding Maps.get Maps.remove
  total-remove l [] h = omega arith
  total-remove l ((k, t) ∷ sets) h = ground (
    arith,
    total-remove l sets (Above-IsSorted k sets h),
    total-remove_absent l sets,
    get-head k sets h,
    locality_key_ord.eq_of_cmp l k,
  )

module _ {U R : Type 0} (env : Env U R) where
  -- Every set is valid.
  abbrev pub AllValid : ClusterSets U R → Type 0
  AllValid [] = Unit {0}
  AllValid ((l, s) ∷ sets) = IsValid env s × AllValid sets

  pub insert-AllValid :
      (l : Option Locality) (s : EndpointSet U R) (sets : ClusterSets U R)
      → IsValid env s
      → AllValid sets
      → AllValid (Maps.insert l s sets)
  unfolding Maps.insert
  insert-AllValid l s [] v h = (v, tt)
  insert-AllValid l s ((k, t) ∷ sets) v h = ground (arith, insert-AllValid l s sets v h.1)

  pub remove-AllValid :
      (l : Option Locality) (sets : ClusterSets U R) → AllValid sets → AllValid (Maps.remove l sets)
  unfolding Maps.remove
  remove-AllValid l [] h = tt
  remove-AllValid l ((k, t) ∷ sets) h = ground (arith, remove-AllValid l sets h.1)

  pub get-AllValid :
      (l : Option Locality) (s : EndpointSet U R) (sets : ClusterSets U R)
      → AllValid sets
      → Maps.get l sets ≡ some s
      → IsValid env s
  unfolding Maps.get
  get-AllValid l s [] h e = cc
  get-AllValid l s ((k, t) ∷ sets) h e = ground (arith, h, get-AllValid l s sets h.1)
