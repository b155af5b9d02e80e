-- ===== src/Net/Cluster/Clusters/Index.antt =====
-- `nth_endpoint` of src/net/cluster.rs and the list of all endpoints.
use quilkin.Common.{
  ℕ, suc, zero, ◌-◌, ◌%◌, ◌<◌, ◌≡◌, refl, ◌∙◌, none, some, List, [], ◌∷◌, ◌++◌, map, length,
  length-append, get_elem?, arith, ltb, if◌then◌else◌,
}
use quilkin.Net.Address.{EndpointAddress}
use quilkin.Net.Cluster.{Endpoint, EndpointMetadata, InnerMap, Env}
use quilkin.Net.Cluster.Clusters.{
  ClusterMap, ClusterSets, u64_mod, endpoints, nth_endpoint, num_of_endpoints,
}
use quilkin.Net.Cluster.Clusters.Total.{total}
use quilkin.Net.Cluster.Clusters.Invariant.{Inv}

module _ {U : Type 0} where
  abbrev to_endpoint : EndpointAddress × EndpointMetadata U → Endpoint U
  to_endpoint e = record { address = e.0; metadata = e.1 }

  get_elem?-append :
      (xs : InnerMap U) (ys : List (Endpoint U)) (i : ℕ)
      → get_elem? (map to_endpoint xs ++ ys) i ≡ (
          if ltb i (length xs)
          then (elim (get_elem? xs i) [ none ↦ none | some e ↦ some (to_endpoint e) ])
          else get_elem? ys (i - length xs))
  get_elem?-append [] ys i = ground arith
  get_elem?-append (x ∷ xs) ys zero = ground arith
  get_elem?-append (x ∷ xs) ys (suc i) = ground (arith, get_elem?-append xs ys i)

  length-to_endpoint : (xs : InnerMap U) → length (map to_endpoint xs) ≡ length xs
  length-to_endpoint [] = refl
  length-to_endpoint (x ∷ xs) = omega (arith, length-to_endpoint xs)

get_elem?-some {ℓ} :
    {A : Type ℓ} (xs : List A) (i : ℕ) → i < length xs → (a : A) × (get_elem? xs i ≡ some a)
get_elem?-some [] i h = absurd (omega arith)
get_elem?-some (x ∷ xs) zero h = (x, refl)
get_elem?-some (x ∷ xs) (suc i) h = get_elem?-some xs i (omega arith)

module _ {U R : Type 0} where
  -- The walk over the sets finds what the list of all endpoints has at the index.
  pub nth_endpoint-get_elem? :
      (sets : ClusterSets U R) (i : ℕ) → nth_endpoint sets i ≡ get_elem? (endpoints sets) i
  unfolding nth_endpoint endpoints
  nth_endpoint-get_elem? [] i = refl
  nth_endpoint-get_elem? ((l, s) ∷ sets) i = ground (
    arith,
    nth_endpoint-get_elem? sets (i - length s.endpoints),
    get_elem?-append s.endpoints (endpoints sets) i,
  )

  length-endpoints : (sets : ClusterSets U R) → length (endpoints sets) ≡ total sets
  unfolding endpoints
  length-endpoints [] = refl
  length-endpoints ((l, s) ∷ sets) = omega (
    arith,
    length-append (map to_endpoint s.endpoints) (endpoints sets),
    length-to_endpoint s.endpoints,
    length-endpoints sets,
  )

  -- In a map that keeps its invariant and holds from one to 2^64 - 1 endpoints, a number taken modulo
  -- the counter is the index of an endpoint.
  pub nth_endpoint_in_range :
      (env : Env U R) (cm : ClusterMap U R) (i : ℕ)
      → Inv env cm
      → 0 < total cm.map
      → total cm.map < u64_mod
      → (ep : Endpoint U) × (nth_endpoint cm.map (i % num_of_endpoints cm) ≡ some ep)
  nth_endpoint_in_range env cm i v pos small =
      let at = i % num_of_endpoints cm in
      let found =
        get_elem?-some (endpoints cm.map) at (omega (arith, v.counted, length-endpoints cm.map)) in
      (found.0, nth_endpoint-get_elem? cm.map at ∙ found.1)
