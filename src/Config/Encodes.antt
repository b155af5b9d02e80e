-- ===== src/Config/Encodes.antt =====
-- Looking for what a client lacks keeps the clusters (src/config.rs, `delta_discovery_request`): only
-- the encodings that the sets keep change.
use quilkin.Common.{
  ℕ, ◌≡◌, refl, ◌∙◌, inl, inr, Option, some, List, [], ◌∷◌, Option-cases, Bool-cases, arith,
}
use quilkin.Common.Maps
use quilkin.Common.Maps.Sorted.{Above, IsSorted, insert-IsSorted}
use quilkin.Common.Sets
use quilkin.Net.Address.{Bytes, Locality, locality_key_ord, bytes_ord}
use quilkin.Net.Cluster.{Env, EndpointSet}
use quilkin.Net.Cluster.Endpoints.{encoded_cluster}
use quilkin.Net.Cluster.Endpoints.Versions.{IsValid}
use quilkin.Net.Cluster.Clusters.{ClusterMap, ClusterSets}
use quilkin.Net.Cluster.Clusters.Total.{
  total, total-insert, AllValid, insert-AllValid, get-AllValid,
}
use quilkin.Net.Cluster.Clusters.Invariant.{Inv}
use quilkin.Xds.{ClientState, is_empty_map}
use quilkin.Config.{Formats}
use quilkin.Config.Delta.{push_cluster, push_all, push_named, parse_name, delta_clusters}

module _ {E F P U X : Type 0} (fmt : Formats E F P U X) (env : Env U P) where
  -- Two sets with the same endpoints and tokens.
  record Alike (s s' : EndpointSet U P) : Type 0 where
    endpoints : s'.endpoints ≡ s.endpoints
    token_map : s'.token_map ≡ s.token_map

  Alike-IsValid : (s s' : EndpointSet U P) → Alike s s' → IsValid env s → IsValid env s'
  Alike-IsValid s s' a v = ground (arith, a.endpoints, a.token_map, v.sorted, v.tokens_current)

  push_cluster-Alike :
      (cs : ClientState) (key : Option Locality) (s : EndpointSet U P)
      → Alike s (push_cluster fmt env cs key s).1
  unfolding push_cluster encoded_cluster
  push_cluster-Alike cs key s = record { endpoints = ground arith; token_map = ground arith }

  -- Sets in order that are valid, with so many endpoints.
  record SetsOf (n : ℕ) (sets : ClusterSets U P) : Type 0 where
    sorted : IsSorted sets
    valid : AllValid env sets
    counted : total sets ≡ n

  push_all-Above :
      (cs : ClientState) (k : Option Locality) (sets : ClusterSets U P)
      → Above k sets
      → Above k (push_all fmt env cs sets).1
  unfolding push_all
  push_all-Above cs k [] h = tt
  push_all-Above cs k ((j, s) ∷ sets) (c, h) = ground (arith, c, h, push_all-Above cs j sets h)

  push_all-AllValid :
      (cs : ClientState) (sets : ClusterSets U P)
      → AllValid env sets
      → AllValid env (push_all fmt env cs sets).1
  unfolding push_all
  push_all-AllValid cs [] h = tt
  push_all-AllValid cs ((j, s) ∷ sets) (v, h) =
      ground
        (arith, h, Alike-IsValid s _ (push_cluster-Alike cs j s) v, push_all-AllValid cs sets h)

  total-push_all :
      (cs : ClientState) (sets : ClusterSets U P) → total (push_all fmt env cs sets).1 ≡ total sets
  unfolding push_all
  total-push_all cs [] = refl
  total-push_all cs ((j, s) ∷ sets) =
      ground (arith, (push_cluster-Alike cs j s).endpoints, total-push_all cs sets)

  push_all-IsSorted :
      (cs : ClientState) (sets : ClusterSets U P)
      → IsSorted sets
      → IsSorted (push_all fmt env cs sets).1
  unfolding push_all
  push_all-IsSorted cs [] h = tt
  push_all-IsSorted cs ((j, s) ∷ sets) h = ground (arith, h, push_all-Above cs j sets h)

  push_all-SetsOf :
      (n : ℕ) (cs : ClientState) (sets : ClusterSets U P)
      → SetsOf n sets
      → SetsOf n (push_all fmt env cs sets).1
  push_all-SetsOf n cs sets h = record {
    sorted = push_all-IsSorted cs sets h.sorted;
    valid = push_all-AllValid cs sets h.valid;
    counted = total-push_all cs sets ∙ h.counted;
  }

  -- Writing a set that is alike back.
  insert-SetsOf :
      (n : ℕ) (key : Option Locality) (s s' : EndpointSet U P) (sets : ClusterSets U P)
      → Maps.get key sets ≡ some s
      → Alike s s'
      → SetsOf n sets
      → SetsOf n (Maps.insert key s' sets)
  insert-SetsOf n key s s' sets e a h = record {
    sorted = insert-IsSorted key s' sets h.sorted;
    valid =
        insert-AllValid env key s' sets
          (Alike-IsValid s s' a (get-AllValid env key s sets h.valid e)) h.valid;
    counted = ground (arith, e, a.endpoints, h.counted, total-insert key s' sets h.sorted);
  }

  push_named-SetsOf :
      (n : ℕ) (cs : ClientState) (names : List Bytes) (sets : ClusterSets U P)
      → SetsOf n sets
      → SetsOf n (push_named fmt env cs names sets).1
  unfolding push_named
  push_named-SetsOf n cs [] sets h = h
  push_named-SetsOf n cs (name ∷ names) sets h = elim (Option-cases (parse_name name)) [
    | inl e ↦ ground (arith, e, push_named-SetsOf n cs names sets h)
    | inr (key, e) ↦ elim (Option-cases (Maps.get key sets)) [
      | inl f ↦ ground (arith, e, f, push_named-SetsOf n cs names sets h)
      | inr (s, f) ↦
          let s' = (push_cluster fmt env cs key s).1 in
          let h' = insert-SetsOf n key s s' sets f (push_cluster-Alike cs key s) h in
          ground (arith, e, f, h', push_named-SetsOf n cs names (Maps.insert key s' sets) h')
    ]
  ]

  pub delta_clusters-Inv :
      (cs : ClientState) (cm : ClusterMap U P)
      → Inv env cm
      → Inv env (delta_clusters fmt env cs cm).1
  unfolding delta_clusters
  delta_clusters-Inv cs cm i =
      let h : SetsOf (total cm.map) cm.map = record {
        sorted = i.map_sorted;
        valid = i.sets_valid;
        counted = refl;
      } in
      let all = push_all-SetsOf (total cm.map) cs cm.map h in
      let named = push_named-SetsOf (total cm.map) cs (Sets.elements cs.subscribed) cm.map h in
      elim (Bool-cases (is_empty_map cs.subscribed)) [
        | inl e ↦ ground (arith, e, i.counted, all.sorted, all.valid, all.counted)
        | inr e ↦ ground (arith, e, i.counted, named.sorted, named.valid, named.counted)
      ]
