-- ===== src/Config/Names.antt =====
-- The names of the clusters: when they tell the clusters apart (src/config.rs,
-- `delta_discovery_request`).
use quilkin.Common.Maps
use quilkin.Common.Sets
use quilkin.Common.{
  ◌≡◌, ◌≢◌, ◌⊎◌, refl, sym, ◌∙◌, subst, inl, inr, true, false, Option, none, some, [], ◌∷◌, All,
  is_some, Bool-cases, arith,
}
use quilkin.Common.Order.{same→eq}
use quilkin.Common.Sets.{Set}
use quilkin.Net.Address.{Bytes, Locality, bytes_ord, locality_key_ord}
use quilkin.Net.Cluster.{Env, EndpointSet}
use quilkin.Net.Cluster.Clusters.{ClusterMap, ClusterSets}
use quilkin.Xds.{ClientState}
use quilkin.Xds.Link.Settled.{listed}
use quilkin.Config.{Formats, Config}
use quilkin.Config.Delta.{key_name, unlocated}
use quilkin.Config.Converges.{Distinct, names}

-- A cluster without a locality has the empty name, and no other has.
abbrev IsNamed : {U P : Type 0} → Option Locality × EndpointSet U P → Type 0
IsNamed e = (e.0 ≡ none) ⊎ (key_name e.0 ≢ [])

abbrev pub IsNamedMap : {U P : Type 0} → ClusterSets U P → Type 0
IsNamedMap sets = Distinct (names sets) × All IsNamed sets

-- What the law of convergence asks of a configuration: the clusters' names tell them apart.
abbrev pub NamedClusters : {U P : Type 0} → Option (ClusterMap U P) → Type 0
NamedClusters none = Unit {0}
NamedClusters (some cm) = IsNamedMap cm.map

abbrev pub Named : {F U P : Type 0} → Config F U P → Type 0
Named config = NamedClusters config.clusters

pub one_name : Sets.insert {A = Bytes} [] [] ≡ ([], tt) ∷ []
unfolding Maps.insert
one_name = refl

pub same_empty : listed [] ([] ∷ []) ≡ true
same_empty = ground (arith, bytes_ord.cmp_refl [])

module _ {E F P U X : Type 0} (fmt : Formats E F P U X) (env : Env U P) where
  -- Without a cluster that has no locality, the empty name is no cluster's.
  pub no_empty_name :
      (sets : ClusterSets U P)
      → All IsNamed sets
      → is_some (Maps.get none sets) ≡ false
      → All (λ e. key_name e.0 ≢ []) sets
  unfolding Maps.get
  no_empty_name [] h e = tt
  no_empty_name ((none, value) ∷ sets) (n, h) e =
      absurd (ground (arith, e, locality_key_ord.cmp_refl none))
  no_empty_name ((some l, value) ∷ sets) (inl n, h) e = absurd (ground (arith, n))
  no_empty_name ((some l, value) ∷ sets) (inr n, h) e =
      (n, no_empty_name sets h (ground (arith, e, locality_key_ord.eq_of_cmp none (some l))))

  pub unnamed :
      (sets : ClusterSets U P) → All (λ e. key_name e.0 ≢ []) sets → listed [] (names sets) ≡ false
  unnamed [] h = refl
  unnamed ((key, value) ∷ sets) (n, h) =
      ground (arith, n, unnamed sets h, same→eq [] (key_name key))

  unlisted :
      (sets : ClusterSets U P)
      → All (λ e. key_name e.0 ≢ []) sets
      → All (λ e. listed (key_name e.0) ([] ∷ []) ≡ false) sets
  unlisted [] h = tt
  unlisted ((key, value) ∷ sets) (n, h) =
      (ground (arith, n, same→eq (key_name key) []), unlisted sets h)

  none_listed : (sets : ClusterSets U P) → All (λ e. listed (key_name e.0) [] ≡ false) sets
  none_listed [] = tt
  none_listed (e ∷ sets) = (refl, none_listed sets)

  -- What is removed is no cluster's name.
  pub unlocated-unlisted :
      (cs : ClientState) (sets sets' : ClusterSets U P)
      → All IsNamed sets
      → is_some (Maps.get none sets') ≡ is_some (Maps.get none sets)
      → All (λ e. listed (key_name e.0) (Sets.elements (unlocated fmt env cs sets')) ≡ false) sets
  unlocated-unlisted cs sets sets' named stays =
      let removed = unlocated fmt env cs sets' in
      let unlisted_by : Sets.Set Bytes → Type 0 =
        λ r. All (λ e. listed (key_name e.0) (Sets.elements r) ≡ false) sets in
      elim (Bool-cases (is_some (Maps.get none sets))) [
        | inl b ↦
            let nothing : removed ≡ [] = ground (arith, b, stays) in
            subst unlisted_by (sym nothing) (none_listed sets)
        | inr b ↦ elim (Bool-cases (Maps.contains_key [] cs.versions)) [
          | inl c ↦
              let one : removed ≡ ([], tt) ∷ [] = ground (arith, b, c, stays) ∙ one_name in
              subst unlisted_by (sym one) (unlisted sets (no_empty_name sets named b))
          | inr c ↦
              let nothing : removed ≡ [] = ground (arith, c) in
              subst unlisted_by (sym nothing) (none_listed sets)
        ]
      ]
