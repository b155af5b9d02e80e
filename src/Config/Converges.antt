-- ===== src/Config/Converges.antt =====
-- A client that acknowledges the clusters that it is sent has them all (src/config.rs,
-- `delta_discovery_request`).
use quilkin.Common.{
  ◌≡◌, ◌⊎◌, refl, sym, ap, ◌∙◌, subst, inl, inr, false, Option, none, some, List, [], ◌∷◌, ◌++◌,
  map, All, is_some, if◌then◌else◌, Option-cases, Bool-cases, arith,
}
use quilkin.Common.Order.{same, same_self, same→eq}
use quilkin.Common.Maps
use quilkin.Net.Address.{Bytes, Locality, bytes_ord, locality_key_ord}
use quilkin.Net.Cluster.{Env, EndpointSet}
use quilkin.Net.Cluster.Endpoints.{encoded_cluster}
use quilkin.Net.Cluster.Clusters.{ClusterSets}
use quilkin.Xds.{Resource, ClientState, version_matches}
use quilkin.Xds.Server.{versions_of}
use quilkin.Xds.Link.Settled.{listed, last}
use quilkin.Config.{Formats}
use quilkin.Config.Delta.{key_name, push_cluster, push_all}

-- No two clusters have the same name.
abbrev pub Distinct : List Bytes → Type 0
Distinct [] = Unit {0}
Distinct (n ∷ ns) = (listed n ns ≡ false) × Distinct ns

abbrev pub names : {U P : Type 0} → ClusterSets U P → List Bytes
names sets = map (λ e. key_name e.0) sets

last-append :
    (k : Bytes) (xs ys : List (Bytes × Bytes)) (y : Option Bytes)
    → last k (xs ++ ys) y ≡ last k ys (last k xs y)
unfolding last
last-append k [] ys y = refl
last-append k ((j, v) ∷ xs) ys y = last-append k xs ys (if same k j then some v else y)

versions_of-append :
    {P : Type 0} (xs ys : List (Resource P))
    → versions_of (xs ++ ys) ≡ versions_of xs ++ versions_of ys
versions_of-append [] ys = refl
versions_of-append (x ∷ xs) ys = ap (λ zs. (x.name, x.version) ∷ zs) (versions_of-append xs ys)

module _ {E F P U X : Type 0} (fmt : Formats E F P U X) (env : Env U P) where
  -- The client has the version of a cluster.
  abbrev pub Has : ClientState → Option Locality × EndpointSet U P → Type 0
  Has cs e = Maps.get (key_name e.0) cs.versions ≡ some (fmt.show_u64 e.1.hash)

  -- A set that is encoded has the version that it had.
  hash-encoded_cluster :
      (key : Option Locality) (value : EndpointSet U P)
      → (encoded_cluster env key value).1.hash ≡ value.hash
  unfolding encoded_cluster
  hash-encoded_cluster key value = ground arith

  push_cluster-hash :
      (cs : ClientState) (key : Option Locality) (value : EndpointSet U P)
      → (push_cluster fmt env cs key value).1.hash ≡ value.hash
  unfolding push_cluster
  push_cluster-hash cs key value = ground (arith, hash-encoded_cluster key value)

  -- Nothing is pushed for a version that the client has, else one resource.
  push_cluster-cases :
      (cs : ClientState) (key : Option Locality) (value : EndpointSet U P) (res : List (Resource P))
      → (push_cluster fmt env cs key value).0 ≡ some res
      → ((res ≡ []) × Has cs (key, value))
        ⊎ (versions_of res ≡ (key_name key, fmt.show_u64 value.hash) ∷ [])
  unfolding push_cluster version_matches
  push_cluster-cases cs key value res e =
      elim (Option-cases (Maps.get (key_name key) cs.versions)) [
        | inr (v, f) ↦ elim (Bool-cases (same v (fmt.show_u64 value.hash))) [
          | inl g ↦
              inl
                (ground (arith, e, f, g), ground (arith, f, same→eq v (fmt.show_u64 value.hash) g))
          | inr g ↦ inr (pushed (ground (arith, e, f, g)))
        ]
        | inl f ↦ inr (pushed (ground (arith, e, f)))
      ]
    where
      pushed :
          (elim (encoded_cluster env key value).0 [
            | none ↦ none
            | some payload ↦ some (
                record {
                  name = key_name key;
                  version = fmt.show_u64 value.hash;
                  payload = some payload;
                }
                ∷ [])
          ]
            ≡ some res)
          → versions_of res ≡ (key_name key, fmt.show_u64 value.hash) ∷ []
      pushed h = elim (Option-cases (encoded_cluster env key value).0) [
        | inl f ↦ absurd (ground (arith, h, f))
        | inr (payload, f) ↦
            let r : Resource P = record {
              name = key_name key;
              version = fmt.show_u64 value.hash;
              payload = some payload;
            } in
            let listed : r ∷ [] ≡ res = ground (arith, h, f) in sym (ap versions_of listed)
      ]

  push_cluster-other :
      (cs : ClientState) (key : Option Locality) (value : EndpointSet U P) (res : List (Resource P))
      (k : Bytes) (y : Option Bytes)
      → (push_cluster fmt env cs key value).0 ≡ some res
      → same k (key_name key) ≡ false
      → last k (versions_of res) y ≡ y
  unfolding last
  push_cluster-other cs key value res k y e n = elim (push_cluster-cases cs key value res e) [
    | inl (f, h) ↦ ap (λ r. last k (versions_of r) y) f
    | inr f ↦ ap (λ kvs. last k kvs y) f ∙ ground (arith, n)
  ]

  push_cluster_self :
      (cs : ClientState) (key : Option Locality) (value : EndpointSet U P) (res : List (Resource P))
      → (push_cluster fmt env cs key value).0 ≡ some res
      → last (key_name key) (versions_of res) (Maps.get (key_name key) cs.versions)
        ≡ some (fmt.show_u64 value.hash)
  unfolding last
  push_cluster_self cs key value res e =
      let y = Maps.get (key_name key) cs.versions in
      elim (push_cluster-cases cs key value res e) [
        | inl (f, h) ↦ ap (λ r. last (key_name key) (versions_of r) y) f ∙ h
        | inr f ↦ ap (λ kvs. last (key_name key) kvs y) f ∙ ground (arith, same_self (key_name key))
      ]

  push_cluster-Has :
      (cs : ClientState) (key : Option Locality) (value : EndpointSet U P)
      → Has cs (key, value)
      → push_cluster fmt env cs key value ≡ (some [], value)
  unfolding push_cluster version_matches
  push_cluster-Has cs key value h = ground (arith, h, same_self (fmt.show_u64 value.hash))

  pub push_all-Has :
      (cs : ClientState) (sets : ClusterSets U P)
      → All (Has cs) sets
      → (push_all fmt env cs sets).0 ≡ some []
  unfolding push_all
  push_all-Has cs [] h = refl
  push_all-Has cs ((key, value) ∷ sets) (h, hs) =
      ground (arith, push_cluster-Has cs key value h, push_all-Has cs sets hs)

  push_all-cons :
      (cs : ClientState) (key : Option Locality) (value : EndpointSet U P) (sets : ClusterSets U P)
      (res : List (Resource P))
      → (push_all fmt env cs ((key, value) ∷ sets)).0 ≡ some res
      → (first more : List (Resource P)) × ((push_cluster fmt env cs key value).0 ≡ some first)
        × ((push_all fmt env cs sets).0 ≡ some more)
        × (first ++ more ≡ res)
        × ((push_all fmt env cs ((key, value) ∷ sets)).1
            ≡ (key, (push_cluster fmt env cs key value).1) ∷ (push_all fmt env cs sets).1)
  unfolding push_all
  push_all-cons cs key value sets res e =
      elim (Option-cases (push_cluster fmt env cs key value).0) [
        | inl f ↦ absurd (ground (arith, e, f))
        | inr (first, f) ↦ elim (Option-cases (push_all fmt env cs sets).0) [
          | inl g ↦ absurd (ground (arith, e, f, g))
          | inr (more, g) ↦ (first, more, f, g, ground (arith, e, f, g), ground (arith, f))
        ]
      ]

  -- A name of no cluster is not pushed.
  pub push_all-other :
      (cs : ClientState) (sets : ClusterSets U P) (res : List (Resource P)) (k : Bytes)
      (y : Option Bytes)
      → (push_all fmt env cs sets).0 ≡ some res
      → listed k (names sets) ≡ false
      → last k (versions_of res) y ≡ y
  unfolding push_all last
  push_all-other cs [] res k y e n =
      let nothing : [] ≡ res = ground (arith, e) in ap (λ r. last k (versions_of r) y) (sym nothing)
  push_all-other cs ((key, value) ∷ sets) res k y e n =
      let (first, more, f, g, parts, _) = push_all-cons cs key value sets res e in
      ap (λ r. last k (versions_of r) y) (sym parts)
      ∙ ap (λ kvs. last k kvs y) (versions_of-append first more)
      ∙ last-append k (versions_of first) (versions_of more) y
      ∙ push_all-other cs sets more k (last k (versions_of first) y) g (ground (arith, n))
      ∙ push_cluster-other cs key value first k y f (ground (arith, n))

  -- With what is pushed the client has the version of a cluster.
  abbrev pub Gets : ClientState → List (Resource P) → Option Locality × EndpointSet U P → Type 0
  Gets cs res e =
      last (key_name e.0) (versions_of res) (Maps.get (key_name e.0) cs.versions)
      ≡ some (fmt.show_u64 e.1.hash)

  after_first :
      (cs : ClientState) (key : Option Locality) (value : EndpointSet U P) (sets : ClusterSets U P)
      (first more : List (Resource P))
      → (push_cluster fmt env cs key value).0 ≡ some first
      → listed (key_name key) (names sets) ≡ false
      → All (Gets cs more) sets
      → All (Gets cs (first ++ more)) sets
  after_first cs key value [] first more e n h = tt
  after_first cs key value ((j, w) ∷ sets) first more e n (h, hs) = (
    ap (λ kvs. last (key_name j) kvs (Maps.get (key_name j) cs.versions))
          (versions_of-append first more)
        ∙ last-append (key_name j) (versions_of first) (versions_of more)
            (Maps.get (key_name j) cs.versions)
        ∙ ap (last (key_name j) (versions_of more)) (
            push_cluster-other cs key value first (key_name j) (Maps.get (key_name j) cs.versions) e
              (ground (arith, n, same→eq (key_name j) (key_name key), same_self (key_name key))))
        ∙ h,
    after_first cs key value sets first more e (ground (arith, n)) hs,
  )

  pub push_all-Gets :
      (cs : ClientState) (sets : ClusterSets U P) (res : List (Resource P))
      → (push_all fmt env cs sets).0 ≡ some res
      → Distinct (names sets)
      → All (Gets cs res) sets
  push_all-Gets cs [] res e d = tt
  push_all-Gets cs ((key, value) ∷ sets) res e (d, ds) =
      let (first, more, f, g, parts, _) = push_all-cons cs key value sets res e in
      let name = key_name key in
      let y = Maps.get name cs.versions in
      subst (λ r. All (Gets cs r) ((key, value) ∷ sets)) parts
        (
          ap (λ kvs. last name kvs y) (versions_of-append first more)
              ∙ last-append name (versions_of first) (versions_of more) y
              ∙ push_all-other cs sets more name (last name (versions_of first) y) g d
              ∙ push_cluster_self cs key value first f,
          after_first cs key value sets first more f d (push_all-Gets cs sets more g ds),
        )

  pub push_all-keeps :
      (cs cs' : ClientState) (sets : ClusterSets U P) (res : List (Resource P))
      → (push_all fmt env cs sets).0 ≡ some res
      → All (Has cs') sets
      → All (Has cs') (push_all fmt env cs sets).1
  unfolding push_all
  push_all-keeps cs cs' [] res e h = tt
  push_all-keeps cs cs' ((key, value) ∷ sets) res e (h, hs) =
      let (first, more, f, g, parts, shape) = push_all-cons cs key value sets res e in
      subst (All (Has cs')) (sym shape) (
        h ∙ ap (λ n. some (fmt.show_u64 n)) (sym (push_cluster-hash cs key value)),
        push_all-keeps cs cs' sets more g hs,
      )

  -- The clusters that there are stay.
  pub get-push_all :
      (cs : ClientState) (sets : ClusterSets U P) (res : List (Resource P)) (k : Option Locality)
      → (push_all fmt env cs sets).0 ≡ some res
      → is_some (Maps.get k (push_all fmt env cs sets).1) ≡ is_some (Maps.get k sets)
  unfolding push_all Maps.get
  get-push_all cs [] res k e = refl
  get-push_all cs ((key, value) ∷ sets) res k e =
      let (first, more, f, g, parts, shape) = push_all-cons cs key value sets res e in
      ap (λ m. is_some (Maps.get k m)) shape ∙ ground (arith, get-push_all cs sets more k g)
