-- ===== src/Config/Settles.antt =====
-- What is left to send to a client that has acknowledged the clusters (src/config.rs,
-- `delta_discovery_request`).
use quilkin.Common.Maps
use quilkin.Common.Sets
use quilkin.Common.{
  ◌≡◌, ◌⊎◌, refl, sym, ap, ◌∙◌, subst, inl, inr, true, false, Option, none, some, [], ◌∷◌, All,
  is_some, if◌then◌else◌, Option-cases, Bool-cases, arith,
}
use quilkin.Common.Sets.{Set}
use quilkin.Net.Address.{Bytes, bytes_ord, locality_key_ord}
use quilkin.Net.Cluster.{Env}
use quilkin.Net.Cluster.Clusters.{ClusterMap, ClusterSets}
use quilkin.Xds.{ClientState}
use quilkin.Xds.Tracker.{AwaitingAck, remove_all, acked}
use quilkin.Xds.Server.{DeltaDiscoveryRes, versions_of}
use quilkin.Xds.Link.Settled.{listed, get-extend, extend-IsSorted, get-acked}
use quilkin.Xds.Quiet.{awaiting, Converges}
use quilkin.Config.{Formats, Config, resource_type, cluster_type}
use quilkin.Config.Delta.{key_name, push_all, unlocated, delta_clusters, delta_discovery_request}
use quilkin.Config.Converges.{
  Distinct, names, Has, push_all-Has, push_all-Gets, push_all-keeps, get-push_all, push_all-other,
}
use quilkin.Config.Apply.{configuration}
use quilkin.Config.Names.{
  IsNamedMap, NamedClusters, Named, same_empty, no_empty_name, unnamed, unlocated-unlisted,
  one_name,
}
use quilkin.Config.Found.{
  acknowledged-Has, delta_clusters-all, delta_clusters-found, delta-clusters,
}

keeps_type :
    (removed : Set Bytes) (cs : ClientState)
    → (remove_all removed cs).resource_type ≡ cs.resource_type
unfolding remove_all
keeps_type [] cs = refl
keeps_type ((name, u) ∷ removed) cs = keeps_type removed _

keeps_unsubscribed :
    (removed : Set Bytes) (cs : ClientState)
    → cs.subscribed ≡ []
    → (remove_all removed cs).subscribed ≡ []
unfolding remove_all Maps.remove
keeps_unsubscribed [] cs e = e
keeps_unsubscribed ((name, u) ∷ removed) cs e = keeps_unsubscribed removed _ (ground (arith, e))

subscribed-acked :
    (cs : ClientState) (a : AwaitingAck) → cs.subscribed ≡ [] → (acked a cs).subscribed ≡ []
unfolding acked
subscribed-acked cs a e = keeps_unsubscribed a.removed cs e

resource_type-acked :
    (cs : ClientState) (a : AwaitingAck) → (acked a cs).resource_type ≡ cs.resource_type
unfolding acked
resource_type-acked cs a = keeps_type a.removed cs

module _ {E F P U X : Type 0} (fmt : Formats E F P U X) (env : Env U P) where
  abbrev Quiet : Option (DeltaDiscoveryRes P) → Type 0
  Quiet found =
      (res : DeltaDiscoveryRes P) × (found ≡ some res) × (res.resources ≡ []) × (res.removed ≡ [])

  -- All clusters are there for the client, and the empty name is not, or is still a cluster's.
  clusters-Quiet :
      (cs : ClientState) (cm : ClusterMap U P)
      → cs.subscribed ≡ []
      → All (Has fmt env cs) cm.map
      → (Maps.get [] cs.versions ≡ none) ⊎ (is_some (Maps.get none cm.map) ≡ true)
      → Quiet (delta_clusters fmt env cs cm).0
  clusters-Quiet cs cm s h n =
      let pushed = push_all-Has fmt env cs cm.map h in
      let stays = get-push_all fmt env cs cm.map [] none pushed in
      (
        record { resources = []; removed = unlocated fmt env cs (push_all fmt env cs cm.map).1 },
        ap (λ x. x.0) (delta_clusters-all fmt env cs cm s) ∙ ground (arith, pushed),
        refl,
        elim n [ inl e ↦ ground (arith, e) | inr e ↦ ground (arith, e, stays) ],
      )

  -- What is left for a client, with what was pushed and removed.
  next-Quiet :
      (cs : ClientState) (cm : ClusterMap U P) (res : DeltaDiscoveryRes P) (ty : Bytes)
      → Distinct (names cm.map)
      → cs.subscribed ≡ []
      → (push_all fmt env cs cm.map).0 ≡ some res.resources
      → All (λ e. listed (key_name e.0) (Sets.elements res.removed) ≡ false) cm.map
      → (Maps.get [] (acked (awaiting ty res) cs).versions ≡ none)
        ⊎ (is_some (Maps.get none cm.map) ≡ true)
      → Quiet
          (delta_clusters fmt env
            (acked (awaiting ty res) cs)
            (record cm { map = (push_all fmt env cs cm.map).1 })).0
  next-Quiet cs cm res ty distinct s f n rest =
      let cs' = acked (awaiting ty res) cs in
      let has =
        acknowledged-Has fmt env cs cm.map res ty
          (push_all-Gets fmt env cs cm.map res.resources f distinct) n in
      let stays = get-push_all fmt env cs cm.map res.resources none f in
      clusters-Quiet cs' (record cm { map = (push_all fmt env cs cm.map).1 })
        (subscribed-acked cs (awaiting ty res) s)
        (push_all-keeps fmt env cs cs' cm.map res.resources f has)
        (elim rest [ inl e ↦ inl e | inr e ↦ inr (stays ∙ e) ])

  -- The empty name, when it is no cluster's, is not known after the acknowledgement.
  forgotten :
      (cs : ClientState) (sets : ClusterSets U P) (res : DeltaDiscoveryRes P) (ty : Bytes)
      → (push_all fmt env cs sets).0 ≡ some res.resources
      → listed [] (names sets) ≡ false
      → (if listed [] (Sets.elements res.removed) then none else Maps.get [] cs.versions) ≡ none
      → Maps.get [] (acked (awaiting ty res) cs).versions ≡ none
  unfolding Maps.get
  forgotten cs sets res ty f n h =
      let kvs = versions_of res.resources in
      get-acked [] (awaiting ty res) cs (extend-IsSorted kvs [] tt)
      ∙ ground
          (arith, h, get-extend [] kvs [], push_all-other fmt env cs sets res.resources [] none f n)

  -- The empty name, when it is no cluster's, is in what is removed, if the client has it.
  unlocated-forgets :
      (cs : ClientState) (sets : ClusterSets U P)
      → is_some (Maps.get none sets) ≡ false
      → (if listed [] (Sets.elements (unlocated fmt env cs sets))
          then none
          else Maps.get [] cs.versions)
        ≡ none
  unlocated-forgets cs sets b = elim (Bool-cases (Maps.contains_key [] cs.versions)) [
    | inl c ↦
        let one : unlocated fmt env cs sets ≡ ([], tt) ∷ [] = ground (arith, b, c) ∙ one_name in
        ground (arith, one, same_empty)
    | inr c ↦
        let nothing : unlocated fmt env cs sets ≡ [] = ground (arith, c) in
        ground (arith, nothing, c)
  ]

  delta_clusters-Quiet :
      (cs : ClientState) (cm : ClusterMap U P) (res : DeltaDiscoveryRes P) (ty : Bytes)
      → IsNamedMap cm.map
      → cs.subscribed ≡ []
      → (delta_clusters fmt env cs cm).0 ≡ some res
      → Quiet
          (delta_clusters fmt env (acked (awaiting ty res) cs) (delta_clusters fmt env cs cm).1).0
  delta_clusters-Quiet cs cm res ty (distinct, named) s e =
      let (pushed, removed) = delta_clusters-found fmt env cs cm res s e in
      let sets = (push_all fmt env cs cm.map).1 in
      let stays = get-push_all fmt env cs cm.map res.resources none pushed in
      let unlisted = unlocated-unlisted fmt env cs cm.map sets named stays in
      let config = ap (λ x. x.1) (delta_clusters-all fmt env cs cm s) in
      subst (λ m. Quiet (delta_clusters fmt env (acked (awaiting ty res) cs) m).0) (sym config)
        (next-Quiet cs cm res ty distinct s pushed
          (subst (λ r. All (λ e. listed (key_name e.0) (Sets.elements r) ≡ false) cm.map)
            (sym removed) unlisted)
          (elim (Bool-cases (is_some (Maps.get none cm.map))) [
            | inl b ↦ inr b
            | inr b ↦ inl (
                forgotten cs cm.map res ty pushed
                  (unnamed fmt env cm.map (no_empty_name fmt env cm.map named b))
                  (subst
                    (λ r.
                      (if listed [] (Sets.elements r) then none else Maps.get [] cs.versions)
                      ≡ none)
                    (sym removed) (unlocated-forgets cs sets (stays ∙ b))))
          ]))

  delta-no_clusters :
      (cs : ClientState) (c : Config F U P)
      → resource_type cs.resource_type ≡ some cluster_type
      → c.clusters ≡ none
      → delta_discovery_request fmt env cs c ≡ (some (record { resources = []; removed = [] }), c)
  unfolding delta_discovery_request
  delta-no_clusters cs c k e = ground (arith, k, e)

  delta-Quiet :
      (cs : ClientState) (c : Config F U P) (res : DeltaDiscoveryRes P) (ty : Bytes)
      → resource_type ty ≡ some cluster_type
      → Named c
      → cs.resource_type ≡ ty
      → cs.subscribed ≡ []
      → (delta_discovery_request fmt env cs c).0 ≡ some res
      → Quiet
          (delta_discovery_request fmt env
            (acked (awaiting ty res) cs)
            (delta_discovery_request fmt env cs c).1).0
  delta-Quiet cs c res ty k v e s f =
      let cs' = acked (awaiting ty res) cs in
      let k0 : resource_type cs.resource_type ≡ some cluster_type = ap resource_type e ∙ k in
      let k1 : resource_type cs'.resource_type ≡ some cluster_type =
        ap resource_type (resource_type-acked cs (awaiting ty res)) ∙ k0 in
      elim (Option-cases c.clusters) [
        | inl n ↦
            let here = delta-no_clusters cs c k0 n in
            subst (λ x. Quiet (delta_discovery_request fmt env cs' x.1).0) (sym here)
              (
                record { resources = []; removed = [] },
                ap (λ x. x.0) (delta-no_clusters cs' c k1 n),
                refl,
                refl,
              )
        | inr (cm, n) ↦
            let here = delta-clusters fmt env cs c cm k0 n in
            let c' : Config F U P = record c { clusters = some (delta_clusters fmt env cs cm).1 } in
            let found : (delta_clusters fmt env cs cm).0 ≡ some res =
              sym (ap (λ x. x.0) here) ∙ f in
            let named : IsNamedMap cm.map = subst NamedClusters n v in
            subst (λ x. Quiet (delta_discovery_request fmt env cs' x.1).0) (sym here)
              (subst (λ x. Quiet x.0)
                (sym (delta-clusters fmt env cs' c' (delta_clusters fmt env cs cm).1 k1 refl))
                (delta_clusters-Quiet cs cm res ty named s found))
      ]

  -- The law of convergence holds of the clusters: a client without subscriptions that acknowledges
  -- what it was sent is sent no more, as long as the clusters have names of their own.
  pub delta_discovery_request-Converges :
      (ty : Bytes)
      → resource_type ty ≡ some cluster_type
      → Converges (configuration fmt env) ty Named
  unfolding configuration delta_discovery_request
  delta_discovery_request-Converges ty k = record {
    settles = λ cs c res v e s f. delta-Quiet cs c res ty k v e s f;
  }
