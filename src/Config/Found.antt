-- ===== src/Config/Found.antt =====
-- What is found of the clusters for a client without subscriptions (src/config.rs,
-- `delta_discovery_request`), and what it acknowledges of it.
use quilkin.Common.Maps
use quilkin.Common.Sets
use quilkin.Common.{
  ◌≡◌, sym, ap, ◌∙◌, subst, inl, inr, false, none, some, [], ◌∷◌, All, Option-cases, arith,
}
use quilkin.Common.Sets.{Set}
use quilkin.Net.Address.{Bytes, bytes_ord, locality_key_ord}
use quilkin.Net.Cluster.{Env}
use quilkin.Net.Cluster.Clusters.{ClusterMap, ClusterSets}
use quilkin.Xds.{ClientState}
use quilkin.Xds.Tracker.{acked}
use quilkin.Xds.Server.{DeltaDiscoveryRes, versions_of}
use quilkin.Xds.Link.Settled.{listed, get-extend, last-or_else, extend-IsSorted, get-acked}
use quilkin.Xds.Quiet.{awaiting}
use quilkin.Config.{Formats, Config, resource_type, cluster_type}
use quilkin.Config.Delta.{key_name, push_all, unlocated, delta_clusters, delta_discovery_request}
use quilkin.Config.Converges.{Has, Gets, push_all-Gets, get-push_all}
use quilkin.Config.Names.{IsNamedMap, unlocated-unlisted}

module _ {E F P U X : Type 0} (fmt : Formats E F P U X) (env : Env U P) where
  -- What is acknowledged is not among what is removed.
  pub acknowledged-Has :
      (cs : ClientState) (sets : ClusterSets U P) (res : DeltaDiscoveryRes P) (ty : Bytes)
      → All (Gets fmt env cs res.resources) sets
      → All (λ e. listed (key_name e.0) (Sets.elements res.removed) ≡ false) sets
      → All (Has fmt env (acked (awaiting ty res) cs)) sets
  unfolding Maps.get
  acknowledged-Has cs [] res ty g n = tt
  acknowledged-Has cs ((key, value) ∷ sets) res ty (g, gs) (n, ns) =
      let kvs = versions_of res.resources in
      let name = key_name key in
      let y = Maps.get name cs.versions in
      (
        get-acked name (awaiting ty res) cs (extend-IsSorted kvs [] tt)
            ∙ ground (arith, g, n, last-or_else name kvs y, get-extend name kvs []),
        acknowledged-Has cs sets res ty gs ns,
      )

  pub delta_clusters-all :
      (cs : ClientState) (cm : ClusterMap U P)
      → cs.subscribed ≡ []
      → delta_clusters fmt env cs cm ≡ (
        elim (push_all fmt env cs cm.map).0 [
          | none ↦ none
          | some resources ↦ some (record {
            resources = resources;
            removed = unlocated fmt env cs (push_all fmt env cs cm.map).1;
          })
        ],
        record cm { map = (push_all fmt env cs cm.map).1 },
      )
  unfolding delta_clusters
  delta_clusters-all cs cm e = ground (arith, e)

  pub delta_clusters-found :
      (cs : ClientState) (cm : ClusterMap U P) (res : DeltaDiscoveryRes P)
      → cs.subscribed ≡ []
      → (delta_clusters fmt env cs cm).0 ≡ some res
      → ((push_all fmt env cs cm.map).0 ≡ some res.resources)
        × (res.removed ≡ unlocated fmt env cs (push_all fmt env cs cm.map).1)
  delta_clusters-found cs cm res s e =
      let all = ap (λ x. x.0) (delta_clusters-all cs cm s) in
      let sets = (push_all fmt env cs cm.map).1 in
      elim (Option-cases (push_all fmt env cs cm.map).0) [
        | inl f ↦ absurd (ground (arith, e, f, all))
        | inr (resources, f) ↦
            let found : record { resources = resources; removed = unlocated fmt env cs sets }
                ≡ res =
              ground (arith, e, f, all) in
            (f ∙ ap (λ x. some x.resources) found, sym (ap (λ x. x.removed) found))
      ]

  pub acknowledged-versions :
      (cs : ClientState) (cm : ClusterMap U P) (res : DeltaDiscoveryRes P) (ty : Bytes)
      → IsNamedMap cm.map
      → (push_all fmt env cs cm.map).0 ≡ some res.resources
      → res.removed ≡ unlocated fmt env cs (push_all fmt env cs cm.map).1
      → All (Has fmt env (acked (awaiting ty res) cs)) cm.map
  acknowledged-versions cs cm res ty (distinct, named) f g =
      acknowledged-Has cs cm.map res ty (push_all-Gets fmt env cs cm.map res.resources f distinct) (
        subst (λ r. All (λ e. listed (key_name e.0) (Sets.elements r) ≡ false) cm.map) (sym g)
          (unlocated-unlisted fmt env cs cm.map (push_all fmt env cs cm.map).1 named
            (get-push_all fmt env cs cm.map res.resources none f)))

  pub delta-clusters :
      (cs : ClientState) (c : Config F U P) (cm : ClusterMap U P)
      → resource_type cs.resource_type ≡ some cluster_type
      → c.clusters ≡ some cm
      → delta_discovery_request fmt env cs c ≡ (
        (delta_clusters fmt env cs cm).0,
        record c { clusters = some (delta_clusters fmt env cs cm).1 },
      )
  unfolding delta_discovery_request
  delta-clusters cs c cm k e = ground (arith, k, e)

  -- What is found for the clusters.
  pub discovered :
      (cs : ClientState) (c : Config F U P) (cm : ClusterMap U P) (res : DeltaDiscoveryRes P)
      → resource_type cs.resource_type ≡ some cluster_type
      → c.clusters ≡ some cm
      → cs.subscribed ≡ []
      → (delta_discovery_request fmt env cs c).0 ≡ some res
      → ((push_all fmt env cs cm.map).0 ≡ some res.resources)
        × (res.removed ≡ unlocated fmt env cs (push_all fmt env cs cm.map).1)
  discovered cs c cm res k e s f =
      delta_clusters-found cs cm res s (sym (ap (λ x. x.0) (delta-clusters cs c cm k e)) ∙ f)
