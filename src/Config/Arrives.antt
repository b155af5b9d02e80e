-- ===== src/Config/Arrives.antt =====
-- The clusters reach a client that acknowledges them (src/config.rs, `delta_discovery_request`;
-- crates/xds/src/server.rs, `responder`).
use quilkin.Common.Maps
use quilkin.Common.{◌≡◌, refl, sym, ap, ◌∙◌, subst, Option, none, some, [], ◌∷◌, All, arith, ℕ}
use quilkin.Net.Address.{Bytes, Locality, bytes_ord, locality_key_ord}
use quilkin.Net.Cluster.{Env, EndpointSet}
use quilkin.Net.Cluster.Clusters.{ClusterMap, ClusterSets}
use quilkin.Xds.{ClientState, DeltaDiscoveryResponse}
use quilkin.Xds.Tracker.{acked, ClientTracker, get_state, apply_ack}
use quilkin.Xds.Server.{answered, silent, responder}
use quilkin.Xds.Link.Settled.{last}
use quilkin.Xds.Quiet.{awaiting, acknowledged-state, acknowledged-silent, silent-nothing}
use quilkin.Config.{Formats, Config, resource_type, cluster_type}
use quilkin.Config.Delta.{key_name, delta_discovery_request}
use quilkin.Config.Converges.{Has, Gets, push_all-Gets}
use quilkin.Xds.Link.Sends.{tracked}
use quilkin.Config.Apply.{configuration}
use quilkin.Config.Settles.{delta_discovery_request-Converges}
use quilkin.Config.Names.{IsNamedMap, NamedClusters, Named}
use quilkin.Config.Found.{discovered, acknowledged-versions}

tracked-state :
    (ty k : Bytes) (cs : ClientState) (t : ClientTracker)
    → get_state ty t ≡ some cs
    → tracked ty k t ≡ Maps.get k cs.versions
tracked-state ty k cs t e = ground (arith, e)

module _ {E F P U X : Type 0} (fmt : Formats E F P U X) (env : Env U P) where
  get-Has :
      (cs : ClientState) (sets : ClusterSets U P) (key : Option Locality) (value : EndpointSet U P)
      → All (Has fmt env cs) sets
      → Maps.get key sets ≡ some value
      → Maps.get (key_name key) cs.versions ≡ some (fmt.show_u64 value.hash)
  unfolding Maps.get
  get-Has cs [] key value h e = absurd (ground (arith, e))
  get-Has cs ((j, v) ∷ sets) key value (h, hs) e =
      let rest = get-Has cs sets key value hs in
      ground (arith, h, e, rest, locality_key_ord.eq_of_cmp key j)

  nothing-Has :
      (cs : ClientState) (sets : ClusterSets U P)
      → All (Gets fmt env cs []) sets
      → All (Has fmt env cs) sets
  unfolding last
  nothing-Has cs [] h = tt
  nothing-Has cs (e ∷ sets) (h, hs) = (h, nothing-Has cs sets hs)

  discovers :
      (cs : ClientState) (c : Config F U P)
      → (configuration fmt env).delta_discovery_request cs c ≡ delta_discovery_request fmt env cs c
  unfolding configuration
  discovers cs c = refl

  -- A client of the clusters, without subscriptions, that has acknowledged an answer: the server holds
  -- for each cluster that the client has its present version, and is silent when it is asked again,
  -- as long as the clusters' names tell them apart.
  pub acknowledged-current :
      (ty id : Bytes) (n m : ℕ) (cs : ClientState) (t : ClientTracker) (c : Config F U P)
      (cm : ClusterMap U P) (r : DeltaDiscoveryResponse P)
      → resource_type ty ≡ some cluster_type
      → c.clusters ≡ some cm
      → IsNamedMap cm.map
      → get_state ty t ≡ some cs
      → cs.resource_type ≡ ty
      → cs.subscribed ≡ []
      → (responder (configuration fmt env) id n none ty t c).0 ≡ answered r
      → let (_, t', c') = responder (configuration fmt env) id n none ty t c in
        let t'' = (apply_ack n t').1 in
        ((key : Option Locality) (value : EndpointSet U P)
          → Maps.get key cm.map ≡ some value
          → tracked ty (key_name key) t'' ≡ some (fmt.show_u64 value.hash))
        × ((responder (configuration fmt env) id m none ty t'' c').0 ≡ silent)
  acknowledged-current ty id n m cs t c cm r k e v st rt s f =
      let cfg = configuration fmt env in
      let law = delta_discovery_request-Converges fmt env ty k in
      let (res, found, state, _) = acknowledged-state cfg ty id Named law n cs t c r st f in
      let (pushed, removed) =
        discovered fmt env cs c cm res (ap resource_type rt ∙ k) e s
          (sym (ap (λ x. x.0) (discovers cs c)) ∙ found) in
      let has = acknowledged-versions fmt env cs cm res ty v pushed removed in
      let named : Named c = subst NamedClusters (sym e) v in
      (
        λ key value g.
            tracked-state ty (key_name key) (acked (awaiting ty res) cs)
              (apply_ack n (responder cfg id n none ty t c).1).1 state
            ∙ get-Has (acked (awaiting ty res) cs) cm.map key value has g,
        acknowledged-silent cfg ty id Named law n m cs t c r named st rt s f,
      )

  -- When the server is silent to a client of the clusters, without subscriptions, then it holds for
  -- each cluster that the client has its present version, as long as the clusters' names tell them
  -- apart.
  pub silent-current :
      (ty id : Bytes) (n : ℕ) (cs : ClientState) (t : ClientTracker) (c : Config F U P)
      (cm : ClusterMap U P)
      → resource_type ty ≡ some cluster_type
      → c.clusters ≡ some cm
      → IsNamedMap cm.map
      → get_state ty t ≡ some cs
      → cs.resource_type ≡ ty
      → cs.subscribed ≡ []
      → (responder (configuration fmt env) id n none ty t c).0 ≡ silent
      → (key : Option Locality) (value : EndpointSet U P) → Maps.get key cm.map ≡ some value
      → tracked ty (key_name key) t ≡ some (fmt.show_u64 value.hash)
  silent-current ty id n cs t c cm k e v st rt s f key value g =
      let cfg = configuration fmt env in
      let law = delta_discovery_request-Converges fmt env ty k in
      let (res, found, no_resources, _) = silent-nothing cfg ty id Named law n cs t c st f in
      let (pushed, _) =
        discovered fmt env cs c cm res (ap resource_type rt ∙ k) e s
          (sym (ap (λ x. x.0) (discovers cs c)) ∙ found) in
      let gets = push_all-Gets fmt env cs cm.map [] (pushed ∙ ap some no_resources) v.0 in
      tracked-state ty (key_name key) cs t st
      ∙ get-Has cs cm.map key value (nothing-Has cs cm.map gets) g
