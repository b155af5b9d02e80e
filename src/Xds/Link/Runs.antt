-- ===== src/Xds/Link/Runs.antt =====
-- Any run of a link (crates/xds/src/server.rs, crates/xds/src/config.rs).
use quilkin.Common.{
  ℕ, ◌≡◌, ◌⊎◌, refl, sym, ap, ◌∙◌, subst, inl, inr, false, Option, none, some, List, [], ◌∷◌,
  Option-cases, Bool-cases, arith,
}
use quilkin.Common.Order.{same, ℕ_ord}
use quilkin.Common.Maps
use quilkin.Common.Maps.{Map, get-insert}
use quilkin.Net.Address.{Bytes, IpAddr, bytes_ord}
use quilkin.Xds.{
  VersionMap, DeltaDiscoveryRequest, DeltaDiscoveryResponse, ClientState, new_state, subscribe,
  unsubscribe, update_state,
}
use quilkin.Xds.Tracker.{track_client, track_state}
use quilkin.Xds.Server.{
  Configuration, Stream, Responded, answered, silent, invalid_argument, internal, answers, start,
  called, blank, new_stream, ignore_me,
}
use quilkin.Xds.Client.{get_local}
use quilkin.Xds.Link.{Link, Reachable, begins, serves, receives, handles, refreshes, reconfigures}
use quilkin.Xds.Link.Flight.{IsBlank, InFlight}
use quilkin.Xds.Link.Settled.{settle}
use quilkin.Xds.Link.Sends.{tracked, updated, responder-some, Sends-InFlight, Sends-states}
use quilkin.Xds.Link.Served.{step-Served}
use quilkin.Xds.Link.Handles.{refresh-IsRefresh, get-new_local}
use quilkin.Xds.Link.Agreement.{Inv, serves-Inv, receives-Inv, handles-Inv, refreshes-Inv}

subscribe_none :
    (subs : List Bytes) (cs : ClientState) → cs.versions ≡ [] → (subscribe subs cs).versions ≡ []
unfolding subscribe Maps.remove
subscribe_none [] cs e = e
subscribe_none (sub ∷ subs) cs e = subscribe_none subs _ (ground (arith, e))

unsubscribe_none :
    (subs : List Bytes) (cs : ClientState) → cs.versions ≡ [] → (unsubscribe subs cs).versions ≡ []
unfolding unsubscribe Maps.remove
unsubscribe_none [] cs e = e
unsubscribe_none (sub ∷ subs) cs e = unsubscribe_none subs _ (ground (arith, e))

-- A first request without versions leaves none.
first_update :
    (q : DeltaDiscoveryRequest) (ty : Bytes)
    → q.initial_resource_versions ≡ []
    → (update_state q (new_state ty)).versions ≡ []
unfolding update_state new_state
first_update q ty e =
    unsubscribe_none q.resource_names_unsubscribe _
      (subscribe_none q.resource_names_subscribe _ (ground (arith, e)))

tracked-first :
    (q : DeltaDiscoveryRequest) (node t ty k : Bytes)
    → q.initial_resource_versions ≡ []
    → tracked ty k (updated q t (track_client node)) ≡ none
unfolding track_client track_state Maps.get Maps.insert
tracked-first q node t ty k e = ground (arith, ap (Maps.get k) (first_update q t e))

track_client-tracked : (node ty k : Bytes) → tracked ty k (track_client node) ≡ none
unfolding track_client Maps.get
track_client-tracked node ty k = refl

module _ {C P : Type 0} (server : Configuration C P) (uuid : ℕ → ℕ)
    (injective : (i j : ℕ) → uuid i ≡ uuid j → i ≡ j) where
  -- The first response, and a server that knows of no version.
  record Started (response : DeltaDiscoveryResponse P) (s : Stream C) : Type 0 where
    flight : InFlight uuid s.tracker s.drawn 0 [] (response ∷ [])
    nothing : (ty k : Bytes) → tracked ty k s.tracker ≡ none

  refused :
      (r : Responded P) (response : DeltaDiscoveryResponse P) (s s1 : Stream C)
      → r ≡ invalid_argument
      → (IsBlank response × (s ≡ s1) × (r ≡ silent)) ⊎ ((s ≡ s1) × (r ≡ answered response))
      → ⊥
  refused r response s s1 g (inl (b, f, h)) = ground (arith, g, h)
  refused r response s s1 g (inr (f, h)) = ground (arith, g, h)

  -- The first response is that of the responder, or has nothing in it.
  start-cases :
      (q : DeltaDiscoveryRequest) (config : C) (response : DeltaDiscoveryResponse P) (s : Stream C)
      → start server uuid q config ≡ some (response, s)
      → (node : Bytes) × (let s0 = new_stream server uuid node config in
          let (r, s1) = called server uuid (some q) q.type_url s0 in
          ((IsBlank response) × (s ≡ s0))
          ⊎ (IsBlank response × (s ≡ s1) × (r ≡ silent))
          ⊎ ((s ≡ s1) × (r ≡ answered response)))
  unfolding start
  start-cases q config response s e = elim (Option-cases q.node) [
    | inl f ↦ absurd (ground (arith, e, f))
    | inr (node, f) ↦
        let s0 = new_stream server uuid node config in
        let (r, s1) = called server uuid (some q) q.type_url s0 in
        (
          node,
          elim (Bool-cases (same q.type_url ignore_me)) [
            | inl g ↦
                let t : blank server uuid s0.id q.type_url ≡ response = ground (arith, e, f, g) in
                inl (
                  subst IsBlank t (record { nonce = refl; resources = refl; removed = refl }),
                  ground (arith, e, f, g),
                )
            | inr g ↦ by_answer node f g r refl
          ],
        )
  ]
    where
      by_answer :
          (node : Bytes)
          → q.node ≡ some node
          → same q.type_url ignore_me ≡ false
          → let s0 = new_stream server uuid node config in
            (r : Responded P)
            → (called server uuid (some q) q.type_url s0).0 ≡ r
            → let (r, s1) = called server uuid (some q) q.type_url s0 in
              ((IsBlank response) × (s ≡ s0))
              ⊎ (IsBlank response × (s ≡ s1) × (r ≡ silent))
              ⊎ ((s ≡ s1) × (r ≡ answered response))
      by_answer node f g (answered res) h =
          let t : res ≡ response = ground (arith, e, f, g, h) in
          inr (inr (ground (arith, e, f, g, h), h ∙ ap answered t))
      by_answer node f g silent h =
          let t : blank server uuid (new_stream server uuid node config).id q.type_url ≡ response =
            ground (arith, e, f, g, h) in
          inr (
            inl (
              subst IsBlank t (record { nonce = refl; resources = refl; removed = refl }),
              ground (arith, e, f, g, h),
              h,
            ))
      by_answer node f g invalid_argument h = absurd (ground (arith, e, f, g, h))
      by_answer node f g internal h = absurd (ground (arith, e, f, g, h))

  start-Started :
      (q : DeltaDiscoveryRequest) (config : C) (response : DeltaDiscoveryResponse P) (s : Stream C)
      → q.initial_resource_versions ≡ []
      → start server uuid q config ≡ some (response, s)
      → Started response s
  start-Started q config response s n e =
      let (node, cases) = start-cases q config response s e in
      let s0 = new_stream server uuid node config in
      let (r, s1) = called server uuid (some q) q.type_url s0 in
      elim cases [
        | inl (b, f) ↦ subst (Started response) (sym f) (record {
          flight = inl (b, omega arith);
          nothing = λ ty k. track_client-tracked node ty k;
        })
        | inr c ↦ elim (responder-some server s0.id (uuid 0) q q.type_url s0.tracker config) [
          | inl g ↦ absurd (refused r response s s1 g c)
          | inr sent ↦
              let u = updated q q.type_url s0.tracker in
              let h =
                Sends-InFlight uuid injective u s1.tracker 0 0 [] [] (answers r) sent
                  (omega arith) in
              let none_known : (ty k : Bytes) → tracked ty k s1.tracker ≡ none = λ ty k. ground (
                arith,
                Sends-states uuid injective u s1.tracker (uuid 0) (answers r) sent,
                tracked-first q node q.type_url ty k n,
              ) in
              elim c [
                | inl (b, f, g) ↦ subst (Started response) (sym f) (record {
                  flight = inl (b, subst (λ x. InFlight uuid s1.tracker 1 0 [] (answers x)) g h);
                  nothing = none_known;
                })
                | inr (f, g) ↦ subst (Started response) (sym f) (record {
                  flight = subst (λ x. InFlight uuid s1.tracker 1 0 [] (answers x)) g h;
                  nothing = none_known;
                })
              ]
        ]
      ]

module _ {C D P : Type 0} (server : Configuration C P) (client : Configuration D P) (uuid : ℕ → ℕ)
    (injective : (i j : ℕ) → uuid i ≡ uuid j → i ≡ j) (addr : Option IpAddr) (failure : Bytes) where
  link-Inv : (link : Link C D P) → Reachable server client uuid addr failure link → Inv uuid link
  link-Inv link' (begins q types config d r s link n e f) =
      let started = start-Started server uuid injective q config r s n e in
      rw f (record {
        flight = started.flight;
        agree = λ ty k v g. started.nothing ty k ∙ sym (get-new_local types ty k v g);
      })
  link-Inv link' (serves event link rs s _ x own e f) = rw f (
      serves-Inv server client uuid injective addr failure link s rs
        (step-Served server uuid injective event link.stream s rs own e) (link-Inv link x))
  link-Inv link' (receives q qs link rs s _ x g e f) =
      rw f (
        receives-Inv server client uuid injective addr failure link q qs s rs g e (link-Inv link x))
  link-Inv link' (handles r rs link q d local _ x g e f) = rw f (
      handles-Inv server client uuid injective addr failure link r rs q d local g e
        (link-Inv link x))
  link-Inv link' (refreshes identifier subs qs link _ x w e f) = rw f (
      refreshes-Inv server client uuid injective addr failure link qs
        (refresh-IsRefresh identifier subs link.local qs w e) (link-Inv link x))
  link-Inv link' (reconfigures c d link _ x f) =
      let i = link-Inv link x in rw f (record { flight = i.flight; agree = i.agree })

  -- On a stream that begins without versions, with a client that asks for types and not for names:
  -- however the messages of a server and its client interleave, and whatever responses the client
  -- refuses and however the configurations change, as long as the UUIDs do not repeat: when no
  -- request is on its way, then for each type that the client keeps the versions by which the server
  -- chooses what to send are those that the client has, also when responses are on their way.
  pub Reachable-agree :
      (link : Link C D P)
      → Reachable server client uuid addr failure link
      → link.requests ≡ []
      → (ty k : Bytes) (v : VersionMap) → get_local ty link.local ≡ some v
      → tracked ty k link.stream.tracker ≡ Maps.get k v
  Reachable-agree link x n ty k v e =
      let t = link.stream.tracker in
      sym (ap (λ qs. settle ty k t.ack_map qs (tracked ty k t)) n)
      ∙ (link-Inv link x).agree ty k v e
