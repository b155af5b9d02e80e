-- ===== src/Xds/Link/Sends.antt =====
-- What the server's responder does to what is on its way (crates/xds/src/server.rs).
use quilkin.Common.{
  ℕ, suc, ◌≡◌, ◌⊎◌, refl, sym, ap, ◌∙◌, subst, inl, inr, true, ◌&&◌, Option, none, some, List, [],
  ◌∷◌, ◌++◌, any, is_some, Option-cases, Bool-cases, arith,
}
use mathlib.Core.List.{append-nil}
use quilkin.Common.Order.{same→eq, ℕ_ord}
use quilkin.Common.Maps
use quilkin.Common.Maps.{Map, get-insert, get-insert_self, get-remove, insert_twice}
use quilkin.Common.Sets
use quilkin.Net.Address.{Bytes, bytes_ord}
use quilkin.Xds.{
  DeltaDiscoveryRequest, DeltaDiscoveryResponse, ClientState, is_empty_map, new_state, update_state,
}
use quilkin.Xds.Tracker.{
  AwaitingAck, ClientTracker, get_state, put_state, track_state, extend, needs_ack,
}
use quilkin.Xds.Server.{
  Configuration, invalid_argument, answers, respond, responder, versions_of, version_info,
}
use quilkin.Xds.Link.Flight.{Awaits, Offers, InFlight}
use quilkin.Xds.Link.Moves.{Keeps, Keeps-InFlight, InFlight-snoc}
use quilkin.Xds.Link.Settled.{extend-IsSorted}

-- The version of a name that the server has for the client.
abbrev pub tracked : Bytes → Bytes → ClientTracker → Option Bytes
tracked ty k t = elim (get_state ty t) [ none ↦ none | some cs ↦ Maps.get k cs.versions ]

module _ {P : Type 0} where
  -- Nothing, or one response that is awaited from then on.
  abbrev pub Sends : ClientTracker → ClientTracker → ℕ → List (DeltaDiscoveryResponse P) → Type 0
  Sends t t' n rs =
      ((rs ≡ []) × (t' ≡ t))
      ⊎ ((r : DeltaDiscoveryResponse P) × (a : AwaitingAck) × (rs ≡ r ∷ [])
          × (t' ≡ record t { ack_map = Maps.insert n a t.ack_map })
          × Offers t' n a r)

-- The state of the type after a request, when the request is allowed.
abbrev pub updated : DeltaDiscoveryRequest → Bytes → ClientTracker → ClientTracker
updated req ty t = put_state ty (update_state req (track_state ty t).0) t

module _ {C P : Type 0} (cfg : Configuration C P) (id : Bytes) (n : ℕ) where
  respond_lem :
      (ty : Bytes) (cs : ClientState) (t : ClientTracker) (c : C)
      → is_some (get_state ty t) ≡ true
      → let (r, t', c') = respond cfg id n ty cs t c in Sends t t' n (answers r)
  unfolding respond needs_ack
  respond_lem ty cs t c h = elim (Option-cases (cfg.delta_discovery_request cs c).0) [
    | inl e ↦ inl (ground (arith, e), ground (arith, e))
    | inr (req, e) ↦
        let blank = is_empty_map req.resources && is_empty_map req.removed in
        let ack : AwaitingAck = record {
          type_url = ty;
          versions = extend (versions_of req.resources) [];
          removed = req.removed;
        } in
        let clash = any (λ r. Maps.contains_key r.0 ack.versions) req.removed in
        elim (Bool-cases blank) [
          | inl b ↦ inl (ground (arith, e, b), ground (arith, e, b))
          | inr b ↦ elim (Bool-cases clash) [
            | inl f ↦ inl (ground (arith, e, b, f), ground (arith, e, b, f))
            | inr f ↦
                let r : DeltaDiscoveryResponse P = record {
                  control_plane = some id;
                  type_url = ty;
                  resources = req.resources;
                  removed_resources = Sets.elements req.removed;
                  nonce = some n;
                  system_version_info = version_info;
                } in
                let t' : ClientTracker = record t { ack_map = Maps.insert n ack t.ack_map } in
                let left : (respond cfg id n ty cs t c).1 ≡ t' = ground (arith, e, b, f) in
                inr (
                  r,
                  ack,
                  ground (arith, e, b, f),
                  left,
                  subst (λ u. Offers u n ack r) (sym left)
                      (record {
                        nonce = refl;
                        awaits = (
                          get-insert_self n ack t.ack_map,
                          h,
                          extend-IsSorted (versions_of req.resources) [] tt,
                        );
                        kind = refl;
                        versions = refl;
                        removed = refl;
                      }),
                )
          ]
        ]
  ]

module _ {P : Type 0} (uuid : ℕ → ℕ) (injective : (i j : ℕ) → uuid i ≡ uuid j → i ≡ j) where
  -- What is on the way after a call of the responder that changes no state.
  pub Sends-Keeps :
      (t t' : ClientTracker) (top lo : ℕ) (new : List (DeltaDiscoveryResponse P))
      → Sends t t' (uuid top) new
      → Keeps uuid lo top t t'
  Sends-Keeps t t' top lo new (inl (e, f)) i a l m w = subst (λ u. Awaits u (uuid i) a) (sym f) w
  Sends-Keeps t t' top lo new (inr (r, b, e, f, o)) i a l m w =
      subst (λ u. Awaits u (uuid i) a) (sym f)
        (
          ground (
            arith,
            w.0,
            m,
            get-insert (uuid i) (uuid top) b t.ack_map,
            same→eq (uuid i) (uuid top),
            injective i top,
          ),
          w.1,
          w.2,
        )

  pub Sends-InFlight :
      (t t' : ClientTracker) (top lo : ℕ) (qs : List DeltaDiscoveryRequest)
      (rs new : List (DeltaDiscoveryResponse P))
      → Sends t t' (uuid top) new
      → InFlight uuid t top lo qs rs
      → InFlight uuid t' (suc top) lo qs (rs ++ new)
  Sends-InFlight t t' top lo qs rs new s h =
      let kept = Sends-Keeps t t' top lo new s in
      elim s [
        | inl (e, f) ↦
            subst (λ ss. InFlight uuid t' (suc top) lo qs ss)
              (sym (ap (λ ss. rs ++ ss) e ∙ append-nil rs))
              (Keeps-InFlight uuid t t' top (suc top) lo qs rs (omega arith) kept h)
        | inr (r, a, e, f, o) ↦
            subst (λ ss. InFlight uuid t' (suc top) lo qs (rs ++ ss)) (sym e)
              (InFlight-snoc uuid t' top lo qs rs r a o
                (Keeps-InFlight uuid t t' top top lo qs rs (omega arith) kept h))
      ]

  pub Sends-states :
      (t t' : ClientTracker) (n : ℕ) (new : List (DeltaDiscoveryResponse P))
      → Sends t t' n new
      → t'.states ≡ t.states
  Sends-states t t' n new (inl (e, f)) = ap (λ u. u.states) f
  Sends-states t t' n new (inr (r, a, e, f, o)) = ap (λ u. u.states) f

module _ {C P : Type 0} (cfg : Configuration C P) (id : Bytes) (n : ℕ) where
  -- A change of a type changes no state.
  pub responder-none :
      (ty : Bytes) (t : ClientTracker) (c : C)
      → let (r, t', c') = responder cfg id n none ty t c in Sends t t' n (answers r)
  unfolding responder
  responder-none ty t c = elim (Option-cases (get_state ty t)) [
    | inl e ↦ inl (ground (arith, e), ground (arith, e))
    | inr (cs, e) ↦ rw (e, responder) (respond_lem cfg id n ty cs t c (ground (arith, e)))
  ]

  track_state-some :
      (ty : Bytes) (t : ClientTracker) (cs : ClientState)
      → get_state ty t ≡ some cs
      → (track_state ty t).0 ≡ cs
  unfolding track_state
  track_state-some ty t cs e = ground (arith, e)

  twice :
      (req : DeltaDiscoveryRequest) (ty : Bytes) (t : ClientTracker)
      → put_state ty (update_state req (track_state ty t).0) (track_state ty t).1 ≡ updated req ty t
  unfolding track_state
  twice req ty t = elim (Option-cases (get_state ty t)) [
    | inl e ↦
        let cs = update_state req (new_state ty) in
        let same_states = insert_twice ty cs (new_state ty) t.states in
        ground (arith, e, ap (λ states. record t { states = states }) same_states)
    | inr (cs, e) ↦ ground (arith, e)
  ]

  responder-eq :
      (req : DeltaDiscoveryRequest) (ty : Bytes) (t : ClientTracker) (c : C)
      → (responder cfg id n (some req) ty t c ≡ (invalid_argument, t, c))
        ⊎ (responder cfg id n (some req) ty t c
            ≡ respond cfg id n ty (update_state req (track_state ty t).0) (updated req ty t) c)
  unfolding responder
  responder-eq req ty t c = elim (Option-cases (get_state ty t)) [
    | inr (cs, e) ↦ inr (ground (arith, e, track_state-some ty t cs e))
    | inl e ↦ elim (Bool-cases (cfg.allow_request_processing ty)) [
      | inr d ↦ inl (ground (arith, e, d))
      | inl a ↦ inr (
          ground (arith, e, a)
          ∙ ap (λ u. respond cfg id n ty (update_state req (track_state ty t).0) u c)
              (twice req ty t))
    ]
  ]

  -- A request is refused, or its type's state is updated before the call.
  pub responder-some :
      (req : DeltaDiscoveryRequest) (ty : Bytes) (t : ClientTracker) (c : C)
      → let (r, t', c') = responder cfg id n (some req) ty t c in
        (r ≡ invalid_argument) ⊎ Sends (updated req ty t) t' n (answers r)
  responder-some req ty t c = elim (responder-eq req ty t c) [
    | inl e ↦ inl (ap (λ x. x.0) e)
    | inr e ↦ inr (
        subst (λ x. Sends (updated req ty t) x.1 n (answers x.0)) (sym e)
          (respond_lem cfg id n ty (update_state req (track_state ty t).0) (updated req ty t) c
            (ground (arith, get-insert_self ty (update_state req (track_state ty t).0) t.states))))
  ]
