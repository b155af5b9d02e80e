-- ===== src/Xds/Quiet.antt =====
-- When a server has nothing more to send (crates/xds/src/server.rs, crates/xds/src/config.rs).
use quilkin.Common.{
  ℕ, ◌≡◌, refl, sym, ap, ◌∙◌, inl, inr, true, ◌&&◌, none, some, List, [], ◌∷◌, any, Option-cases,
  Bool-cases, arith,
}
use quilkin.Common.Order.{ℕ_ord}
use quilkin.Common.Maps
use quilkin.Common.Maps.{get-insert_self}
use quilkin.Net.Address.{Bytes, bytes_ord}
use quilkin.Xds.{DeltaDiscoveryResponse, ClientState, is_empty_map}
use quilkin.Xds.Tracker.{AwaitingAck, ClientTracker, get_state, extend, needs_ack, acked, apply_ack}
use quilkin.Xds.Server.{
  DeltaDiscoveryRes, Configuration, answered, silent, respond, responder, versions_of,
}

-- What a client acknowledges, of a result for a type.
abbrev pub awaiting : {P : Type 0} → Bytes → DeltaDiscoveryRes P → AwaitingAck
awaiting ty res = record {
  type_url = ty;
  versions = extend (versions_of res.resources) [];
  removed = res.removed;
}

-- A configuration that is valid finds nothing for a client of a type and without subscriptions once
-- the client has acknowledged what it found for it before.
pub record Converges {C P : Type 0} (cfg : Configuration C P) (ty : Bytes) (Valid : C → Type 0)
    : Type 0 where
  pub settles :
      (cs : ClientState) (c : C) (res : DeltaDiscoveryRes P)
      → Valid c
      → cs.resource_type ≡ ty
      → cs.subscribed ≡ []
      → (cfg.delta_discovery_request cs c).0 ≡ some res
      → (res' : DeltaDiscoveryRes P) × ((cfg.delta_discovery_request
            (acked (awaiting ty res) cs)
            (cfg.delta_discovery_request cs c).1).0
          ≡ some res')
        × (res'.resources ≡ [])
        × (res'.removed ≡ [])

module _ {C P : Type 0} (cfg : Configuration C P) (ty id : Bytes) (Valid : C → Type 0)
    (law : Converges cfg ty Valid) where
  -- The result behind an answer, and the tracker.
  respond-answered :
      (n : ℕ) (cs : ClientState) (t : ClientTracker) (c : C) (r : DeltaDiscoveryResponse P)
      → (respond cfg id n ty cs t c).0 ≡ answered r
      → (res : DeltaDiscoveryRes P) × ((cfg.delta_discovery_request cs c).0 ≡ some res)
        × ((respond cfg id n ty cs t c).1
            ≡ record t { ack_map = Maps.insert n (awaiting ty res) t.ack_map })
        × ((respond cfg id n ty cs t c).2 ≡ (cfg.delta_discovery_request cs c).1)
  unfolding respond needs_ack
  respond-answered n cs t c r e = elim (Option-cases (cfg.delta_discovery_request cs c).0) [
    | inl f ↦ absurd (ground (arith, e, f))
    | inr (res, f) ↦
        let blank = is_empty_map res.resources && is_empty_map res.removed in
        let clash = any (λ x. Maps.contains_key x.0 (awaiting ty res).versions) res.removed in
        elim (Bool-cases blank) [
          | inl b ↦ absurd (ground (arith, e, f, b))
          | inr b ↦ elim (Bool-cases clash) [
            | inl g ↦ absurd (ground (arith, e, f, b, g))
            | inr g ↦ (res, f, ground (arith, f, b, g), ground (arith, f, b, g))
          ]
        ]
  ]

  respond-silent :
      (n : ℕ) (cs : ClientState) (t : ClientTracker) (c : C) (res : DeltaDiscoveryRes P)
      → (cfg.delta_discovery_request cs c).0 ≡ some res
      → res.resources ≡ []
      → res.removed ≡ []
      → (respond cfg id n ty cs t c).0 ≡ silent
  unfolding respond
  respond-silent n cs t c res e f g = ground (arith, e, f, g)

  responder-state :
      (n : ℕ) (cs : ClientState) (t : ClientTracker) (c : C)
      → get_state ty t ≡ some cs
      → responder cfg id n none ty t c ≡ respond cfg id n ty cs t c
  unfolding responder
  responder-state n cs t c e = ground (arith, e)

  get-apply_ack :
      (n : ℕ) (cs : ClientState) (t : ClientTracker) (a : AwaitingAck)
      → get_state ty t ≡ some cs
      → a.type_url ≡ ty
      → get_state ty (apply_ack n (record t { ack_map = Maps.insert n a t.ack_map })).1
        ≡ some (acked a cs)
  unfolding apply_ack
  get-apply_ack n cs t a e f =
      ground (arith, e, f, get-insert_self n a t.ack_map, get-insert_self ty (acked a cs) t.states)

  -- What an answer was made of, and what its acknowledgement leaves.
  pub acknowledged-state :
      (n : ℕ) (cs : ClientState) (t : ClientTracker) (c : C) (r : DeltaDiscoveryResponse P)
      → get_state ty t ≡ some cs
      → (responder cfg id n none ty t c).0 ≡ answered r
      → (res : DeltaDiscoveryRes P) × ((cfg.delta_discovery_request cs c).0 ≡ some res)
        × (get_state ty (apply_ack n (responder cfg id n none ty t c).1).1
            ≡ some (acked (awaiting ty res) cs))
        × ((responder cfg id n none ty t c).2 ≡ (cfg.delta_discovery_request cs c).1)
  acknowledged-state n cs t c r e f =
      let eq = responder-state n cs t c e in
      let (res, found, tracked, config) =
        respond-answered n cs t c r (sym (ap (λ x. x.0) eq) ∙ f) in
      (
        res,
        found,
        ap (λ x. get_state ty (apply_ack n x.1).1) eq
            ∙ ap (λ u. get_state ty (apply_ack n u).1) tracked
            ∙ get-apply_ack n cs t (awaiting ty res) e refl,
        ap (λ x. x.2) eq ∙ config,
      )

  -- Silence of the responder is a result with nothing in it.
  pub silent-nothing :
      (n : ℕ) (cs : ClientState) (t : ClientTracker) (c : C)
      → get_state ty t ≡ some cs
      → (responder cfg id n none ty t c).0 ≡ silent
      → (res : DeltaDiscoveryRes P) × ((cfg.delta_discovery_request cs c).0 ≡ some res)
        × (res.resources ≡ [])
        × (res.removed ≡ [])
  unfolding respond needs_ack
  silent-nothing n cs t c e f =
      let g : (respond cfg id n ty cs t c).0 ≡ silent =
        sym (ap (λ x. x.0) (responder-state n cs t c e)) ∙ f in
      elim (Option-cases (cfg.delta_discovery_request cs c).0) [
        | inl h ↦ absurd (ground (arith, g, h))
        | inr (res, h) ↦
            let clash = any (λ x. Maps.contains_key x.0 (awaiting ty res).versions) res.removed in
            elim (Bool-cases (is_empty_map res.resources && is_empty_map res.removed)) [
              | inl b ↦ (
                res,
                h,
                nothing res.resources (ground (arith, b)),
                nothing res.removed (ground (arith, b)),
              )
              | inr b ↦ elim (Bool-cases clash) [
                | inl k ↦ absurd (ground (arith, g, h, b, k))
                | inr k ↦ absurd (ground (arith, g, h, b, k))
              ]
            ]
      ]
    where
      nothing : {A : Type 0} → (xs : List A) → is_empty_map xs ≡ true → xs ≡ []
      nothing [] e = refl
      nothing (x ∷ xs) e = absurd (ground (arith, e))

  -- A configuration that converges: after a response to a client without subscriptions and its
  -- acknowledgement, the server has no more for the type, until the configuration changes.
  pub acknowledged-silent :
      (n m : ℕ) (cs : ClientState) (t : ClientTracker) (c : C) (r : DeltaDiscoveryResponse P)
      → Valid c
      → get_state ty t ≡ some cs
      → cs.resource_type ≡ ty
      → cs.subscribed ≡ []
      → (responder cfg id n none ty t c).0 ≡ answered r
      → let (_, t', c') = responder cfg id n none ty t c in
        (responder cfg id m none ty (apply_ack n t').1 c').0 ≡ silent
  acknowledged-silent n m cs t c r v e k s f =
      let (res, found, state, config) = acknowledged-state n cs t c r e f in
      let (_, t', c') = responder cfg id n none ty t c in
      let (res', found', no_resources, no_removed) = law.settles cs c res v k s found in
      let t'' = (apply_ack n t').1 in
      let cs' = acked (awaiting ty res) cs in
      ap (λ x. x.0) (responder-state m cs' t'' c' state)
      ∙ ap (λ x. (respond cfg id m ty cs' t'' x).0) config
      ∙ respond-silent m cs' t'' (cfg.delta_discovery_request cs c).1 res' found' no_resources
          no_removed
