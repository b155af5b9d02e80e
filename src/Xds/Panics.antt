-- ===== src/Xds/Panics.antt =====
-- When a server's stream panics (crates/xds/src/server.rs, `delta_aggregated_resources`).
use quilkin.Common.{
  ℕ, ◌≡◌, ◌≢◌, ◌⊎◌, ◌↔◌, refl, sym, ap, ◌∙◌, inl, inr, true, false, ◌&&◌, none, some, [], any,
  is_some, Option-cases, Bool-cases, arith,
}
use quilkin.Common.Order.{same, same→eq, same_self, ℕ_ord}
use quilkin.Common.Maps
use quilkin.Net.Address.{Bytes, bytes_ord}
use quilkin.Xds.{DeltaDiscoveryRequest, ClientState, is_empty_map, update_state}
use quilkin.Xds.Tracker.{
  AwaitingAck, ClientTracker, get_state, put_state, track_state, needs_ack, extend,
}
use quilkin.Xds.Server.{
  Configuration, Responded, answered, silent, invalid_argument, internal, respond, responder,
  Stream, Event, tick, closed, receive_error, hang_up, shutdown, changed, lagged, request, panicked,
  ignore_me, versions_of, on_tick, on_respond, on_request, step,
}

-- A request that is not ignored, and that is not the acknowledgement of a response.
abbrev IsAsking : DeltaDiscoveryRequest → Type 0
IsAsking req =
    (req.type_url ≢ ignore_me) × ((is_some req.error_detail ≡ true) ⊎ (req.response_nonce ≡ none))

module _ {C P : Type 0} (cfg : Configuration C P) where
  -- The type is not tracked, and the configuration does not allow it.
  abbrev IsUnknown : DeltaDiscoveryRequest → Stream C → Type 0
  IsUnknown req s =
      (get_state req.type_url s.tracker ≡ none)
      × (cfg.allow_request_processing req.type_url ≡ false)

  respond_accepts :
      (id : Bytes) (n : ℕ) (ty : Bytes) (cs : ClientState) (t : ClientTracker) (c : C)
      → (respond cfg id n ty cs t c).0 ≢ invalid_argument
  unfolding respond needs_ack
  respond_accepts id n ty cs t c e = elim (Option-cases (cfg.delta_discovery_request cs c).0) [
    | inl f ↦ ground (arith, e, f)
    | inr (res, f) ↦
        let ack : AwaitingAck = record {
          type_url = ty;
          versions = extend (versions_of res.resources) [];
          removed = res.removed;
        } in
        elim (Bool-cases (is_empty_map res.resources && is_empty_map res.removed)) [
          | inl b ↦ ground (arith, e, f, b)
          | inr b ↦ elim (Bool-cases (any (λ x. Maps.contains_key x.0 ack.versions) res.removed)) [
            | inl k ↦ ground (arith, e, f, b, k)
            | inr k ↦ ground (arith, e, f, b, k)
          ]
        ]
  ]

  -- The responder refuses a request exactly when its type is unknown.
  responder-invalid_argument_iff :
      (uuid : ℕ) (req : DeltaDiscoveryRequest) (s : Stream C)
      → ((responder cfg s.id uuid (some req) req.type_url s.tracker s.config).0 ≡ invalid_argument)
        ↔ IsUnknown req s
  unfolding responder
  responder-invalid_argument_iff uuid req s = (
    λ e. elim (Option-cases (get_state req.type_url s.tracker)) [
      | inr (cs, f) ↦ absurd (
          respond_accepts s.id uuid req.type_url (update_state req cs)
            (put_state req.type_url (update_state req cs) s.tracker) s.config
            (ground (arith, e, f)))
      | inl f ↦ elim (Bool-cases (cfg.allow_request_processing req.type_url)) [
        | inr g ↦ (f, g)
        | inl g ↦
            let (cs, t) = track_state req.type_url s.tracker in
            absurd (
              respond_accepts s.id uuid req.type_url (update_state req cs)
                (put_state req.type_url (update_state req cs) t) s.config (ground (arith, e, f, g)))
      ]
    ],
    λ (f, g). ground (arith, f, g),
  )

module _ {C P : Type 0} (cfg : Configuration C P) (uuid : ℕ → ℕ) where
  -- What the responder says of a request.
  abbrev answer_to : DeltaDiscoveryRequest → Stream C → Responded P
  answer_to req s = (responder cfg s.id (uuid s.drawn) (some req) req.type_url s.tracker s.config).0

  on_respond-panicked :
      (req : DeltaDiscoveryRequest) (s : Stream C)
      → on_respond cfg uuid req s ≡ panicked
      → (answer_to req s ≡ invalid_argument) ⊎ (answer_to req s ≡ internal)
  unfolding on_respond
  on_respond-panicked req s e = by_answer (answer_to req s) refl
    where
      by_answer :
          (r : Responded P)
          → answer_to req s ≡ r
          → (answer_to req s ≡ invalid_argument) ⊎ (answer_to req s ≡ internal)
      by_answer (answered res) f = absurd (ground (arith, e, f))
      by_answer silent f = absurd (ground (arith, e, f))
      by_answer invalid_argument f = inl f
      by_answer internal f = inr f

  panicked-on_respond :
      (req : DeltaDiscoveryRequest) (s : Stream C)
      → (answer_to req s ≡ invalid_argument) ⊎ (answer_to req s ≡ internal)
      → on_respond cfg uuid req s ≡ panicked
  unfolding on_respond
  panicked-on_respond req s (inl f) = ground (arith, f)
  panicked-on_respond req s (inr f) = ground (arith, f)

  on_request-IsAsking :
      (req : DeltaDiscoveryRequest) (s : Stream C)
      → IsAsking req
      → on_request cfg uuid req s ≡ on_respond cfg uuid req s
  unfolding on_request
  on_request-IsAsking req s (n, a) = elim (Bool-cases (same req.type_url ignore_me)) [
    | inl g ↦ absurd (n (same→eq req.type_url ignore_me g))
    | inr g ↦ elim (Option-cases req.error_detail) [
      | inr (error, h) ↦ ground (arith, g, h)
      | inl h ↦ ground (arith, g, h, a)
    ]
  ]

  on_request-panicked :
      (req : DeltaDiscoveryRequest) (s : Stream C)
      → on_request cfg uuid req s ≡ panicked
      → IsAsking req
  unfolding on_request
  on_request-panicked req s e = (
    λ n. ground (arith, e, n, same_self ignore_me),
    elim (Option-cases req.error_detail) [
      | inr (error, h) ↦ inl (ground (arith, h))
      | inl h ↦ elim (Option-cases req.response_nonce) [
        | inl k ↦ inr k
        | inr (nonce, k) ↦ absurd (acknowledges h nonce k)
      ]
    ],
  )
    where
      acknowledges : req.error_detail ≡ none → (nonce : ℕ) → req.response_nonce ≡ some nonce → ⊥
      acknowledges h nonce k = elim (Bool-cases (same req.type_url ignore_me)) [
        | inl g ↦ ground (arith, e, g)
        | inr g ↦ ground (arith, e, g, h, k)
      ]

  -- A server's stream panics exactly when a request comes that is not ignored and not the
  -- acknowledgement of a response, and either its type is not tracked and not allowed, or the
  -- responder has an internal error. No other event panics it.
  pub step-panicked_iff :
      (event : Event) (s : Stream C)
      → (step cfg uuid event s ≡ panicked) ↔ (
          (req : DeltaDiscoveryRequest) × (event ≡ request req)
          × IsAsking req
          × (IsUnknown cfg req s ⊎ (answer_to req s ≡ internal)))
  unfolding step on_tick
  step-panicked_iff event s = (
    panics event,
    λ (req, e, a, why).
        ap (λ x. step cfg uuid x s) e
        ∙ on_request-IsAsking req s a
        ∙ panicked-on_respond req s (elim why [
          | inl f ↦ inl ((responder-invalid_argument_iff cfg (uuid s.drawn) req s).1 f)
          | inr f ↦ inr f
        ]),
  )
    where
      panics :
          (event : Event)
          → step cfg uuid event s ≡ panicked
          → (req : DeltaDiscoveryRequest) × (event ≡ request req)
            × IsAsking req
            × (IsUnknown cfg req s ⊎ (answer_to req s ≡ internal))
      panics tick e = absurd (ground (arith, e))
      panics (changed rt) e = absurd (ground (arith, e))
      panics closed e = absurd (ground (arith, e))
      panics (lagged n) e = absurd (ground (arith, e))
      panics receive_error e = absurd (ground (arith, e))
      panics hang_up e = absurd (ground (arith, e))
      panics shutdown e = absurd (ground (arith, e))
      panics (request req) e =
          let a = on_request-panicked req s e in
          (
            req,
            refl,
            a,
            elim (on_respond-panicked req s (sym (on_request-IsAsking req s a) ∙ e)) [
              | inl f ↦ inl ((responder-invalid_argument_iff cfg (uuid s.drawn) req s).0 f)
              | inr f ↦ inr f
            ],
          )
