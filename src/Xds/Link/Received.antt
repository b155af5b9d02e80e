-- ===== src/Xds/Link/Received.antt =====
-- A request that the server reads (crates/xds/src/server.rs, crates/xds/src/config.rs).
use quilkin.Common.{
  ℕ, suc, ◌≡◌, ◌≢◌, refl, sym, ap, ◌∙◌, subst, inl, inr, none, some, List, [], ◌∷◌, ◌++◌,
  if◌then◌else◌, Option-cases, Bool-cases, arith,
}
use mathlib.Core.List.{append-nil}
use quilkin.Common.Order.{same, same_self, same→eq, same-ne, ℕ_ord}
use quilkin.Common.Maps
use quilkin.Common.Maps.{Map, get-insert, get-insert_self, get-remove}
use quilkin.Net.Address.{Bytes, bytes_ord}
use quilkin.Xds.{
  DeltaDiscoveryRequest, DeltaDiscoveryResponse, ClientState, is_empty_map, new_state, reset,
  subscribe, unsubscribe, update_state,
}
use quilkin.Xds.Tracker.{
  AwaitingAck, ClientTracker, get_state, put_state, track_state, acked, apply_ack,
}
use quilkin.Xds.Server.{
  Configuration, Stream, request, yields, Responded, answered, silent, invalid_argument, internal,
  answers, on_respond, on_request, step, ignore_me, called,
}
use quilkin.Xds.Link.Flight.{ack_of, IsPlain, Awaits, Confirms, InFlight}
use quilkin.Xds.Link.Moves.{Keeps, Keeps-InFlight, InFlight-lower}
use quilkin.Xds.Link.Settled.{effect, settle, settle_kept, get-acked}
use quilkin.Xds.Link.Sends.{
  tracked, Sends, updated, responder-some, Sends-Keeps, Sends-InFlight, Sends-states,
}

-- What a plain request makes of a state's versions.
versions-update_state :
    (q : DeltaDiscoveryRequest) (cs : ClientState)
    → IsPlain q
    → (update_state q cs).versions ≡ (
        if is_empty_map q.initial_resource_versions
        then cs.versions
        else q.initial_resource_versions)
unfolding update_state reset subscribe unsubscribe
versions-update_state q cs p = ground (arith, p.subscribe, p.unsubscribe)

track_state-versions :
    (ty k : Bytes) (t : ClientTracker) → Maps.get k (track_state ty t).0.versions ≡ tracked ty k t
unfolding track_state new_state Maps.get
track_state-versions ty k t = elim (Option-cases (get_state ty t)) [
  | inl e ↦ ground (arith, e)
  | inr (cs, e) ↦ ground (arith, e)
]

tracked-updated :
    (ty k : Bytes) (m : Map ℕ AwaitingAck) (q : DeltaDiscoveryRequest) (t : ClientTracker)
    → IsPlain q
    → tracked ty k (updated q q.type_url t) ≡ effect ty k m q (tracked ty k t)
tracked-updated ty k m q t p = elim (Bool-cases (same ty q.type_url)) [
  | inl e ↦
      let cs = (track_state q.type_url t).0 in
      ground (
        arith,
        e,
        p.nonce,
        same→eq ty q.type_url e,
        same_self ty,
        get-insert ty q.type_url (update_state q cs) t.states,
        ap (Maps.get k) (versions-update_state q cs p),
        track_state-versions q.type_url k t,
      )
  | inr e ↦
      let cs = (track_state q.type_url t).0 in
      ground (
        arith,
        e,
        p.nonce,
        same-ne ty q.type_url e,
        same→eq q.type_url ty,
        get-insert ty q.type_url (update_state q cs) t.states,
      )
]

updated-Keeps :
    (uuid : ℕ → ℕ) (lo top : ℕ) (q : DeltaDiscoveryRequest) (t : ClientTracker)
    → Keeps uuid lo top t (updated q q.type_url t)
updated-Keeps uuid lo top q t i a l m (w, h, s) = (
  w,
  ground (
    arith,
    h,
    get-insert a.type_url q.type_url (update_state q (track_state q.type_url t).0) t.states,
  ),
  s,
)

module _ {C P : Type 0} (cfg : Configuration C P) (uuid : ℕ → ℕ)
    (injective : (i j : ℕ) → uuid i ≡ uuid j → i ≡ j) where
  -- What is left on the way, and what the server will have, is as before.
  pub record Received (s s' : Stream C) (q : DeltaDiscoveryRequest)
      (qs : List DeltaDiscoveryRequest) (rs : List (DeltaDiscoveryResponse P)) : Type 0 where
    pub flight : InFlight uuid s'.tracker s'.drawn 0 qs rs
    pub settled :
        (ty k : Bytes)
        → settle ty k s'.tracker.ack_map qs (tracked ty k s'.tracker)
          ≡ settle ty k s.tracker.ack_map (q ∷ qs) (tracked ty k s.tracker)

  -- The same states show the same versions.
  tracked-states :
      (ty k : Bytes) (t t' : ClientTracker)
      → t'.states ≡ t.states
      → tracked ty k t' ≡ tracked ty k t
  tracked-states ty k t t' e = ground (arith, e)

  plain-Received :
      (s s' : Stream C) (q : DeltaDiscoveryRequest) (qs : List DeltaDiscoveryRequest)
      (rs new : List (DeltaDiscoveryResponse P))
      → IsPlain q
      → InFlight uuid s.tracker s.drawn 0 qs rs
      → s'.drawn ≡ suc s.drawn
      → Sends (updated q q.type_url s.tracker) s'.tracker (uuid s.drawn) new
      → Received s s' q qs (rs ++ new)
  plain-Received s s' q qs rs new p h d sent =
      let t = s.tracker in
      let u = updated q q.type_url t in
      let kept : Keeps uuid 0 s.drawn t u = updated-Keeps uuid 0 s.drawn q t in
      let hu = Keeps-InFlight uuid t u s.drawn s.drawn 0 qs rs (omega arith) kept h in
      let kept' = Sends-Keeps uuid injective u s'.tracker s.drawn 0 new sent in
      record {
        flight =
            subst (λ top. InFlight uuid s'.tracker top 0 qs (rs ++ new)) (sym d)
              (Sends-InFlight uuid injective u s'.tracker s.drawn 0 qs rs new sent hu);
        settled = λ ty k.
            let x = tracked ty k s'.tracker in
            settle_kept ty k uuid u s'.tracker s.drawn 0 qs rs x kept' hu
            ∙ settle_kept ty k uuid t u s.drawn 0 qs rs x kept h
            ∙ ap (settle ty k t.ack_map qs) (
                tracked-states ty k u s'.tracker
                  (Sends-states uuid injective u s'.tracker (uuid s.drawn) new sent)
                ∙ tracked-updated ty k t.ack_map q t p);
      }

  confirmed : ℕ → AwaitingAck → ClientState → ClientTracker → ClientTracker
  confirmed n a cs t =
      put_state a.type_url (acked a cs) (record t { ack_map = Maps.remove n t.ack_map })

  confirmed-Keeps :
      (t : ClientTracker) (i top : ℕ) (a : AwaitingAck) (cs : ClientState)
      → Keeps uuid (suc i) top t (confirmed (uuid i) a cs t)
  unfolding confirmed
  confirmed-Keeps t i top a cs j b l m (w, h, s) = (
    ground (
      arith,
      w,
      l,
      get-remove (uuid j) (uuid i) t.ack_map,
      same→eq (uuid j) (uuid i),
      injective j i,
    ),
    ground (arith, h, get-insert b.type_url a.type_url (acked a cs) t.states),
    s,
  )

  tracked-confirmed :
      (t : ClientTracker) (n : ℕ) (a : AwaitingAck) (cs : ClientState) (q : DeltaDiscoveryRequest)
      (ty k : Bytes)
      → Confirms t n a q
      → get_state a.type_url t ≡ some cs
      → tracked ty k (confirmed n a cs t) ≡ effect ty k t.ack_map q (tracked ty k t)
  unfolding confirmed
  tracked-confirmed t n a cs q ty k c e = elim (Bool-cases (same ty a.type_url)) [
    | inl f ↦ ground (
      arith,
      f,
      same→eq ty a.type_url f,
      same_self ty,
      c.nonce,
      c.awaits.0,
      e,
      get-insert ty a.type_url (acked a cs) t.states,
      get-acked k a cs c.awaits.2,
    )
    | inr f ↦ ground (
      arith,
      f,
      same-ne ty a.type_url f,
      same→eq a.type_url ty,
      c.nonce,
      c.awaits.0,
      get-insert ty a.type_url (acked a cs) t.states,
    )
  ]

  apply_ack-eq :
      (t : ClientTracker) (n : ℕ) (a : AwaitingAck) (cs : ClientState)
      → Awaits t n a
      → get_state a.type_url t ≡ some cs
      → (apply_ack n t).1 ≡ confirmed n a cs t
  unfolding apply_ack confirmed
  apply_ack-eq t n a cs w e = ground (arith, w.0, e)

  acked-Received :
      (s : Stream C) (i : ℕ) (a : AwaitingAck) (q : DeltaDiscoveryRequest)
      (qs : List DeltaDiscoveryRequest) (rs : List (DeltaDiscoveryResponse P))
      → Confirms s.tracker (uuid i) a q
      → InFlight uuid s.tracker s.drawn (suc i) qs rs
      → Received s (record s { tracker = (apply_ack (uuid i) s.tracker).1 }) q qs rs
  acked-Received s i a q qs rs c h = elim (Option-cases (get_state a.type_url s.tracker)) [
    | inl e ↦ absurd (ground (arith, e, c.awaits.1))
    | inr (cs, e) ↦
        let t = s.tracker in
        let t' = confirmed (uuid i) a cs t in
        let kept = confirmed-Keeps t i s.drawn a cs in
        subst (λ u. Received s (record s { tracker = u }) q qs rs)
          (sym (apply_ack-eq t (uuid i) a cs c.awaits e))
          (record {
            flight =
                InFlight-lower uuid t' s.drawn 0 (suc i) qs rs (omega arith)
                  (Keeps-InFlight uuid t t' s.drawn s.drawn (suc i) qs rs (omega arith) kept h);
            settled = λ ty k.
                settle_kept ty k uuid t t' s.drawn (suc i) qs rs (tracked ty k t') kept h
                ∙ ap (settle ty k t.ack_map qs) (tracked-confirmed t (uuid i) a cs q ty k c e);
          })
  ]

  step-acks :
      (s : Stream C) (q : DeltaDiscoveryRequest) (n : ℕ)
      → q.type_url ≢ ignore_me
      → ack_of q ≡ some n
      → step cfg uuid (request q) s ≡ yields [] (record s { tracker = (apply_ack n s.tracker).1 })
  unfolding step on_request
  step-acks s q n k e = ground (arith, k, e, same→eq q.type_url ignore_me)

  step-asks :
      (s : Stream C) (q : DeltaDiscoveryRequest)
      → q.type_url ≢ ignore_me
      → ack_of q ≡ none
      → step cfg uuid (request q) s ≡ on_respond cfg uuid q s
  unfolding step on_request
  step-asks s q k e = ground (arith, k, e, same→eq q.type_url ignore_me)

  on_respond-yields :
      (s s' : Stream C) (q : DeltaDiscoveryRequest) (new : List (DeltaDiscoveryResponse P))
      → on_respond cfg uuid q s ≡ yields new s'
      → let (r, t) = called cfg uuid (some q) q.type_url s in
        (t ≡ s') × (answers r ≡ new) × (r ≢ invalid_argument)
  unfolding on_respond
  on_respond-yields s s' q new e = by_answer (called cfg uuid (some q) q.type_url s).0 refl
    where
      by_answer :
          (r : Responded P)
          → (called cfg uuid (some q) q.type_url s).0 ≡ r
          → let (r, t) = called cfg uuid (some q) q.type_url s in
            (t ≡ s') × (answers r ≡ new) × (r ≢ invalid_argument)
      by_answer (answered r) f =
          (ground (arith, e, f), ground (arith, e, f), λ g. absurd (ground (arith, f, g)))
      by_answer silent f =
          (ground (arith, e, f), ground (arith, e, f), λ g. absurd (ground (arith, f, g)))
      by_answer invalid_argument f = absurd (ground (arith, e, f))
      by_answer internal f = absurd (ground (arith, e, f))

  -- What is on the way once its first request is read.
  pub step-Received :
      (s s' : Stream C) (q : DeltaDiscoveryRequest) (qs : List DeltaDiscoveryRequest)
      (rs new : List (DeltaDiscoveryResponse P))
      → InFlight uuid s.tracker s.drawn 0 (q ∷ qs) rs
      → step cfg uuid (request q) s ≡ yields new s'
      → Received s s' q qs (rs ++ new)
  step-Received s s' q qs rs new (inr (i, a, l, c, h)) e =
      let t : Stream C = record s { tracker = (apply_ack (uuid i) s.tracker).1 } in
      let eq : yields [] t ≡ yields new s' = sym (step-acks s q (uuid i) c.kind c.nonce) ∙ e in
      let same_stream : t ≡ s' = ground (arith, eq) in
      let nothing : [] ≡ new = ground (arith, eq) in
      subst (λ x. Received s x q qs (rs ++ new)) same_stream
        (subst (λ x. Received s t q qs (rs ++ x)) nothing
          (subst (λ x. Received s t q qs x) (sym (append-nil rs))
            (acked-Received s i a q qs rs c h)))
  step-Received s s' q qs rs new (inl (p, h)) e =
      let (same_stream, same_new, allowed) =
        on_respond-yields s s' q new (sym (step-asks s q p.kind p.nonce) ∙ e) in
      let (r, t) = called cfg uuid (some q) q.type_url s in
      elim (responder-some cfg s.id (uuid s.drawn) q q.type_url s.tracker s.config) [
        | inl f ↦ absurd (allowed f)
        | inr sent ↦
            subst (λ x. Received s x q qs (rs ++ new)) same_stream
              (subst (λ x. Received s t q qs (rs ++ x)) same_new
                (plain-Received s t q qs rs (answers r) p h (omega arith) sent))
      ]
