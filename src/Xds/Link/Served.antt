-- ===== src/Xds/Link/Served.antt =====
-- A step of the server's stream, and what is on its way (crates/xds/src/server.rs).
use quilkin.Common.{
  ℕ, suc, ◌+◌, ◌%◌, ◌^◌, ◌≡◌, ◌≤◌, refl, sym, ap, ◌∙◌, subst, true, none, List, [], ◌∷◌, ◌++◌, ltb,
  if◌then◌else◌, arith,
}
use mathlib.Core.List.{append-nil, append_assoc}
use quilkin.Common.Order.{ℕ_ord}
use quilkin.Common.Sets
use quilkin.Net.Address.{Bytes, bytes_ord}
use quilkin.Xds.{DeltaDiscoveryRequest, DeltaDiscoveryResponse}
use quilkin.Xds.Tracker.{tracked_resources}
use quilkin.Xds.Server.{
  Configuration, Stream, Event, tick, changed, lagged, receive_error, request, closed, hang_up,
  shutdown, yields, answers, propagate, on_tick, step, called,
}
use quilkin.Xds.Link.{is_own}
use quilkin.Xds.Link.Flight.{Awaits, InFlight}
use quilkin.Xds.Link.Moves.{Keeps, Keeps-InFlight}
use quilkin.Xds.Link.Sends.{Sends, responder-none, Sends-Keeps, Sends-InFlight, Sends-states}

module _ {C P : Type 0} (cfg : Configuration C P) (uuid : ℕ → ℕ)
    (injective : (i j : ℕ) → uuid i ≡ uuid j → i ≡ j) where
  -- New responses come last, and all that was awaited still is; no state changes.
  pub record Served (s s' : Stream C) (new : List (DeltaDiscoveryResponse P)) : Type 0 where
    pub flight :
        (lo : ℕ) (qs : List DeltaDiscoveryRequest) (rs : List (DeltaDiscoveryResponse P))
        → InFlight uuid s.tracker s.drawn lo qs rs
        → InFlight uuid s'.tracker s'.drawn lo qs (rs ++ new)
    pub keeps : (lo : ℕ) → Keeps uuid lo s.drawn s.tracker s'.tracker
    pub states : s'.tracker.states ≡ s.tracker.states
    pub later : s.drawn ≤ s'.drawn

  -- Nothing is sent.
  idle : (s s' : Stream C) → s'.tracker ≡ s.tracker → s'.drawn ≡ s.drawn → Served s s' []
  idle s s' e d = record {
    flight = λ lo qs rs h.
        subst (λ ss. InFlight uuid s'.tracker s'.drawn lo qs ss) (sym (append-nil rs))
          (Keeps-InFlight uuid s.tracker s'.tracker s.drawn s'.drawn lo qs rs (omega (arith, d))
            (λ i a l m w. subst (λ u. Awaits u (uuid i) a) (sym e) w) h);
    keeps = λ lo i a l m w. subst (λ u. Awaits u (uuid i) a) (sym e) w;
    states = ap (λ u. u.states) e;
    later = omega (arith, d);
  }

  Sends-Served :
      (s s' : Stream C) (new : List (DeltaDiscoveryResponse P))
      → s'.drawn ≡ suc s.drawn
      → Sends s.tracker s'.tracker (uuid s.drawn) new
      → Served s s' new
  Sends-Served s s' new d h = record {
    flight = λ lo qs rs f.
        subst (λ top. InFlight uuid s'.tracker top lo qs (rs ++ new)) (sym d)
          (Sends-InFlight uuid injective s.tracker s'.tracker s.drawn lo qs rs new h f);
    keeps = λ lo. Sends-Keeps uuid injective s.tracker s'.tracker s.drawn lo new h;
    states = Sends-states uuid injective s.tracker s'.tracker (uuid s.drawn) new h;
    later = omega (arith, d);
  }

  after :
      (s s' s'' : Stream C) (new more : List (DeltaDiscoveryResponse P))
      → Served s s' new
      → Served s' s'' more
      → Served s s'' (new ++ more)
  after s s' s'' new more x y = record {
    flight = λ lo qs rs h.
        subst (λ ss. InFlight uuid s''.tracker s''.drawn lo qs ss) (append_assoc rs new more)
          (y.flight lo qs (rs ++ new) (x.flight lo qs rs h));
    keeps = λ lo i a l m w. y.keeps lo i a l (omega (arith, m, x.later)) (x.keeps lo i a l m w);
    states = y.states ∙ x.states;
    later = omega (arith, x.later, y.later);
  }

  propagate-cons :
      (rt : Bytes) (rts : List Bytes) (s : Stream C)
      → let (r, s') = called cfg uuid none rt s in
        let (more, s'') = propagate cfg uuid rts s' in
        propagate cfg uuid (rt ∷ rts) s ≡ (answers r ++ more, s'')
  unfolding propagate
  propagate-cons rt rts s = refl

  propagate-Served :
      (rts : List Bytes) (s : Stream C)
      → Served s (propagate cfg uuid rts s).1 (propagate cfg uuid rts s).0
  unfolding propagate
  propagate-Served [] s = idle s s refl refl
  propagate-Served (rt ∷ rts) s =
      let (r, s') = called cfg uuid none rt s in
      let first =
        Sends-Served s s' (answers r) (omega arith)
          (responder-none cfg s.id (uuid s.drawn) rt s.tracker s.config) in
      let (more, s'') = propagate cfg uuid rts s' in
      subst (λ x. Served s x.1 x.0) (sym (propagate-cons rt rts s))
        (after s s' s'' (answers r) more first (propagate-Served rts s'))

  by_yields :
      (s s' t : Stream C) (rs new : List (DeltaDiscoveryResponse P))
      → Served s t rs
      → yields rs t ≡ yields new s'
      → Served s s' new
  by_yields s s' t rs new h e =
      let same_stream : t ≡ s' = ground (arith, e) in
      let same_responses : rs ≡ new = ground (arith, e) in
      subst (λ x. Served s x new) same_stream (subst (Served s t) same_responses h)

  -- An event of the server's side sends what it sends, and changes no state.
  pub step-Served :
      (event : Event) (s s' : Stream C) (new : List (DeltaDiscoveryResponse P))
      → is_own event ≡ true
      → step cfg uuid event s ≡ yields new s'
      → Served s s' new
  unfolding step on_tick
  step-Served tick s s' new own e =
      let resources =
        if ltb 0 s.lag_amount
        then tracked_resources s.tracker
        else Sets.elements s.changed_resources in
      let s0 : Stream C = record s { changed_resources = []; lag_amount = 0 } in
      let sent = propagate-Served resources s0 in
      by_yields s s' (propagate cfg uuid resources s0).1 (propagate cfg uuid resources s0).0 new
        (record {
          flight = sent.flight;
          keeps = sent.keeps;
          states = sent.states;
          later = sent.later;
        })
        e
  step-Served (changed rt) s s' new own e =
      by_yields s s' (record s { changed_resources = Sets.insert rt s.changed_resources }) [] new
        (idle s _ refl refl) e
  step-Served (lagged n) s s' new own e =
      by_yields s s' (record s { lag_amount = (s.lag_amount + n) % 2 ^ 64 }) [] new
        (idle s _ refl refl) e
  step-Served receive_error s s' new own e = by_yields s s' s [] new (idle s s refl refl) e
  step-Served (request q) s s' new own e = absurd (ground (arith, own))
  step-Served closed s s' new own e = absurd (ground (arith, own))
  step-Served hang_up s s' new own e = absurd (ground (arith, own))
  step-Served shutdown s s' new own e = absurd (ground (arith, own))
