-- ===== src/Xds/Link/Moves.antt =====
-- How what is on its way moves (crates/xds/src/config.rs, crates/xds/src/server.rs).
use quilkin.Common.{ℕ, suc, ◌≡◌, ◌≢◌, ◌≤◌, ◌<◌, inl, inr, some, List, [], ◌∷◌, ◌++◌, arith}
use quilkin.Common.Order.{ℕ_ord}
use quilkin.Net.Address.{bytes_ord}
use quilkin.Xds.{DeltaDiscoveryRequest, DeltaDiscoveryResponse}
use quilkin.Xds.Tracker.{AwaitingAck, ClientTracker}
use quilkin.Xds.Server.{ignore_me}
use quilkin.Xds.Link.Flight.{ack_of, IsPlain, Awaits, Confirms, Offers, Responses, InFlight}

module _ (uuid : ℕ → ℕ) where
  -- What is awaited from `lo` to below `top` is still awaited.
  abbrev pub Keeps : ℕ → ℕ → ClientTracker → ClientTracker → Type 0
  Keeps lo top t t' =
      (i : ℕ) (a : AwaitingAck) → lo ≤ i → i < top → Awaits t (uuid i) a → Awaits t' (uuid i) a

Confirms-keeps :
    (t t' : ClientTracker) (n : ℕ) (a : AwaitingAck) (q : DeltaDiscoveryRequest)
    → Awaits t' n a
    → Confirms t n a q
    → Confirms t' n a q
Confirms-keeps t t' n a q w c = record { kind = c.kind; nonce = c.nonce; awaits = w }

module _ {P : Type 0} (uuid : ℕ → ℕ) where
  Responses-le :
      (t : ClientTracker) (top lo : ℕ) (rs : List (DeltaDiscoveryResponse P))
      → Responses uuid t top lo rs
      → lo ≤ top
  Responses-le t top lo [] h = h
  Responses-le t top lo (r ∷ rs) (inl (b, h)) = Responses-le t top lo rs h
  Responses-le t top lo (r ∷ rs) (inr (i, a, l, o, h)) =
      omega (arith, l, Responses-le t top (suc i) rs h)

  pub InFlight-le :
      (t : ClientTracker) (top lo : ℕ) (qs : List DeltaDiscoveryRequest)
      (rs : List (DeltaDiscoveryResponse P))
      → InFlight uuid t top lo qs rs
      → lo ≤ top
  InFlight-le t top lo [] rs h = Responses-le t top lo rs h
  InFlight-le t top lo (q ∷ qs) rs (inl (b, h)) = InFlight-le t top lo qs rs h
  InFlight-le t top lo (q ∷ qs) rs (inr (i, a, l, c, h)) =
      omega (arith, l, InFlight-le t top (suc i) qs rs h)

  Offers-keeps :
      (t t' : ClientTracker) (n : ℕ) (a : AwaitingAck) (r : DeltaDiscoveryResponse P)
      → Awaits t' n a
      → Offers t n a r
      → Offers t' n a r
  Offers-keeps t t' n a r w o = record {
    nonce = o.nonce;
    awaits = w;
    kind = o.kind;
    versions = o.versions;
    removed = o.removed;
  }

  Keeps-Responses :
      (t t' : ClientTracker) (top top' lo : ℕ) (rs : List (DeltaDiscoveryResponse P))
      → top ≤ top'
      → Keeps uuid lo top t t'
      → Responses uuid t top lo rs
      → Responses uuid t' top' lo rs
  Keeps-Responses t t' top top' lo [] l k h = omega (arith, l, h)
  Keeps-Responses t t' top top' lo (r ∷ rs) l k (inl (b, h)) =
      inl (b, Keeps-Responses t t' top top' lo rs l k h)
  Keeps-Responses t t' top top' lo (r ∷ rs) l k (inr (i, a, m, o, h)) = inr (
    i,
    a,
    m,
    Offers-keeps t t' (uuid i) a r
        (k i a m (omega (arith, Responses-le t top (suc i) rs h)) o.awaits) o,
    Keeps-Responses t t' top top' (suc i) rs l (λ j b n. k j b (omega (arith, m, n))) h,
  )

  pub Keeps-InFlight :
      (t t' : ClientTracker) (top top' lo : ℕ) (qs : List DeltaDiscoveryRequest)
      (rs : List (DeltaDiscoveryResponse P))
      → top ≤ top'
      → Keeps uuid lo top t t'
      → InFlight uuid t top lo qs rs
      → InFlight uuid t' top' lo qs rs
  Keeps-InFlight t t' top top' lo [] rs l k h = Keeps-Responses t t' top top' lo rs l k h
  Keeps-InFlight t t' top top' lo (q ∷ qs) rs l k (inl (b, h)) =
      inl (b, Keeps-InFlight t t' top top' lo qs rs l k h)
  Keeps-InFlight t t' top top' lo (q ∷ qs) rs l k (inr (i, a, m, c, h)) = inr (
    i,
    a,
    m,
    Confirms-keeps t t' (uuid i) a q
        (k i a m (omega (arith, InFlight-le t top (suc i) qs rs h)) c.awaits) c,
    Keeps-InFlight t t' top top' (suc i) qs rs l (λ j b n. k j b (omega (arith, m, n))) h,
  )

  -- A new response comes last.
  Responses-snoc :
      (t : ClientTracker) (top lo : ℕ) (rs : List (DeltaDiscoveryResponse P))
      (r : DeltaDiscoveryResponse P) (a : AwaitingAck)
      → Offers t (uuid top) a r
      → Responses uuid t top lo rs
      → Responses uuid t (suc top) lo (rs ++ r ∷ [])
  Responses-snoc t top lo [] r a o h = inr (top, a, h, o, omega arith)
  Responses-snoc t top lo (s ∷ rs) r a o (inl (b, h)) = inl (b, Responses-snoc t top lo rs r a o h)
  Responses-snoc t top lo (s ∷ rs) r a o (inr (i, b, l, p, h)) =
      inr (i, b, l, p, Responses-snoc t top (suc i) rs r a o h)

  pub InFlight-snoc :
      (t : ClientTracker) (top lo : ℕ) (qs : List DeltaDiscoveryRequest)
      (rs : List (DeltaDiscoveryResponse P)) (r : DeltaDiscoveryResponse P) (a : AwaitingAck)
      → Offers t (uuid top) a r
      → InFlight uuid t top lo qs rs
      → InFlight uuid t (suc top) lo qs (rs ++ r ∷ [])
  InFlight-snoc t top lo [] rs r a o h = Responses-snoc t top lo rs r a o h
  InFlight-snoc t top lo (q ∷ qs) rs r a o (inl (b, h)) =
      inl (b, InFlight-snoc t top lo qs rs r a o h)
  InFlight-snoc t top lo (q ∷ qs) rs r a o (inr (i, b, l, c, h)) =
      inr (i, b, l, c, InFlight-snoc t top (suc i) qs rs r a o h)

  -- A plain request comes last.
  pub InFlight-asks :
      (t : ClientTracker) (top lo : ℕ) (qs : List DeltaDiscoveryRequest)
      (rs : List (DeltaDiscoveryResponse P)) (q : DeltaDiscoveryRequest)
      → IsPlain q
      → InFlight uuid t top lo qs rs
      → InFlight uuid t top lo (qs ++ q ∷ []) rs
  InFlight-asks t top lo [] rs q p h = inl (p, h)
  InFlight-asks t top lo (r ∷ qs) rs q p (inl (b, h)) = inl (b, InFlight-asks t top lo qs rs q p h)
  InFlight-asks t top lo (r ∷ qs) rs q p (inr (i, b, l, c, h)) =
      inr (i, b, l, c, InFlight-asks t top (suc i) qs rs q p h)

  Responses-lower :
      (t : ClientTracker) (top lo i : ℕ) (rs : List (DeltaDiscoveryResponse P))
      → lo ≤ i
      → Responses uuid t top i rs
      → Responses uuid t top lo rs
  Responses-lower t top lo i [] l h = omega (arith, h, l)
  Responses-lower t top lo i (s ∷ ss) l (inl (b, h)) = inl (b, Responses-lower t top lo i ss l h)
  Responses-lower t top lo i (s ∷ ss) l (inr (j, b, m, p, h)) =
      inr (j, b, omega (arith, l, m), p, h)

  pub InFlight-lower :
      (t : ClientTracker) (top lo i : ℕ) (qs : List DeltaDiscoveryRequest)
      (rs : List (DeltaDiscoveryResponse P))
      → lo ≤ i
      → InFlight uuid t top i qs rs
      → InFlight uuid t top lo qs rs
  InFlight-lower t top lo i [] rs l h = Responses-lower t top lo i rs l h
  InFlight-lower t top lo i (q ∷ qs) rs l (inl (b, h)) =
      inl (b, InFlight-lower t top lo i qs rs l h)
  InFlight-lower t top lo i (q ∷ qs) rs l (inr (j, b, m, p, h)) =
      inr (j, b, omega (arith, l, m), p, h)

  -- The first response is dropped, when a plain request answers it.
  pub InFlight-drops :
      (t : ClientTracker) (top lo : ℕ) (qs : List DeltaDiscoveryRequest)
      (rs : List (DeltaDiscoveryResponse P)) (r : DeltaDiscoveryResponse P)
      → InFlight uuid t top lo qs (r ∷ rs)
      → InFlight uuid t top lo qs rs
  InFlight-drops t top lo [] rs r (inl (b, h)) = h
  InFlight-drops t top lo [] rs r (inr (i, a, l, o, h)) =
      Responses-lower t top lo (suc i) rs (omega (arith, l)) h
  InFlight-drops t top lo (q ∷ qs) rs r (inl (b, h)) = inl (b, InFlight-drops t top lo qs rs r h)
  InFlight-drops t top lo (q ∷ qs) rs r (inr (i, a, l, c, h)) =
      inr (i, a, l, c, InFlight-drops t top (suc i) qs rs r h)

  -- The first response moves to the end of the requests, as its acknowledgement.
  pub InFlight-turns :
      (t : ClientTracker) (top lo : ℕ) (qs : List DeltaDiscoveryRequest)
      (rs : List (DeltaDiscoveryResponse P)) (r : DeltaDiscoveryResponse P)
      (q : DeltaDiscoveryRequest) (n : ℕ)
      → r.nonce ≡ some n
      → q.type_url ≢ ignore_me
      → ack_of q ≡ some n
      → InFlight uuid t top lo qs (r ∷ rs)
      → InFlight uuid t top lo (qs ++ q ∷ []) rs
  InFlight-turns t top lo [] rs r q n e k f (inl (b, h)) = absurd (ground (arith, e, b.nonce))
  InFlight-turns t top lo [] rs r q n e k f (inr (i, a, l, o, h)) =
      inr
        (i, a, l, record { kind = k; nonce = ground (arith, e, f, o.nonce); awaits = o.awaits }, h)
  InFlight-turns t top lo (p ∷ qs) rs r q n e k f (inl (b, h)) =
      inl (b, InFlight-turns t top lo qs rs r q n e k f h)
  InFlight-turns t top lo (p ∷ qs) rs r q n e k f (inr (i, a, l, c, h)) =
      inr (i, a, l, c, InFlight-turns t top (suc i) qs rs r q n e k f h)
