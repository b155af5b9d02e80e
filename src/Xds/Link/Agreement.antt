-- ===== src/Xds/Link/Agreement.antt =====
-- What a server and its client agree on (crates/xds/src/server.rs, crates/xds/src/config.rs).
use quilkin.Common.{
  ℕ, ◌≡◌, ◌≢◌, refl, sym, ap, ◌∙◌, subst, inl, inr, Option, none, some, List, [], ◌∷◌, ◌++◌, All,
  Bool-cases, arith,
}
use mathlib.Core.List.{append-nil, append_assoc}
use quilkin.Common.Order.{same, same→eq, ℕ_ord}
use quilkin.Common.Maps
use quilkin.Common.Maps.{Map, get-insert}
use quilkin.Net.Address.{Bytes, IpAddr, bytes_ord}
use quilkin.Xds.{VersionMap, DeltaDiscoveryRequest, DeltaDiscoveryResponse}
use quilkin.Xds.Tracker.{AwaitingAck, extend}
use quilkin.Xds.Server.{Configuration, Stream, request, yields, step, ignore_me, versions_of}
use quilkin.Xds.Client.{
  LocalVersions, get_local, put_local, remove_names, replied, reply,
  handle_delta_discovery_response,
}
use quilkin.Xds.Link.{Link}
use quilkin.Xds.Link.Flight.{IsPlain, IsBlank, Offers, InFlight}
use quilkin.Xds.Link.Moves.{InFlight-asks, InFlight-drops, InFlight-turns}
use quilkin.Xds.Link.Settled.{effect, settle, settle-snoc, settle_kept, get-handled}
use quilkin.Xds.Link.Sends.{tracked}
use quilkin.Xds.Link.Served.{Served}
use quilkin.Xds.Link.Received.{step-Received}
use quilkin.Xds.Link.Handles.{IsRefresh, handled-cases, first-response, get-put_local}

-- What is on its way is what the server awaits, and once the server has read the requests it has, for
-- each type that the client keeps, the versions that the client has.
pub record Inv {C D P : Type 0} (uuid : ℕ → ℕ) (link : Link C D P) : Type 0 where
  pub flight : InFlight uuid link.stream.tracker link.stream.drawn 0 link.requests link.responses
  pub agree :
      (ty k : Bytes) (v : VersionMap)
      → get_local ty link.local ≡ some v
      → settle ty k link.stream.tracker.ack_map link.requests (tracked ty k link.stream.tracker)
        ≡ Maps.get k v

-- A request of a refresh leaves a version as the client has it.
refreshed :
    (ty k : Bytes) (m : Map ℕ AwaitingAck) (q : DeltaDiscoveryRequest) (local : LocalVersions)
    (v : VersionMap) (x : Option Bytes)
    → IsPlain q
    → get_local q.type_url local ≡ some q.initial_resource_versions
    → get_local ty local ≡ some v
    → x ≡ Maps.get k v
    → effect ty k m q x ≡ Maps.get k v
refreshed ty k m q local v x p g e h = elim (Bool-cases (same q.type_url ty)) [
  | inl f ↦
      let same_type = same→eq q.type_url ty f in
      let same_versions : q.initial_resource_versions ≡ v = ground (arith, g, e, same_type) in
      ground (arith, f, p.nonce, h, ap (Maps.get k) same_versions)
  | inr f ↦ ground (arith, f, p.nonce, h)
]

module _ {C D P : Type 0} (server : Configuration C P) (client : Configuration D P) (uuid : ℕ → ℕ)
    (injective : (i j : ℕ) → uuid i ≡ uuid j → i ≡ j) (addr : Option IpAddr) (failure : Bytes) where
  pub serves-Inv :
      (link : Link C D P) (s' : Stream C) (new : List (DeltaDiscoveryResponse P))
      → Served server uuid injective link.stream s' new
      → Inv uuid link
      → Inv uuid (record link { stream = s'; responses = link.responses ++ new })
  serves-Inv link s' new served i =
      let t = link.stream.tracker in
      record {
        flight = served.flight 0 link.requests link.responses i.flight;
        agree = λ ty k v e.
            settle_kept ty k uuid t s'.tracker link.stream.drawn 0 link.requests link.responses
              (tracked ty k s'.tracker) (served.keeps 0) i.flight
            ∙ ap (settle ty k t.ack_map link.requests) (ground (arith, served.states))
            ∙ i.agree ty k v e;
      }

  pub receives-Inv :
      (link : Link C D P) (q : DeltaDiscoveryRequest) (qs : List DeltaDiscoveryRequest)
      (s' : Stream C) (new : List (DeltaDiscoveryResponse P))
      → link.requests ≡ q ∷ qs
      → step server uuid (request q) link.stream ≡ yields new s'
      → Inv uuid link
      → Inv uuid (record link { stream = s'; responses = link.responses ++ new; requests = qs })
  receives-Inv link q qs s' new r e i =
      let s = link.stream in
      let h = subst (λ ps. InFlight uuid s.tracker s.drawn 0 ps link.responses) r i.flight in
      let got = step-Received server uuid injective s s' q qs link.responses new h e in
      record {
        flight = got.flight;
        agree = λ ty k v f.
            got.settled ty k
            ∙ ap (λ ps. settle ty k s.tracker.ack_map ps (tracked ty k s.tracker)) (sym r)
            ∙ i.agree ty k v f;
      }

  -- A request with no versions, that acknowledges nothing, changes nothing.
  asked-Inv :
      (link : Link C D P) (q : DeltaDiscoveryRequest) (rs : List (DeltaDiscoveryResponse P)) (d : D)
      (local : LocalVersions)
      → IsPlain q
      → q.initial_resource_versions ≡ []
      → InFlight uuid link.stream.tracker link.stream.drawn 0 link.requests rs
      → ((ty k : Bytes) (v : VersionMap)
          → get_local ty local ≡ some v
          → settle ty k link.stream.tracker.ack_map link.requests (tracked ty k link.stream.tracker)
            ≡ Maps.get k v)
      → Inv uuid (record link {
        responses = rs;
        requests = link.requests ++ q ∷ [];
        config = d;
        local = local;
      })
  asked-Inv link q rs d local p n h agreed =
      let t = link.stream.tracker in
      record {
        flight = InFlight-asks uuid t link.stream.drawn 0 link.requests rs q p h;
        agree = λ ty k v e.
            let x = settle ty k t.ack_map link.requests (tracked ty k t) in
            let idle : effect ty k t.ack_map q x ≡ x = ground (arith, p.nonce, n) in
            settle-snoc ty k t.ack_map link.requests q (tracked ty k t) ∙ idle ∙ agreed ty k v e;
      }

  acks-Inv :
      (link : Link C D P) (r : DeltaDiscoveryResponse P) (rs : List (DeltaDiscoveryResponse P))
      (d : D) (v : VersionMap) (n : ℕ) (a : AwaitingAck)
      → r.type_url ≢ ignore_me
      → get_local r.type_url link.local ≡ some v
      → Offers link.stream.tracker n a r
      → InFlight uuid link.stream.tracker link.stream.drawn 0 link.requests (r ∷ rs)
      → Inv uuid link
      → Inv uuid (record link {
        responses = rs;
        requests = link.requests ++ reply none r ∷ [];
        config = d;
        local =
            put_local r.type_url
              (extend (versions_of r.resources) (remove_names r.removed_resources v))
              link.local;
      })
  acks-Inv link r rs d v n a kind g o h i =
      let t = link.stream.tracker in
      let v' = extend (versions_of r.resources) (remove_names r.removed_resources v) in
      record {
        flight =
            InFlight-turns uuid t link.stream.drawn 0 link.requests rs r (reply none r) n o.nonce
              kind o.nonce h;
        agree = λ ty k w e.
            let x = settle ty k t.ack_map link.requests (tracked ty k t) in
            settle-snoc ty k t.ack_map link.requests (reply none r) (tracked ty k t)
            ∙ elim (Bool-cases (same r.type_url ty)) [
              | inl f ↦
                  let same_type = same→eq r.type_url ty f in
                  let now : v' ≡ w =
                    ground (arith, e, f, g, get-put_local ty r.type_url v' link.local) in
                  let old : x ≡ Maps.get k v = i.agree ty k v (ground (arith, g, same_type)) in
                  ground (
                    arith,
                    f,
                    o.nonce,
                    o.awaits.0,
                    o.kind,
                    old,
                    ap (Maps.get k) now,
                    get-handled k a (versions_of r.resources) r.removed_resources v o.versions
                        o.removed,
                  )
              | inr f ↦
                  let old : x ≡ Maps.get k w =
                    i.agree ty k w
                      (ground (arith, e, f, get-put_local ty r.type_url v' link.local)) in
                  ground (arith, f, o.nonce, o.awaits.0, o.kind, old)
            ];
      }

  -- A response with nothing in it changes no local version.
  blank-local :
      (r : DeltaDiscoveryResponse P) (local : LocalVersions) (v : VersionMap) (ty : Bytes)
      (w : VersionMap)
      → IsBlank r
      → get_local r.type_url local ≡ some v
      → get_local ty (
          put_local r.type_url
            (extend (versions_of r.resources) (remove_names r.removed_resources v))
            local)
        ≡ some w
      → get_local ty local ≡ some w
  unfolding extend remove_names
  blank-local r local v ty w b g o =
      let v' = extend (versions_of r.resources) (remove_names r.removed_resources v) in
      let kept : v' ≡ v = ground (arith, b.resources, b.removed) in
      ground (arith, g, o, kept, get-put_local ty r.type_url v' local, same→eq r.type_url ty)

  pub handles-Inv :
      (link : Link C D P) (r : DeltaDiscoveryResponse P) (rs : List (DeltaDiscoveryResponse P))
      (q : DeltaDiscoveryRequest) (d : D) (local : LocalVersions)
      → link.responses ≡ r ∷ rs
      → handle_delta_discovery_response client addr failure r link.config link.local
        ≡ replied q d local
      → Inv uuid link
      → Inv uuid (record link {
        responses = rs;
        requests = link.requests ++ q ∷ [];
        config = d;
        local = local;
      })
  handles-Inv link r rs q d local e f i =
      let t = link.stream.tracker in
      let h = subst (λ ss. InFlight uuid t link.stream.drawn 0 link.requests ss) e i.flight in
      let rest = InFlight-drops uuid t link.stream.drawn 0 link.requests rs r h in
      let after : DeltaDiscoveryRequest → LocalVersions → Type 0 = λ p l. Inv uuid (record link {
        responses = rs;
        requests = link.requests ++ p ∷ [];
        config = d;
        local = l;
      }) in
      let (kind, cases) = handled-cases client addr failure r link.config d link.local local q f in
      elim cases [
        | inr (g, same_local) ↦
            subst (λ p. after p local) (sym g)
              (subst (λ l. after (reply (some failure) r) l) (sym same_local)
                (asked-Inv link (reply (some failure) r) rs d link.local
                  (record { kind = kind; nonce = refl; subscribe = refl; unsubscribe = refl }) refl
                  rest i.agree))
        | inl (v, g, same_request, changed) ↦
            subst (λ p. after p local) (sym same_request)
              (subst (λ l. after (reply none r) l) (sym changed)
                (elim (first-response uuid t link.stream.drawn 0 link.requests r rs h) [
                  | inl b ↦
                      asked-Inv link (reply none r) rs d _
                        (record {
                          kind = kind;
                          nonce = b.nonce;
                          subscribe = refl;
                          unsubscribe = refl;
                        })
                        refl rest
                        (λ ty k w o. i.agree ty k w (blank-local r link.local v ty w b g o))
                  | inr (n, a, o) ↦ acks-Inv link r rs d v n a kind g o h i
                ]))
      ]

  pub refreshes-Inv :
      (link : Link C D P) (requests : List DeltaDiscoveryRequest)
      → All (IsRefresh link.local) requests
      → Inv uuid link
      → Inv uuid (record link { requests = link.requests ++ requests })
  refreshes-Inv link [] w i =
      subst (λ ps. Inv uuid (record link { requests = ps })) (sym (append-nil link.requests)) i
  refreshes-Inv link (q ∷ qs) ((p, g), w) i =
      let t = link.stream.tracker in
      let link' : Link C D P = record link { requests = link.requests ++ q ∷ [] } in
      let first : Inv uuid link' = record {
        flight = InFlight-asks uuid t link.stream.drawn 0 link.requests link.responses q p i.flight;
        agree = λ ty k v e.
            let x = settle ty k t.ack_map link.requests (tracked ty k t) in
            settle-snoc ty k t.ack_map link.requests q (tracked ty k t)
            ∙ refreshed ty k t.ack_map q link.local v x p g e (i.agree ty k v e);
      } in
      subst (λ ps. Inv uuid (record link { requests = ps }))
        (append_assoc link.requests (q ∷ []) qs) (refreshes-Inv link' qs w first)
