-- ===== src/Net/Sessions/Replies.antt =====
-- The way back (src/net/sessions.rs): whose packet a server's answer is.
use quilkin.Common.{
  ℕ, ◌%◌, ◌≡◌, ◌≢◌, ◌↔◌, sym, ◌⊎◌, refl, ap, subst, inl, inr, Option-cases, Option, none, some,
  List, length, arith,
}
use quilkin.Common.Order.{ℕ_ord}
use quilkin.Common.Maps
use quilkin.Common.Maps.{get-remove, get-remove_self}
use quilkin.Net.Address.{Bytes, IpAddr, SocketAddr, socket_ord, to_canonical}
use quilkin.Net.Cluster.Clusters.{fetch_add}
use quilkin.Filters.{Filter, WriteContext, passed}
use quilkin.Filters.Chain.{chain_write}
use quilkin.Net.Sessions.{SessionKey, PipelineError, session_key_ord, reservation_ord}
use quilkin.Net.Sessions.Pool.{Opened, Outcome, ok, err, SessionPool, get}
use quilkin.Net.Sessions.Invariant.{port_of, Inv, IsFresh, IsAnswer}
use quilkin.Net.Sessions.Grants.{get-Good}
use quilkin.Net.Sessions.Traffic.{
  SendPacket, no_downstream, forwarded, to_endpoint_address, new_write_context, send_inner,
  process_recv_packet, process_received_upstream_packet,
}

module _ {U R S Q A : Type 0} (filters : List (Filter U R S)) (pool : SessionPool Q A)
    (i : Inv pool) where
  -- A packet from a session's server, whose address is canonical, on the session's port, that the
  -- filters pass: it is sent to the session's client, through the queue whose turn it is.
  received-session :
      (key : SessionKey) (port : ℕ) (packet : Bytes) (s s' : S) (ctx' : WriteContext)
      → port_of pool key ≡ some port
      → to_canonical key.dest.ip ≡ key.dest.ip
      → chain_write filters
          (new_write_context (to_endpoint_address key.dest) (to_endpoint_address key.source) packet)
          s
        ≡ some (passed, ctx', s')
      → length pool.downstream_sends ≢ 0
      → process_received_upstream_packet filters packet key.dest port s pool ≡ (
        forwarded (pool.downstream_index % length pool.downstream_sends) (record {
          destination = key.source;
          contents = ctx'.contents;
          asn_info = Maps.get key.source pool.storage.sources_to_asn_info;
        }),
        s',
        record pool { downstream_index = fetch_add pool.downstream_index 1 },
      )
  unfolding process_received_upstream_packet process_recv_packet
  received-session key port packet s s' ctx' live canonical passes queues =
      ground (arith, i.storage.owns key port live, canonical, passes, queues)

  module _ (recv_addr : SocketAddr) (port : ℕ) (packet : Bytes) (s : S) where
    abbrev canonical_addr : SocketAddr
    canonical_addr = record recv_addr { ip = to_canonical recv_addr.ip }

    none_received :
        Maps.get (canonical_addr, port) pool.storage.destination_to_sources ≡ none
        → (process_received_upstream_packet filters packet recv_addr port s pool).0 ≡ no_downstream
    unfolding process_received_upstream_packet
    none_received e = ground (arith, e)

    some_received :
        (source : SocketAddr)
        → Maps.get (canonical_addr, port) pool.storage.destination_to_sources ≡ some source
        → (process_received_upstream_packet filters packet recv_addr port s pool).0 ≢ no_downstream
    unfolding process_received_upstream_packet
    some_received source e h = ground (arith, e, h)

  -- In a pool with the invariant, a packet is dropped for want of a client exactly when no live session has its server, by the
  -- canonical address, and its port.
  pub received-no_downstream :
      (recv_addr : SocketAddr) (port : ℕ) (packet : Bytes) (s : S)
      → ((process_received_upstream_packet filters packet recv_addr port s pool).0 ≡ no_downstream)
        ↔ ((source : SocketAddr)
            → port_of pool (record {
              source = source;
              dest = record recv_addr { ip = to_canonical recv_addr.ip };
            })
              ≢ some port)
  received-no_downstream recv_addr port packet s = (
    λ h source live.
        some_received recv_addr port packet s source
          (i.storage.owns
            (record { source = source; dest = canonical_addr recv_addr port packet s }) port live)
          h,
    λ no_session.
        elim (Option-cases (
          Maps.get (canonical_addr recv_addr port packet s, port)
            pool.storage.destination_to_sources)) [
              | inl e ↦ none_received recv_addr port packet s e
              | inr (source, e) ↦ absurd (
                  no_session source
                    (i.storage.owned source (canonical_addr recv_addr port packet s) port e))
            ],
  )

Outcome-cases :
    {T : Type 0} (r : Outcome T) → ((t : T) × (r ≡ ok t)) ⊎ ((e : PipelineError) × (r ≡ err e))
Outcome-cases (ok t) = inl (t, refl)
Outcome-cases (err e) = inr (e, refl)

module _ {Q A : Type 0} (lookup : IpAddr → Option A) (clock : Option ℕ) where
  -- A packet that is sent was given its queue by `get`.
  send_inner-get :
      (os : Opened Q) (key : SessionKey) (packet : Bytes) (q : Q) (sent : SendPacket A)
      (pool pool' : SessionPool Q A)
      → send_inner lookup clock os key packet pool ≡ (ok (q, sent), pool')
      → (sent.destination ≡ key.dest)
        × (sent.contents ≡ packet)
        × (get lookup clock os key pool ≡ (ok (sent.asn_info, q), pool'))
  unfolding send_inner
  send_inner-get os key packet q sent pool pool' e =
      elim (Outcome-cases (get lookup clock os key pool).0) [
        | inl ((a, r), f) ↦ ground (arith, f, e)
        | inr (r, f) ↦ absurd (ground (arith, f, e))
      ]

module _ {U R S Q A : Type 0} (filters : List (Filter U R S)) (lookup : IpAddr → Option A)
    (clock : Option ℕ) where
  -- In a pool with the invariant, where a new socket's port is not one that is open already, and there
  -- are queues to clients: a packet that is sent goes to its server through the queue of an open
  -- socket; and if the server's address is in canonical form (no IPv4 address mapped to IPv6) and the
  -- filters pass its answer to that socket's port, the answer goes to the client, as the filters leave
  -- it.
  pub send_inner-reply :
      (os : Opened Q) (key : SessionKey) (packet answer : Bytes) (q : Q) (sent : SendPacket A)
      (pool pool' : SessionPool Q A) (s s' : S) (ctx' : WriteContext)
      → Inv pool
      → IsFresh os pool
      → send_inner lookup clock os key packet pool ≡ (ok (q, sent), pool')
      → to_canonical key.dest.ip ≡ key.dest.ip
      → chain_write filters
          (new_write_context (to_endpoint_address key.dest) (to_endpoint_address key.source) answer)
          s
        ≡ some (passed, ctx', s')
      → length pool'.downstream_sends ≢ 0
      → (sent.destination ≡ key.dest)
        × (sent.contents ≡ packet)
        × ((port : ℕ) × (Maps.get port pool'.ports_to_sockets ≡ some q)
            × ((process_received_upstream_packet filters answer key.dest port s pool').0
                ≡ forwarded (pool'.downstream_index % length pool'.downstream_sends) (record {
                  destination = key.source;
                  contents = ctx'.contents;
                  asn_info = Maps.get key.source pool'.storage.sources_to_asn_info;
                })))
  send_inner-reply os key packet answer q sent pool pool' s s' ctx' i f e canonical passes queues =
      let g = get-Good lookup clock key os pool i f in
      let (d, c, eq) = send_inner-get lookup clock os key packet q sent pool pool' e in
      let inv : Inv pool' = subst (λ r. Inv r.1) eq g.inv in
      let (v, live, queue, asn) : IsAnswer key pool (ok (sent.asn_info, q), pool') =
        subst (IsAnswer key pool) eq g.answer in
      let received =
        received-session filters pool' inv key v.value.socket_port answer s s' ctx' (rw live refl)
          canonical passes queues in
      (d, c, (v.value.socket_port, rw (sym queue) (inv.queued key v live), ap (λ r. r.0) received))
