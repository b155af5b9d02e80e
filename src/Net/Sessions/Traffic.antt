-- ===== src/Net/Sessions/Traffic.antt =====
-- Packets of a session, to the server and back (src/net/sessions.rs). A packet that is pushed to a
-- queue is an output; metrics and timers are left out.
use quilkin.Common.{
  ℕ, ◌%◌, Option, none, some, ◌⊎◌, inl, inr, List, [], length, ◌==◌, if◌then◌else◌,
}
use quilkin.Common.Maps
use quilkin.Net.Address.{
  Bytes, IpAddr, AddressKind, EndpointAddress, SocketAddr, socket_ord, to_canonical,
}
use quilkin.Net.Cluster.Clusters.{fetch_add}
use quilkin.Filters.{Filter, FilterError, WriteContext, passed, failed}
use quilkin.Filters.Chain.{chain_write}
use quilkin.Net.Sessions.{SessionKey, reservation_ord}
use quilkin.Net.Sessions.Pool.{Opened, Outcome, ok, err, SessionPool, get}

pub record SendPacket (A : Type 0) : Type 0 where
  pub destination : SocketAddr
  pub contents : Bytes
  pub asn_info : Option A

-- What becomes of a packet from a server.
pub data Received (A : Type 0) : Type 0 where
  no_downstream panicked : Received A
  refused : FilterError → Received A
  forwarded : ℕ → SendPacket A → Received A

-- `From<SocketAddr> for EndpointAddress`.
abbrev pub to_endpoint_address : SocketAddr → EndpointAddress
to_endpoint_address a = record { host = AddressKind.ip a.ip; port = a.port }

unfoldable pub new_write_context : EndpointAddress → EndpointAddress → Bytes → WriteContext
new_write_context source dest contents = record {
  source = source;
  dest = dest;
  contents = contents;
  metadata = [];
}

module _ {Q A : Type 0} where
  -- `send` and `send_inner`: the queue, and the packet that is pushed to it.
  unfoldable pub send_inner :
      (IpAddr → Option A)
      → Option ℕ
      → Opened Q
      → SessionKey
      → Bytes
      → SessionPool Q A
      → Outcome (Q × SendPacket A) × SessionPool Q A
  send_inner lookup clock os key packet pool =
      let (found, pool') = get lookup clock os key pool in
      elim found [
        | err e ↦ (err e, pool')
        | ok (asn_info, sender) ↦ (
          ok (sender, record { destination = key.dest; contents = packet; asn_info = asn_info }),
          pool',
        )
      ]

module _ {U R S A : Type 0} (filters : List (Filter U R S)) where
  -- The packet on its way back, or the reason to drop it; none for a filter that panics.
  unfoldable pub process_recv_packet :
      SocketAddr → SocketAddr → Option A → Bytes → S → Option ((FilterError ⊎ SendPacket A) × S)
  unfolding new_write_context
  process_recv_packet source dest asn_info packet s =
      let ctx = new_write_context (to_endpoint_address source) (to_endpoint_address dest) packet in
      elim (chain_write filters ctx s) [
        | none ↦ none
        | some (verdict, ctx', s') ↦ elim verdict [
          | failed e ↦ some (inl e, s')
          | passed ↦ some (
            inr (record { destination = dest; contents = ctx'.contents; asn_info = asn_info }),
            s',
          )
        ]
      ]

module _ {U R S Q A : Type 0} (filters : List (Filter U R S)) where
  -- The address is made canonical; the storage says whose packet it is; the queues to the clients take
  -- turns. With no such queue, the remainder by zero panics.
  unfoldable pub process_received_upstream_packet :
      Bytes → SocketAddr → ℕ → S → SessionPool Q A → Received A × S × SessionPool Q A
  unfolding process_recv_packet
  process_received_upstream_packet packet recv_addr port s pool =
      let recv_addr' : SocketAddr = record recv_addr { ip = to_canonical recv_addr.ip } in
      elim (Maps.get (recv_addr', port) pool.storage.destination_to_sources) [
        | none ↦ (no_downstream, s, pool)
        | some downstream_addr ↦
            let asn_info = Maps.get downstream_addr pool.storage.sources_to_asn_info in
            elim (process_recv_packet filters recv_addr' downstream_addr asn_info packet s) [
              | none ↦ (panicked, s, pool)
              | some (inl e, s') ↦ (refused e, s', pool)
              | some (inr send_packet, s') ↦
                  let pool' : SessionPool Q A = record pool {
                    downstream_index = fetch_add pool.downstream_index 1;
                  } in
                  if length pool.downstream_sends == 0 then (panicked, s', pool') else (
                    forwarded (pool.downstream_index % length pool.downstream_sends) send_packet,
                    s',
                    pool',
                  )
            ]
      ]
