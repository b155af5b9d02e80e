-- ===== src/Net/Pipeline.antt =====
-- The way of a packet from a client (`DownstreamPacket` of src/net/packet.rs): through the filters, to
-- the sessions. The names of hosts are resolved outside, and what the operating system answers to a
-- request for a socket depends on the sockets that are open. A release build is modelled, in which
-- some source addresses are refused. Metrics are left out.
pub mod Gated
pub mod Leftovers
pub mod Routed
use quilkin.Common.{
  ℕ, ◌/◌, ◌-◌, ◌^◌, Bool, true, false, not, ◌||◌, Option, none, some, List, [], ◌∷◌, length, ◌==◌,
  if◌then◌else◌,
}
use quilkin.Common.Maps.{Map}
use quilkin.Net.Address.{Bytes, IpAddr, EndpointAddress, SocketAddr}
use quilkin.Net.Cluster.Clusters.{ClusterMap, has_endpoints}
use quilkin.Filters.{Filter, Verdict, passed, failed, new_read_context, to_socket_addr}
use quilkin.Filters.Chain.{chain_read}
use quilkin.Net.Sessions.{
  PipelineError, no_upstream_endpoints, io, disallowed_source_ip, SessionKey,
}
use quilkin.Net.Sessions.Pool.{Opened, Outcome, ok, err, SessionPool}
use quilkin.Net.Sessions.Traffic.{SendPacket, to_endpoint_address, send_inner}

-- What a packet leaves: its result, the packets pushed to queues, and the worker's list of
-- destinations, which the next packet is given.
pub record Processed (S Q A : Type 0) : Type 0 where
  pub result : Option PipelineError
  pub sent : List (Q × SendPacket A)
  pub destinations : List EndpointAddress
  pub state : S
  pub pool : SessionPool Q A

-- The loopback, multicast and broadcast addresses.
unfoldable pub is_disallowed : IpAddr → Bool
is_disallowed (IpAddr.v4 n) = n / 2 ^ 24 == 127 || n / 2 ^ 28 == 14 || n == 2 ^ 32 - 1
is_disallowed (IpAddr.v6 n) = n == 1 || n / 2 ^ 120 == 255

module _ {Q A : Type 0} (resolve : Bytes → Option IpAddr) (lookup : IpAddr → Option A)
    (clock : Option ℕ) (os : Map ℕ Q → Opened Q) where
  -- The loop over the destinations, which an error ends.
  unfoldable pub send_all :
      SocketAddr
      → Bytes
      → List EndpointAddress
      → SessionPool Q A
      → Option PipelineError × List (Q × SendPacket A) × SessionPool Q A
  unfolding to_socket_addr
  send_all source contents [] pool = (none, [], pool)
  send_all source contents (epa ∷ rest) pool = elim (to_socket_addr resolve epa) [
    | none ↦ (some io, [], pool)
    | some dest ↦
        let key : SessionKey = record { source = source; dest = dest } in
        let (outcome, pool') =
          send_inner lookup clock (os pool.ports_to_sockets) key contents pool in
        let (result, sent, pool'') = send_all source contents rest pool' in
        elim outcome [ err e ↦ (some e, [], pool') | ok pushed ↦ (result, pushed ∷ sent, pool'') ]
  ]

  module _ {U R S : Type 0} (clusters : Option (ClusterMap U R))
      (filters : List (Filter U R S)) where
    -- A packet that is refused before the filters.
    abbrev stopped : PipelineError → List EndpointAddress → S → SessionPool Q A → Processed S Q A
    stopped e destinations s pool = record {
      result = some e;
      sent = [];
      destinations = destinations;
      state = s;
      pool = pool;
    }

    -- The filters, and the sending. Past the filters the list of destinations is popped or drained,
    -- also when sending fails.
    unfoldable pub filter_and_send :
        ClusterMap U R
        → SocketAddr
        → Bytes
        → List EndpointAddress
        → S
        → SessionPool Q A
        → Option (Processed S Q A)
    unfolding send_all new_read_context
    filter_and_send cm source contents destinations s pool =
        let ctx = new_read_context cm (to_endpoint_address source) contents destinations in
        elim (chain_read filters ctx s) [
          | none ↦ none
          | some (verdict, ctx', s') ↦ elim verdict [
            | failed e ↦ some (stopped (PipelineError.filter e) ctx'.destinations s' pool)
            | passed ↦
                let (result, sent, pool') = send_all source ctx'.contents ctx'.destinations pool in
                some (record {
                  result = result;
                  sent = sent;
                  destinations = [];
                  state = s';
                  pool = pool';
                })
          ]
        ]

    -- None for a filter that panics.
    unfoldable pub process_inner :
        SocketAddr → Bytes → List EndpointAddress → S → SessionPool Q A → Option (Processed S Q A)
    unfolding filter_and_send
    process_inner source contents destinations s pool = elim clusters [
      | none ↦ some (stopped no_upstream_endpoints destinations s pool)
      | some cm ↦
          if not (has_endpoints cm)
          then some (stopped no_upstream_endpoints destinations s pool)
          else if is_disallowed source.ip
          then some (stopped (disallowed_source_ip source.ip) destinations s pool)
          else filter_and_send cm source contents destinations s pool
    ]

    -- A worker's loop (src/net/io/poll/tokio.rs): every packet is given the one list.
    unfoldable pub worker :
        List (SocketAddr × Bytes)
        → List EndpointAddress
        → S
        → SessionPool Q A
        → Option (List (Processed S Q A))
    worker [] destinations s pool = some []
    worker ((source, contents) ∷ packets) destinations s pool =
        elim (process_inner source contents destinations s pool) [
          | none ↦ none
          | some p ↦ elim (worker packets p.destinations p.state p.pool) [
            | none ↦ none
            | some rest ↦ some (p ∷ rest)
          ]
        ]
