-- ===== src/Xds/Link.antt =====
-- A server and a client of a delta stream (crates/xds/src/server.rs, crates/xds/src/config.rs), with
-- what is on its way between them, in order.
pub mod Flight
pub mod Moves
pub mod Settled
pub mod Sends
pub mod Served
pub mod Received
pub mod Handles
pub mod Agreement
pub mod Runs
use quilkin.Common.{ℕ, Bool, true, false, ◌≡◌, ◌≢◌, Option, none, some, List, [], ◌∷◌, ◌++◌, All}
use quilkin.Net.Address.{Bytes, IpAddr}
use quilkin.Xds.{DeltaDiscoveryRequest, DeltaDiscoveryResponse}
use quilkin.Xds.Server.{
  Configuration, Stream, Event, tick, changed, lagged, receive_error, request, Stepped, yields,
  ignore_me, step, start,
}
use quilkin.Xds.Client.{
  LocalVersions, new_local, Handled, replied, handle_delta_discovery_response, refresh,
}

pub record Link (C D P : Type 0) : Type 0 where
  pub stream : Stream C
  pub responses : List (DeltaDiscoveryResponse P)
  pub requests : List DeltaDiscoveryRequest
  pub config : D
  pub local : LocalVersions

-- Types that are asked for without names, as `interested_resources` of the proxy does.
abbrev pub IsWildcard : Bytes × List Bytes → Type 0
IsWildcard sub = (sub.0 ≢ ignore_me) × (sub.1 ≡ [])

-- Events of the server's side that are not messages.
abbrev pub is_own : Event → Bool
is_own tick = true
is_own (changed rt) = true
is_own (lagged n) = true
is_own receive_error = true
is_own _ = false

-- The links that can arise. The configurations may change in any way, at any time.
pub data Reachable {C D P : Type 0} (server : Configuration C P) (client : Configuration D P)
    (uuid : ℕ → ℕ) (addr : Option IpAddr) (failure : Bytes) : Link C D P → Type 0 where
  begins :
      (message : DeltaDiscoveryRequest) (types : List Bytes) (config : C) (d : D)
      (response : DeltaDiscoveryResponse P) (stream : Stream C) (link : Link C D P)
      → message.initial_resource_versions ≡ []
      → start server uuid message config ≡ some (response, stream)
      → link ≡ record {
        stream = stream;
        responses = response ∷ [];
        requests = [];
        config = d;
        local = new_local types;
      }
      → Reachable server client uuid addr failure link
  serves :
      (event : Event) (link : Link C D P) (responses : List (DeltaDiscoveryResponse P))
      (stream : Stream C) (link' : Link C D P)
      → Reachable server client uuid addr failure link
      → is_own event ≡ true
      → step server uuid event link.stream ≡ yields responses stream
      → link' ≡ record link { stream = stream; responses = link.responses ++ responses }
      → Reachable server client uuid addr failure link'
  receives :
      (req : DeltaDiscoveryRequest) (requests : List DeltaDiscoveryRequest) (link : Link C D P)
      (responses : List (DeltaDiscoveryResponse P)) (stream : Stream C) (link' : Link C D P)
      → Reachable server client uuid addr failure link
      → link.requests ≡ req ∷ requests
      → step server uuid (request req) link.stream ≡ yields responses stream
      → link' ≡ record link {
        stream = stream;
        responses = link.responses ++ responses;
        requests = requests;
      }
      → Reachable server client uuid addr failure link'
  handles :
      (response : DeltaDiscoveryResponse P) (responses : List (DeltaDiscoveryResponse P))
      (link : Link C D P) (req : DeltaDiscoveryRequest) (d : D) (local : LocalVersions)
      (link' : Link C D P)
      → Reachable server client uuid addr failure link
      → link.responses ≡ response ∷ responses
      → handle_delta_discovery_response client addr failure response link.config link.local
        ≡ replied req d local
      → link' ≡ record link {
        responses = responses;
        requests = link.requests ++ req ∷ [];
        config = d;
        local = local;
      }
      → Reachable server client uuid addr failure link'
  refreshes :
      (identifier : Bytes) (subs : List (Bytes × List Bytes))
      (requests : List DeltaDiscoveryRequest) (link link' : Link C D P)
      → Reachable server client uuid addr failure link
      → All IsWildcard subs
      → refresh identifier subs link.local ≡ some requests
      → link' ≡ record link { requests = link.requests ++ requests }
      → Reachable server client uuid addr failure link'
  reconfigures :
      (c : C) (d : D) (link link' : Link C D P)
      → Reachable server client uuid addr failure link
      → link' ≡ record link { stream = record link.stream { config = c }; config = d }
      → Reachable server client uuid addr failure link'
