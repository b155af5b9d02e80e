-- ===== src/Tests/Filters.antt =====
-- The filters at concrete inputs.
use quilkin.Common.{
  ℕ, ◌+◌, ◌%◌, ◌<◌, ◌≡◌, ◌↔◌, refl, true, false, none, some, [], ◌∷◌, ◌++◌, length, get_elem?, ltb,
  ◌==◌, if◌then◌else◌, arith,
}
use quilkin.Common.Maps
use quilkin.Net.Address.{Bytes, v4, SocketAddr, address_ord, bytes_ord, locality_key_ord}
use quilkin.Net.Cluster.{Endpoint}
use quilkin.Net.Cluster.Endpoints.{new, update, from_set, collect_endpoints, insert_all}
use quilkin.Net.Cluster.Clusters.{
  addresses_for_token, empty, endpoints, insert, apply, apply_managed, insert_new, u64_mod,
}
use quilkin.Net.Cluster.Clusters.Total.{total}
use quilkin.Filters.{
  Value, ReadContext, token_router, no_endpoint_match, passed, failed, new_read_context,
  to_socket_addr,
}
use quilkin.Filters.Firewall.{
  Networks, allow, deny, v4_cidr, Firewall, firewall_read, check_rules, rule_contains,
  cidr_contains, range_of_port,
}
use quilkin.Filters.Firewall.Rules.{Allowed, firewall_read_iff}
use quilkin.Filters.Capture.{
  capture_read, new_capture, suffix, present_suffix, append, do_nothing, concatenate_read,
}
use quilkin.Filters.Capture.Affix.{capture-concatenate}
use quilkin.Filters.Routing.{round_robin}
use quilkin.Filters.Routing.Balance.{round_robin-lists}
use quilkin.Filters.Chain.{chain_read}
use quilkin.Filters.Chain.Route.{route_by_token, chain_read-route_by_token}
use quilkin.Tests.Cluster.{small_env, host, token, cluster, cluster-Inv}

abbrev key : Bytes
key = 0x54 ∷ 0x4f ∷ 0x4b ∷ []

abbrev body : Bytes
body = 0x68 ∷ 0x69 ∷ []

abbrev packet : ReadContext ℕ ℕ
packet = new_read_context cluster (host 8) (body ++ token) []

chain_read-route_by_token_example :
    (let routed = addresses_for_token (length token) cluster [] in
      chain_read {S = ℕ} (route_by_token (λ t. length t) (length token) key) packet 0
      ≡ some (
        if length routed == 0 then failed (token_router (no_endpoint_match token)) else passed,
        record packet {
          destinations = routed;
          contents = body;
          metadata =
              Maps.insert key
                (Value.bytes token)
                (Maps.insert (key ++ present_suffix) (Value.bool true) []);
        },
        0,
      ))
chain_read-route_by_token_example =
    chain_read-route_by_token (λ t. length t) key body token cluster (host 8) 0

capture-concatenate_example :
    capture_read
      (new_capture (suffix true (length token)) key)
      (concatenate_read
        (record { on_read = append; on_write = do_nothing; bytes = token })
        packet).1
    ≡ some (
      passed,
      record packet {
        metadata =
            Maps.insert key
              (Value.bytes token)
              (Maps.insert (key ++ present_suffix) (Value.bool true) packet.metadata);
      },
    )
capture-concatenate_example = capture-concatenate do_nothing key token packet

-- A network of 24 bits, by its number.
abbrev nets : Networks
nets = record {
  V4Network = ℕ;
  V6Network = ℕ;
  v4_contains = λ n a. if ltb a n then false else ltb a (n + 256);
  v6_contains = λ n a. n == a;
}

abbrev firewall : Firewall nets
firewall = record {
  on_read =
      record {
        action = deny;
        sources = v4_cidr 512 ∷ [];
        ports = record { start = 1; end = 9 } ∷ [];
      }
      ∷ record {
        action = allow;
        sources = v4_cidr 0 ∷ [];
        ports = record { start = 7000; end = 7001 } ∷ [];
      }
      ∷ [];
  on_write = [];
}

abbrev source : SocketAddr
source = record { ip = v4 8; port = 7000 }

source_resolves : to_socket_addr (λ n. none) packet.source ≡ some source
unfolding to_socket_addr new_read_context
source_resolves = refl

firewall_read_iff_example :
    (firewall_read nets (λ n. none) firewall packet ≡ passed) ↔ Allowed nets firewall.on_read source
firewall_read_iff_example =
    firewall_read_iff nets (λ n. none) firewall packet source source_resolves

lets_through : firewall_read nets (λ n. none) firewall packet ≡ passed
unfolding firewall_read check_rules rule_contains cidr_contains to_socket_addr new_read_context
lets_through = refl

-- The highest port makes no range.
highest_port : range_of_port 65535 ≡ none
unfolding range_of_port
highest_port = refl

some_endpoints : 0 < total packet.endpoints.map
unfolding new_read_context insert apply apply_managed insert_new empty new update from_set
    collect_endpoints insert_all Maps.insert Maps.get address_ord
some_endpoints = omega arith

few_endpoints : total packet.endpoints.map < u64_mod
unfolding new_read_context insert apply apply_managed insert_new empty new update from_set
    collect_endpoints insert_all Maps.insert Maps.get address_ord
few_endpoints = omega arith

round_robin-lists_example :
    (ep : Endpoint ℕ) × (get_elem? (endpoints packet.endpoints.map) (5 % total packet.endpoints.map)
      ≡ some ep)
    × ((round_robin packet 5).0
        ≡ some (record packet { destinations = packet.destinations ++ ep.address ∷ [] }))
unfolding new_read_context
round_robin-lists_example =
    round_robin-lists small_env packet 5 cluster-Inv some_endpoints few_endpoints
