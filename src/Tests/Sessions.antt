-- ===== src/Tests/Sessions.antt =====
-- Sessions and their packets at concrete inputs.
use quilkin.Common.{ℕ, ◌≡◌, ◌≢◌, ◌↔◌, ◌%◌, ◌≤◌, refl, Option, none, some, [], ◌∷◌, length, arith}
use quilkin.Common.Order.{ℕ_ord}
use quilkin.Common.Order.Derive.{ord_by, pair_ord, sum_ord}
use quilkin.Common.Maps
use quilkin.Common.Maps.{Map}
use quilkin.Collections.Ttl
use quilkin.Net.Address.{IpAddr, v4, SocketAddr, ip_ord, socket_ord, to_canonical}
use quilkin.Filters.{WriteContext, passed}
use quilkin.Filters.Chain.{chain_write, write_all}
use quilkin.Net.Sessions.{
  session_limit, SessionKey, session_key_ord, reservation_ord, add_to, remove_from, reserve,
  release_socket,
}
use quilkin.Net.Sessions.Pool.{
  Opened, ok, err, SessionPool, new, get, prune, find_socket, get_unreserved, get_reserved,
  create_new_session_from_new_socket, create_session_from_existing_socket, release,
}
use quilkin.Net.Sessions.Invariant.{port_of, Inv, IsFresh, Good}
use quilkin.Net.Sessions.Grants.{get-Good}
use quilkin.Collections.Ttl.Expiry.{unexpired}
use quilkin.Net.Sessions.Ends.{prune-Inv}
use quilkin.Net.Sessions.Runs.{Reachable, starts, gets, new-Inv}
use quilkin.Net.Sessions.Limit.{get-session_limit, Limited, Reachable-IsSorted, Reachable-Limited}
use quilkin.Net.Sessions.Traffic.{
  SendPacket, no_downstream, forwarded, to_endpoint_address, new_write_context, send_inner,
  process_received_upstream_packet,
}
use quilkin.Net.Sessions.Replies.{received-no_downstream, send_inner-reply}

abbrev client : ℕ → SocketAddr
client n = record { ip = v4 n; port = 9000 }

abbrev game : ℕ → SocketAddr
game n = record { ip = v4 n; port = 7000 }

abbrev known : IpAddr → Option ℕ
known ip = some 64500

abbrev first_key : SessionKey
first_key = record { source = client 1; dest = game 8 }

abbrev second_key : SessionKey
second_key = record { source = client 1; dest = game 9 }

abbrev third_key : SessionKey
third_key = record { source = client 2; dest = game 8 }

abbrev fresh_pool : SessionPool ℕ ℕ
fresh_pool = new (70 ∷ 71 ∷ []) 2

abbrev one : SessionPool ℕ ℕ
one = (get known (some 10) (Opened.opened 5000 50) first_key fresh_pool).1

abbrev two : SessionPool ℕ ℕ
two = (get known (some 20) (Opened.opened 5001 51) second_key one).1

no_ports : IsFresh (Opened.opened 5000 50) fresh_pool
unfolding new Maps.get
no_ports = refl

abbrev answer_of : SessionPool ℕ ℕ → Option ℕ
answer_of pool = port_of pool second_key

-- The second session shares the socket of the first, which has another server.
second_shares : answer_of two ≡ some 5000
unfolding get get_unreserved get_reserved create_new_session_from_new_socket
    create_session_from_existing_socket new reserve add_to find_socket release release_socket
    remove_from Maps.get Maps.insert Ttl.insert Ttl.new_value Ttl.update_expiration session_key_ord
    reservation_ord socket_ord ip_ord ord_by pair_ord sum_ord
second_shares = refl

one-Reachable : Reachable known (70 ∷ 71 ∷ []) 2 one
one-Reachable =
    gets (some 10) (Opened.opened 5000 50) first_key fresh_pool one (starts fresh_pool refl) refl

one-Inv : Inv one
one-Inv =
    (get-Good known (some 10) first_key (Opened.opened 5000 50) fresh_pool
      (new-Inv (70 ∷ 71 ∷ []) 2) no_ports).inv

one-IsFresh : IsFresh (Opened.opened 5001 51) one
unfolding get get_unreserved get_reserved create_new_session_from_new_socket
    create_session_from_existing_socket new reserve add_to find_socket release release_socket
    remove_from Maps.get Maps.insert Ttl.insert Ttl.new_value Ttl.update_expiration session_key_ord
    reservation_ord socket_ord ip_ord ord_by pair_ord sum_ord
one-IsFresh = refl

two-Reachable : Reachable known (70 ∷ 71 ∷ []) 2 two
two-Reachable = gets (some 20) (Opened.opened 5001 51) second_key one two one-Reachable refl

Reachable-Limited_example : Limited 2 two
Reachable-Limited_example = Reachable-Limited known (70 ∷ 71 ∷ []) 2 two two-Reachable

two-Inv : Inv two
two-Inv = (get-Good known (some 20) second_key (Opened.opened 5001 51) one one-Inv one-IsFresh).inv

get-Good_example : Good third_key one (get known (some 30) (Opened.opened 5001 51) third_key one)
get-Good_example =
    get-Good known (some 30) third_key (Opened.opened 5001 51) one one-Inv one-IsFresh

get-session_limit_example :
    ((get known (some 30) (Opened.opened 5001 51) third_key two).0 ≡ err session_limit)
    ↔ ((port_of two third_key ≡ none) × (two.max_sessions ≤ length two.session_map.inner))
get-session_limit_example =
    get-session_limit known (some 30) third_key (Opened.opened 5001 51) two
      (Reachable-IsSorted known (70 ∷ 71 ∷ []) 2 two two-Reachable)

-- At time 75 the first session is over, and the second is not.
prune-Inv_example :
    (let pool' = prune (some 75) two in
      ((key : SessionKey)
        → Maps.get key pool'.session_map.inner ≡ unexpired 75 (Maps.get key two.session_map.inner))
      × Inv pool')
prune-Inv_example = prune-Inv 75 two two-Inv

received-no_downstream_example :
    ((process_received_upstream_packet {U = ℕ} {R = ℕ} {S = ℕ} [] (1 ∷ []) (game 7) 5000 0 one).0
      ≡ no_downstream)
    ↔ ((source : SocketAddr)
        → port_of one
            (record { source = source; dest = record (game 7) { ip = to_canonical (v4 7) } })
          ≢ some 5000)
received-no_downstream_example = received-no_downstream [] one one-Inv (game 7) 5000 (1 ∷ []) 0

-- A packet to the server of the third session, and the answer to it.
abbrev answered : WriteContext
answered =
    new_write_context (to_endpoint_address (game 8)) (to_endpoint_address (client 2)) (3 ∷ [])

abbrev three : SessionPool ℕ ℕ
three = (send_inner known (some 30) (Opened.opened 5001 51) third_key (1 ∷ 2 ∷ []) one).1

abbrev packet : SendPacket ℕ
packet = record { destination = game 8; contents = 1 ∷ 2 ∷ []; asn_info = some 64500 }

three_sent :
    send_inner known (some 30) (Opened.opened 5001 51) third_key (1 ∷ 2 ∷ []) one
    ≡ (ok (51, packet), three)
unfolding get get_unreserved get_reserved create_new_session_from_new_socket
    create_session_from_existing_socket new reserve add_to find_socket release release_socket
    remove_from Maps.get Maps.insert Ttl.insert Ttl.new_value Ttl.update_expiration session_key_ord
    reservation_ord socket_ord ip_ord ord_by pair_ord sum_ord send_inner
three_sent = refl

three_queues : length three.downstream_sends ≢ 0
unfolding get get_unreserved get_reserved create_new_session_from_new_socket
    create_session_from_existing_socket new reserve add_to find_socket release release_socket
    remove_from Maps.get Maps.insert Ttl.insert Ttl.new_value Ttl.update_expiration session_key_ord
    reservation_ord socket_ord ip_ord ord_by pair_ord sum_ord send_inner
three_queues = omega arith

no_filters : chain_write {U = ℕ} {R = ℕ} {S = ℕ} [] answered 0 ≡ some (passed, answered, 0)
unfolding chain_write write_all
no_filters = refl

same_address : to_canonical (v4 8) ≡ v4 8
unfolding to_canonical
same_address = refl

send_inner-reply_example :
    (packet.destination ≡ game 8)
    × (packet.contents ≡ 1 ∷ 2 ∷ [])
    × ((port : ℕ) × (Maps.get port three.ports_to_sockets ≡ some 51)
        × ((process_received_upstream_packet {U = ℕ} {R = ℕ} {S = ℕ} []
              (3 ∷ [])
              (game 8)
              port
              0
              three).0
            ≡ forwarded (three.downstream_index % length three.downstream_sends) (record {
              destination = client 2;
              contents = answered.contents;
              asn_info = Maps.get (client 2) three.storage.sources_to_asn_info;
            })))
send_inner-reply_example =
    send_inner-reply [] known (some 30) (Opened.opened 5001 51) third_key (1 ∷ 2 ∷ []) (3 ∷ []) 51
      packet one three 0 0 answered one-Inv one-IsFresh three_sent same_address no_filters
      three_queues
