-- ===== src/Net/Sessions.antt =====
-- Sessions between clients and servers (src/net/sessions.rs), and the sockets that they share
-- (`SocketStorage`). A socket is known by its port; the queue to its sender is a value of `Q`, and
-- what the address database knows of a source a value of `A`. Locks, metrics and traces are left out:
-- an operation takes the state and returns it.
pub mod Pool
pub mod Storage
pub mod Invariant
pub mod Branches
pub mod Grants
pub mod Ends
pub mod Traffic
pub mod Runs
pub mod Limit
pub mod Replies
use quilkin.Common.{
  ℕ, ◌≡◌, Bool, true, false, Option, none, some, List, [], ◌∷◌, if◌then◌else◌, is_some, arith,
}
use quilkin.Common.Order.{Ord, ℕ_ord}
use quilkin.Common.Order.Derive.{pair_ord, ord_by}
use quilkin.Common.Maps
use quilkin.Common.Maps.{Map}
use quilkin.Common.Sets
use quilkin.Common.Sets.{Set}
use quilkin.Net.Address.{IpAddr, SocketAddr, ip_ord, socket_ord}
use quilkin.Filters.{FilterError}

pub data SessionError : Type 0 where
  socket_address_unavailable missing_allocated_socket missing_destination_socket : SessionError

pub data PipelineError : Type 0 where
  no_upstream_endpoints : PipelineError
  filter : FilterError → PipelineError
  session : SessionError → PipelineError
  io : PipelineError
  disallowed_source_ip : IpAddr → PipelineError
  session_limit : PipelineError

pub record SessionKey : Type 0 where
  pub source : SocketAddr
  pub dest : SocketAddr

session_key : SessionKey → SocketAddr × SocketAddr
session_key k = (k.source, k.dest)

session_key_injective : (x y : SessionKey) → session_key x ≡ session_key y → x ≡ y
unfolding session_key
session_key_injective x y h = ground arith

instance unfoldable pub session_key_ord : Ord SessionKey
unfolding ord_by pair_ord socket_ord session_key session_key_injective
session_key_ord = ord_by (pair_ord socket_ord socket_ord) session_key session_key_injective

-- A server and the port of the socket that talks to it.
instance unfoldable pub reservation_ord : Ord (SocketAddr × ℕ)
unfolding pair_ord socket_ord
reservation_ord = pair_ord socket_ord ℕ_ord

pub record Session (Q A : Type 0) : Type 0 where
  pub key : SessionKey
  pub socket_port : ℕ
  pub pending_sends : Q
  pub asn_info : Option A

pub record SocketStorage (A : Type 0) : Type 0 where
  pub destination_to_sockets : Map SocketAddr (Set ℕ)
  pub destination_to_sources : Map (SocketAddr × ℕ) SocketAddr
  pub sources_to_asn_info : Map SocketAddr A
  pub sockets_to_destination : Map ℕ (Set SocketAddr)

abbrev pub is_empty : {K V : Type 0} → Map K V → Bool
is_empty [] = true
is_empty (e ∷ m) = false

-- `entry(k).or_default()`.
abbrev pub or_default : {V : Type 0} → Option (Set V) → Set V
or_default none = []
or_default (some s) = s

module _ {K V : Type 0} ⦃o : Ord K⦄ ⦃p : Ord V⦄ where
  -- Adds a value to the set of a key, which may be new.
  unfoldable pub add_to : K → V → Map K (Set V) → Map K (Set V)
  add_to k v m = Maps.insert k (Sets.insert v (or_default (Maps.get k m))) m

  -- Removes a value from the set of a key, and the set when that leaves it empty.
  unfoldable pub remove_from : K → V → Set V → Map K (Set V) → Map K (Set V)
  remove_from k v s m =
      if is_empty (Sets.remove v s) then Maps.remove k m else Maps.insert k (Sets.remove v s) m

module _ {A : Type 0} where
  -- The writes to the storage when a socket is reserved for a session.
  unfoldable pub reserve : SessionKey → ℕ → Option A → SocketStorage A → SocketStorage A
  unfolding add_to
  reserve key socket_port asn_info s = record s {
    destination_to_sockets = add_to key.dest socket_port s.destination_to_sockets;
    sockets_to_destination = add_to socket_port key.dest s.sockets_to_destination;
    destination_to_sources =
        Maps.insert (key.dest, socket_port) key.source s.destination_to_sources;
    sources_to_asn_info = elim asn_info [
      | none ↦ s.sources_to_asn_info
      | some asn ↦ Maps.insert key.source asn s.sources_to_asn_info
    ];
  }

  -- With no set for the destination, or none for the port, the rest is left as it is.
  unfoldable pub release_socket : SessionKey → ℕ → SocketStorage A → SocketStorage A
  unfolding remove_from
  release_socket key port s = elim (Maps.get key.dest s.destination_to_sockets) [
    | none ↦ s
    | some socket_set ↦
        let s' : SocketStorage A = record s {
          destination_to_sockets = remove_from key.dest port socket_set s.destination_to_sockets;
        } in
        elim (Maps.get port s.sockets_to_destination) [
          | none ↦ s'
          | some dest_set ↦ record s' {
            sockets_to_destination = remove_from port key.dest dest_set s.sockets_to_destination;
            sources_to_asn_info = Maps.remove key.source s.sources_to_asn_info;
            destination_to_sources = Maps.remove (key.dest, port) s.destination_to_sources;
          }
        ]
  ]
