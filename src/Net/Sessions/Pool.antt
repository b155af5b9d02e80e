-- ===== src/Net/Sessions/Pool.antt =====
-- `SessionPool` of src/net/sessions.rs: which socket a session gets, and when a session ends. Maps
-- are read in the order of their keys. What the operating system answers to a request for a socket is
-- an argument, and so are the clock and the address database.
use quilkin.Common.{ℕ, not, Option, none, some, List, [], ◌∷◌, if◌then◌else◌, leb, keep, ltb}
use quilkin.Common.Order.{ℕ_ord}
use quilkin.Common.Maps
use quilkin.Common.Maps.{Map}
use quilkin.Common.Sets
use quilkin.Common.Sets.{Set}
use quilkin.Net.Address.{IpAddr, socket_ord}
use quilkin.Collections.Ttl
use quilkin.Collections.Ttl.{TtlMap, Expiring, prune_entries}
use quilkin.Net.Sessions.{
  SessionError, PipelineError, SessionKey, Session, SocketStorage, session_key_ord, is_empty,
  reserve, release_socket,
}

-- A request for a new socket: it fails, it has no socket address, or it has a port and a queue.
pub data Opened (Q : Type 0) : Type 0 where
  io_failed no_address : Opened Q
  opened : ℕ → Q → Opened Q

pub data Outcome (T : Type 0) : Type 0 where
  ok : T → Outcome T
  err : PipelineError → Outcome T

pub record SessionPool (Q A : Type 0) : Type 0 where
  pub ports_to_sockets : Map ℕ Q
  pub storage : SocketStorage A
  pub session_map : TtlMap SessionKey (Session Q A)
  pub downstream_sends : List Q
  pub downstream_index : ℕ
  pub max_sessions : ℕ

abbrev session_timeout_seconds : ℕ
session_timeout_seconds = 60

-- The first open socket whose port is not in the set.
unfoldable pub find_socket : {Q : Type 0} → Set ℕ → Map ℕ Q → Option (ℕ × Q)
find_socket socket_set [] = none
find_socket socket_set ((port, socket) ∷ rest) =
    if Sets.contains port socket_set then find_socket socket_set rest else some (port, socket)

-- What `get` answers, and the pool that it leaves.
abbrev pub Found : Type 0 → Type 0 → Type 0
Found Q A = Outcome (Option A × Q) × SessionPool Q A

module _ {Q A : Type 0} where
  unfoldable pub new : List Q → ℕ → SessionPool Q A
  new downstream_sends max_sessions = record {
    ports_to_sockets = [];
    storage = record {
      destination_to_sockets = [];
      destination_to_sources = [];
      sources_to_asn_info = [];
      sockets_to_destination = [];
    };
    session_map = record { inner = []; ttl = session_timeout_seconds };
    downstream_sends = downstream_sends;
    downstream_index = 0;
    max_sessions = max_sessions;
  }

  -- `Drop for Session`.
  unfoldable pub release : Session Q A → SessionPool Q A → SessionPool Q A
  release s pool = record pool { storage = release_socket s.key s.socket_port pool.storage }

  -- Drops the sessions in the order of their keys.
  unfoldable pub release_all :
      Map SessionKey (Expiring (Session Q A)) → SessionPool Q A → SessionPool Q A
  release_all [] pool = pool
  release_all ((key, s) ∷ rest) pool = release_all rest (release s.value pool)

  -- The expired entries leave the map, and are dropped.
  unfoldable pub prune : Option ℕ → SessionPool Q A → SessionPool Q A
  prune none pool = pool
  prune (some now) pool =
      release_all (keep (λ e. not (ltb now e.1.expires_at)) pool.session_map.inner)
        (record pool { session_map = prune_entries (some now) pool.session_map })

  module _ (lookup : IpAddr → Option A) (clock : Option ℕ) where
    -- A session that the new one takes the place of is dropped.
    unfoldable pub create_session_from_existing_socket :
        SessionKey → Q → ℕ → SessionPool Q A → Found Q A
    unfolding release
    create_session_from_existing_socket key pending_sends socket_port pool =
        let asn_info = lookup key.source.ip in
        let session : Session Q A = record {
          key = key;
          socket_port = socket_port;
          pending_sends = pending_sends;
          asn_info = asn_info;
        } in
        let pool' : SessionPool Q A = record pool {
          storage = reserve key socket_port asn_info pool.storage;
          session_map = (Ttl.insert clock key session pool.session_map).1;
        } in
        elim (Ttl.insert clock key session pool.session_map).0 [
          | none ↦ (ok (asn_info, pending_sends), pool')
          | some replaced ↦ (ok (asn_info, pending_sends), release replaced pool')
        ]

    unfoldable pub create_new_session_from_new_socket :
        Opened Q → SessionKey → SessionPool Q A → Found Q A
    create_new_session_from_new_socket io_failed key pool = (err PipelineError.io, pool)
    create_new_session_from_new_socket no_address key pool =
        (err (PipelineError.session SessionError.socket_address_unavailable), pool)
    create_new_session_from_new_socket (opened port pending_sends) key pool =
        create_session_from_existing_socket key pending_sends port
          (record pool { ports_to_sockets = Maps.insert port pending_sends pool.ports_to_sockets })

    -- `get` for a destination that has no socket.
    unfoldable pub get_unreserved : Opened Q → SessionKey → SessionPool Q A → Found Q A
    get_unreserved os key pool =
        if is_empty pool.ports_to_sockets
        then create_new_session_from_new_socket os key pool
        else elim pool.ports_to_sockets [
          | [] ↦ (err (PipelineError.session SessionError.missing_allocated_socket), pool)
          | (port, sender) ∷ rest ↦ create_session_from_existing_socket key sender port pool
        ]

    -- `get` for a destination with a set of sockets that are to be avoided.
    unfoldable pub get_reserved : Opened Q → SessionKey → Set ℕ → SessionPool Q A → Found Q A
    unfolding find_socket
    get_reserved os key socket_set pool = elim (find_socket socket_set pool.ports_to_sockets) [
      | none ↦ create_new_session_from_new_socket os key pool
      | some (port, socket) ↦ elim (Maps.get key.dest pool.storage.destination_to_sockets) [
        | none ↦ (err (PipelineError.session SessionError.missing_destination_socket), pool)
        | some now_set ↦ create_session_from_existing_socket key socket port (record pool {
          storage = record pool.storage {
            destination_to_sockets =
                Maps.insert key.dest (Sets.insert port now_set) pool.storage.destination_to_sockets;
          };
        })
      ]
    ]

    unfoldable pub get : Opened Q → SessionKey → SessionPool Q A → Found Q A
    get os key pool = elim (Maps.get key pool.session_map.inner) [
      | some entry ↦ (
        ok (entry.value.asn_info, entry.value.pending_sends),
        record pool { session_map = (Ttl.get clock key pool.session_map).1 },
      )
      | none ↦
          if leb pool.max_sessions (Ttl.len pool.session_map)
          then (err PipelineError.session_limit, pool)
          else elim (Maps.get key.dest pool.storage.destination_to_sockets) [
            | none ↦ get_unreserved os key pool
            | some socket_set ↦ get_reserved os key socket_set pool
          ]
    ]
