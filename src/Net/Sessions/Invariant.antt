-- ===== src/Net/Sessions/Invariant.antt =====
-- What holds of a pool of sessions between its operations (src/net/sessions.rs).
use quilkin.Common.{ℕ, ◌≡◌, ◌≢◌, ◌⊎◌, sym, refl, false, Option, none, some, arith}
use quilkin.Common.Order.{ℕ_ord, same→eq}
use quilkin.Common.Maps
use quilkin.Common.Maps.{Map, get-insert, get-remove, get-insert_self, insert_twice}
use quilkin.Common.Maps.Sorted.{IsSorted, insert-IsSorted}
use quilkin.Net.Address.{IpAddr, SocketAddr, socket_ord}
use quilkin.Collections.Ttl
use quilkin.Collections.Ttl.{TtlMap, Expiring, prune_entries, new_value, update_expiration}
use quilkin.Net.Sessions.{
  SessionKey, Session, PipelineError, io, session_limit, socket_address_unavailable,
  session_key_ord, reserve,
}
use quilkin.Net.Sessions.Pool.{
  Opened, Found, ok, err, SessionPool, create_session_from_existing_socket,
}
use quilkin.Net.Sessions.Storage.{holds, Table, Backed, put, Backed-ext, reserve-Backed}

module _ {Q A : Type 0} where
  abbrev pub port_in : Option (Expiring (Session Q A)) → Option ℕ
  port_in none = none
  port_in (some s) = some s.value.socket_port

  -- The port of each live session.
  abbrev pub port_of : SessionPool Q A → Table
  port_of pool key = port_in (Maps.get key pool.session_map.inner)

  -- The storage is that of the live sessions, which stand in order under their own keys,
  -- each with the queue of the open socket on its port.
  pub record Inv (pool : SessionPool Q A) : Type 0 where
    pub storage : Backed (port_of pool) pool.storage
    pub keyed :
        (key : SessionKey) (s : Expiring (Session Q A))
        → Maps.get key pool.session_map.inner ≡ some s
        → s.value.key ≡ key
    pub sorted : IsSorted pool.session_map.inner
    pub queued :
        (key : SessionKey) (s : Expiring (Session Q A))
        → Maps.get key pool.session_map.inner ≡ some s
        → Maps.get s.value.socket_port pool.ports_to_sockets ≡ some s.value.pending_sends

  -- A new socket's port is not that of a socket that is open.
  abbrev pub IsFresh : Opened Q → SessionPool Q A → Type 0
  IsFresh (Opened.opened port q) pool = Maps.get port pool.ports_to_sockets ≡ none
  IsFresh _ pool = Unit

-- What `get` does to the table of the sessions' ports: it keeps the table, or opens a session with a
-- port that no session with the same server has.
pub data Step (t u : Table) : Type 0 where
  keeps : ((k : SessionKey) → u k ≡ t k) → Step t u
  opens :
      (key : SessionKey) (port : ℕ)
      → t key ≡ none
      → ((source : SocketAddr) → t (record { source = source; dest = key.dest }) ≢ some port)
      → ((k : SessionKey) → u k ≡ put key (some port) t k)
      → Step t u

-- What `get` may refuse with: it never finds its own sockets missing.
abbrev pub IsRefusal : PipelineError → Type 0
IsRefusal e =
    (e ≡ session_limit) ⊎ (e ≡ io) ⊎ (e ≡ PipelineError.session socket_address_unavailable)

-- An answer of `get` is what the live session of the key has; a refusal leaves the pool as it was.
abbrev pub IsAnswer : {Q A : Type 0} → SessionKey → SessionPool Q A → Found Q A → Type 0
IsAnswer {Q} {A} key pool (ok (asn, q), pool') =
    (s : Expiring (Session Q A)) × (Maps.get key pool'.session_map.inner ≡ some s)
    × (s.value.pending_sends ≡ q)
    × (s.value.asn_info ≡ asn)
IsAnswer {Q} {A} key pool (err e, pool') = (pool' ≡ pool) × IsRefusal e

-- The pool keeps the invariant, its table is a step away, and the answer is that of a live session.
pub record Good {Q A : Type 0} (key : SessionKey) (pool : SessionPool Q A) (found : Found Q A)
    : Type 0 where
  pub inv : Inv found.1
  pub step : Step (port_of pool) (port_of found.1)
  pub answer : IsAnswer key pool found

pub update-value :
    {V : Type 0} (clock : Option ℕ) (ttl : ℕ) (v : Expiring V)
    → (update_expiration clock ttl v).value ≡ v.value
unfolding update_expiration
update-value none ttl v = refl
update-value (some now) ttl v = refl

module _ {Q A : Type 0} (lookup : IpAddr → Option A) (clock : Option ℕ) (key : SessionKey) (q : Q)
    (port : ℕ) (pool : SessionPool Q A) where
  abbrev session : Session Q A
  session = record {
    key = key;
    socket_port = port;
    pending_sends = q;
    asn_info = lookup key.source.ip;
  }

  abbrev with_session : SessionPool Q A
  with_session = record pool {
    storage = reserve key port (lookup key.source.ip) pool.storage;
    session_map = (Ttl.insert clock key session pool.session_map).1;
  }

  pub create-eq :
      Maps.get key pool.session_map.inner ≡ none
      → create_session_from_existing_socket lookup clock key q port pool
        ≡ (ok (lookup key.source.ip, q), with_session)
  unfolding create_session_from_existing_socket Ttl.insert
  create-eq absent = ground (arith, absent)

  port_of-with_session :
      (other : SessionKey) → port_of with_session other ≡ put key (some port) (port_of pool) other
  unfolding Ttl.insert new_value update_expiration
  port_of-with_session other = ground (
    arith,
    get-insert other key (new_value clock pool.session_map.ttl session) pool.session_map.inner,
  )

  -- A session on an open socket that its server does not have yet.
  with_session-Inv :
      Inv pool
      → Maps.get key pool.session_map.inner ≡ none
      → holds key.dest port pool.storage.destination_to_sockets ≡ false
      → Maps.get port pool.ports_to_sockets ≡ some q
      → Inv with_session
  unfolding Ttl.insert new_value update_expiration reserve
  with_session-Inv i absent fresh opened = record {
    storage =
        Backed-ext (put key (some port) (port_of pool)) (port_of with_session) with_session.storage
          (λ k. sym (port_of-with_session k))
          (reserve-Backed (port_of pool) pool.storage key port i.storage (lookup key.source.ip)
            (rw absent refl) fresh);
    keyed = λ k s e. ground (
      arith,
      get-insert k key (new_value clock pool.session_map.ttl session) pool.session_map.inner,
      e,
      i.keyed k s,
      same→eq k key,
    );
    sorted =
        insert-IsSorted key (new_value clock pool.session_map.ttl session) pool.session_map.inner
          i.sorted;
    queued = λ k s e. ground (
      arith,
      get-insert k key (new_value clock pool.session_map.ttl session) pool.session_map.inner,
      e,
      i.queued k s,
      opened,
    );
  }

  -- Its creation is a good step.
  pub create-Good :
      Inv pool
      → Maps.get key pool.session_map.inner ≡ none
      → holds key.dest port pool.storage.destination_to_sockets ≡ false
      → Maps.get port pool.ports_to_sockets ≡ some q
      → Good key pool (create_session_from_existing_socket lookup clock key q port pool)
  unfolding Ttl.insert new_value update_expiration
  create-Good i absent fresh opened =
      let v : Expiring (Session Q A) = record { value = session; expires_at = 0 } in
      let value_kept : ((new_value clock pool.session_map.ttl session).value.pending_sends ≡ q)
          × ((new_value clock pool.session_map.ttl session).value.asn_info ≡ lookup key.source.ip) =
        ground (arith, update-value clock pool.session_map.ttl v) in
      rw (create-eq absent) (record {
        inv = with_session-Inv i absent fresh opened;
        step =
            opens key port (rw absent refl)
              (λ source e. ground (
                arith,
                i.storage.owns (record { source = source; dest = key.dest }) port e,
                i.storage.sourced key.dest port,
                fresh,
              ))
              port_of-with_session;
        answer = (
          new_value clock pool.session_map.ttl session,
          get-insert_self key (new_value clock pool.session_map.ttl session) pool.session_map.inner,
          value_kept.0,
          value_kept.1,
        );
      })
