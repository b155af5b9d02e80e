-- ===== src/Net/Sessions/Grants.antt =====
-- `SessionPool::get` of src/net/sessions.rs: each of its branches is a good step.
use quilkin.Common.{ℕ, ◌≡◌, sym, refl, inl, inr, Option-cases, Bool-cases, Option, some, leb, arith}
use quilkin.Common.Order.{ℕ_ord, same→eq}
use quilkin.Common.Maps
use quilkin.Common.Maps.{Map, get-insert, get-insert_self, insert_twice}
use quilkin.Common.Maps.Sorted.{insert-IsSorted}
use quilkin.Net.Address.{IpAddr, socket_ord}
use quilkin.Collections.Ttl
use quilkin.Collections.Ttl.{Expiring, update_expiration}
use quilkin.Net.Sessions.{SessionKey, Session, PipelineError, session_key_ord, reservation_ord}
use quilkin.Net.Sessions.Pool.{Opened, ok, SessionPool, get}
use quilkin.Net.Sessions.Storage.{Backed-ext}
use quilkin.Net.Sessions.Invariant.{port_of, Inv, IsFresh, keeps, Good, update-value}
use quilkin.Net.Sessions.Branches.{refuses-Good, get_unreserved-Good, get_reserved-Good}

module _ {Q A : Type 0} (lookup : IpAddr → Option A) (clock : Option ℕ) (key : SessionKey) where
  -- A live session's time begins anew; all else stays.
  refresh-Good :
      (pool : SessionPool Q A) (s : Expiring (Session Q A))
      → Inv pool
      → Maps.get key pool.session_map.inner ≡ some s
      → Good key pool (
        ok (s.value.asn_info, s.value.pending_sends),
        record pool { session_map = (Ttl.get clock key pool.session_map).1 },
      )
  unfolding Ttl.get
  refresh-Good pool s i e =
      let s' = update_expiration clock pool.session_map.ttl s in
      let m' = Maps.insert key s' pool.session_map.inner in
      let pool' : SessionPool Q A = record pool {
        session_map = record pool.session_map { inner = m' };
      } in
      let same_ports : (k : SessionKey) → port_of pool' k ≡ port_of pool k = λ k. ground (
        arith,
        get-insert k key s' pool.session_map.inner,
        update-value clock pool.session_map.ttl s,
        e,
        same→eq k key,
      ) in
      rw (e, Ttl.get)
        (record {
          inv = record {
            storage =
                Backed-ext (port_of pool) (port_of pool') pool.storage (λ k. sym (same_ports k))
                  i.storage;
            keyed = λ k t f. ground (
              arith,
              get-insert k key s' pool.session_map.inner,
              update-value clock pool.session_map.ttl s,
              f,
              i.keyed k t,
              i.keyed key s e,
              same→eq k key,
            );
            sorted = insert-IsSorted key s' pool.session_map.inner i.sorted;
            queued = λ k t f. ground (
              arith,
              get-insert k key s' pool.session_map.inner,
              update-value clock pool.session_map.ttl s,
              f,
              i.queued k t,
              i.queued key s e,
            );
          };
          step = keeps same_ports;
          answer = (
            s',
            get-insert_self key s' pool.session_map.inner,
            ground (arith, update-value clock pool.session_map.ttl s),
            ground (arith, update-value clock pool.session_map.ttl s),
          );
        })

  -- `get` keeps the invariant, whatever the operating system answers, as long as the port of a new
  -- socket is not one that the pool has open.
  pub get-Good :
      (os : Opened Q) (pool : SessionPool Q A)
      → Inv pool
      → IsFresh os pool
      → Good key pool (get lookup clock os key pool)
  unfolding get
  get-Good os pool i f = elim (Option-cases (Maps.get key pool.session_map.inner)) [
    | inr (s, e) ↦ rw (e, get) (refresh-Good pool s i e)
    | inl absent ↦ elim (Bool-cases (leb pool.max_sessions (Ttl.len pool.session_map))) [
      | inl full ↦
          rw (absent, get)
            (rw (full, get)
              (refuses-Good lookup clock key pool PipelineError.session_limit i (inl refl)))
      | inr free ↦ elim (Option-cases (Maps.get key.dest pool.storage.destination_to_sockets)) [
        | inl e ↦
            rw (absent, get)
              (rw (free, get)
                (rw (e, get) (get_unreserved-Good lookup clock key os pool i f absent e)))
        | inr (set, e) ↦
            rw (absent, get)
              (rw (free, get)
                (rw (e, get) (get_reserved-Good lookup clock key os pool set i f absent e)))
      ]
    ]
  ]
