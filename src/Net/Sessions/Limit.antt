-- ===== src/Net/Sessions/Limit.antt =====
-- How many sessions a pool has (src/net/sessions.rs), and what is left when there are none.
use quilkin.Common.{
  List-cases, ℕ, ◌≡◌, ◌≢◌, ◌≤◌, ◌↔◌, refl, inl, inr, Option-cases, Bool-cases, true, false, not,
  Option, none, some, List, suc, length, leb, ltb, length-keep-le, keep, arith,
}
use quilkin.Common.Order.{ℕ_ord}
use quilkin.Common.Maps
use quilkin.Common.Maps.{Map}
use quilkin.Common.Maps.Sorted.{IsSorted, insert-IsSorted, keep-IsSorted, length-insert}
use quilkin.Common.Sets.{Set}
use quilkin.Collections.Ttl
use quilkin.Collections.Ttl.{TtlMap, Expiring, prune_entries, update_expiration, new_value}
use quilkin.Collections.Ttl.Expiry.{inner-prune_entries}
use quilkin.Net.Address.{IpAddr, socket_ord}
use quilkin.Net.Sessions.{SessionKey, Session, session_limit, session_key_ord, reservation_ord}
use quilkin.Net.Sessions.Pool.{
  Opened, Found, ok, err, SessionPool, new, release, release_all, prune, get,
  create_session_from_existing_socket, create_new_session_from_new_socket, get_unreserved,
  get_reserved, find_socket,
}
use quilkin.Net.Sessions.Invariant.{port_of}
use quilkin.Net.Sessions.Branches.{unreserved_new, unreserved_first, reserved_new, reserved_found}
use quilkin.Net.Sessions.Ends.{release_all_lem}
use quilkin.Net.Sessions.Runs.{Reachable, starts, gets, prunes}

-- The limit, and no more sessions than it.
abbrev pub Limited : {Q A : Type 0} → ℕ → SessionPool Q A → Type 0
Limited limit pool = (pool.max_sessions ≡ limit) × (length pool.session_map.inner ≤ limit)

module _ {Q A : Type 0} (lookup : IpAddr → Option A) (clock : Option ℕ) (key : SessionKey) where
  -- What the branches of `get` leave below the limit: the limit as it was, at most one session more,
  -- an answer that is not the limit's refusal, and sessions in order.
  abbrev Below : SessionPool Q A → Found Q A → Type 0
  Below pool found =
      (found.1.max_sessions ≡ pool.max_sessions)
      × (length found.1.session_map.inner ≤ suc (length pool.session_map.inner))
      × (found.0 ≢ err session_limit)
      × IsSorted found.1.session_map.inner

  length-inserted :
      (v : Session Q A) (m : TtlMap SessionKey (Session Q A))
      → IsSorted m.inner
      → length (Ttl.insert clock key v m).1.inner ≤ suc (length m.inner)
  unfolding Ttl.insert
  length-inserted v m o = ground (arith, length-insert key (new_value clock m.ttl v) m.inner o)

  inserted-IsSorted :
      (v : Session Q A) (m : TtlMap SessionKey (Session Q A))
      → IsSorted m.inner
      → IsSorted (Ttl.insert clock key v m).1.inner
  unfolding Ttl.insert
  inserted-IsSorted v m o = insert-IsSorted key (new_value clock m.ttl v) m.inner o

  create-Below :
      (q : Q) (port : ℕ) (pool : SessionPool Q A)
      → IsSorted pool.session_map.inner
      → Below pool (create_session_from_existing_socket lookup clock key q port pool)
  unfolding create_session_from_existing_socket release
  create-Below q port pool o =
      let v : Session Q A = record {
        key = key;
        socket_port = port;
        pending_sends = q;
        asn_info = lookup key.source.ip;
      } in
      elim (Option-cases (Ttl.insert clock key v pool.session_map).0) [
        | inl e ↦
            rw (e, create_session_from_existing_socket)
              (
                refl,
                length-inserted v pool.session_map o,
                λ h. cc h,
                inserted-IsSorted v pool.session_map o,
              )
        | inr (old, e) ↦
            rw (e, create_session_from_existing_socket)
              (
                refl,
                length-inserted v pool.session_map o,
                λ h. cc h,
                inserted-IsSorted v pool.session_map o,
              )
      ]

  new_socket-Below :
      (os : Opened Q) (pool : SessionPool Q A)
      → IsSorted pool.session_map.inner
      → Below pool (create_new_session_from_new_socket lookup clock os key pool)
  unfolding create_new_session_from_new_socket
  new_socket-Below Opened.io_failed pool o = (refl, omega arith, λ h. cc h, o)
  new_socket-Below Opened.no_address pool o = (refl, omega arith, λ h. cc h, o)
  new_socket-Below (Opened.opened port q) pool o =
      create-Below q port
        (record pool { ports_to_sockets = Maps.insert port q pool.ports_to_sockets }) o

  unreserved-Below :
      (os : Opened Q) (pool : SessionPool Q A)
      → IsSorted pool.session_map.inner
      → Below pool (get_unreserved lookup clock os key pool)
  unreserved-Below os pool o = elim (List-cases pool.ports_to_sockets) [
    | inl e ↦ rw (unreserved_new lookup clock key os pool e) (new_socket-Below os pool o)
    | inr ((port, q), rest, e) ↦
        rw (unreserved_first lookup clock key os pool port q rest e) (create-Below q port pool o)
  ]

  reserved-Below :
      (os : Opened Q) (pool : SessionPool Q A) (set : Set ℕ)
      → IsSorted pool.session_map.inner
      → Maps.get key pool.session_map.inner ≡ none
      → Maps.get key.dest pool.storage.destination_to_sockets ≡ some set
      → Below pool (get_reserved lookup clock os key set pool)
  reserved-Below os pool set o absent es =
      elim (Option-cases (find_socket set pool.ports_to_sockets)) [
        | inl e ↦ rw (reserved_new lookup clock key os pool set e) (new_socket-Below os pool o)
        | inr ((port, q), e) ↦
            rw (reserved_found lookup clock key os pool set port q absent es e)
              (create-Below q port pool o)
      ]

  free-Below :
      (os : Opened Q) (pool : SessionPool Q A)
      → IsSorted pool.session_map.inner
      → Maps.get key pool.session_map.inner ≡ none
      → leb pool.max_sessions (Ttl.len pool.session_map) ≡ false
      → Below pool (get lookup clock os key pool)
  unfolding get
  free-Below os pool o absent free =
      elim (Option-cases (Maps.get key.dest pool.storage.destination_to_sockets)) [
        | inl e ↦ rw (absent, get) (rw (free, get) (rw (e, get) (unreserved-Below os pool o)))
        | inr (set, e) ↦
            rw (absent, get) (rw (free, get) (rw (e, get) (reserved-Below os pool set o absent e)))
      ]

  full_lem :
      (os : Opened Q) (pool : SessionPool Q A)
      → Maps.get key pool.session_map.inner ≡ none
      → leb pool.max_sessions (Ttl.len pool.session_map) ≡ true
      → get lookup clock os key pool ≡ (err session_limit, pool)
  unfolding get
  full_lem os pool absent full = ground (arith, absent, full)

  live_lem :
      (os : Opened Q) (pool : SessionPool Q A) (s : Expiring (Session Q A))
      → Maps.get key pool.session_map.inner ≡ some s
      → get lookup clock os key pool ≡ (
        ok (s.value.asn_info, s.value.pending_sends),
        record pool { session_map = (Ttl.get clock key pool.session_map).1 },
      )
  unfolding get
  live_lem os pool s e = ground (arith, e)

  length-refreshed :
      (pool : SessionPool Q A) (s : Expiring (Session Q A))
      → IsSorted pool.session_map.inner
      → Maps.get key pool.session_map.inner ≡ some s
      → length (Ttl.get clock key pool.session_map).1.inner ≡ length pool.session_map.inner
  unfolding Ttl.get
  length-refreshed pool s o e = ground (
    arith,
    e,
    length-insert key (update_expiration clock pool.session_map.ttl s) pool.session_map.inner o,
  )

  refreshed-IsSorted :
      (pool : SessionPool Q A) (s : Expiring (Session Q A))
      → IsSorted pool.session_map.inner
      → Maps.get key pool.session_map.inner ≡ some s
      → IsSorted (Ttl.get clock key pool.session_map).1.inner
  unfolding Ttl.get
  refreshed-IsSorted pool s o e =
      rw (e, Ttl.get)
        (insert-IsSorted key (update_expiration clock pool.session_map.ttl s) pool.session_map.inner
          o)

  -- In a pool in order, `get` refuses for the limit exactly when the key has no session and as many
  -- sessions as the limit, or more, are live.
  pub get-session_limit :
      (os : Opened Q) (pool : SessionPool Q A)
      → IsSorted pool.session_map.inner
      → ((get lookup clock os key pool).0 ≡ err session_limit)
        ↔ ((port_of pool key ≡ none) × (pool.max_sessions ≤ length pool.session_map.inner))
  get-session_limit os pool o = elim (Option-cases (Maps.get key pool.session_map.inner)) [
    | inr (s, e) ↦ (
      λ h. absurd (ground (arith, live_lem os pool s e, h)),
      λ h. absurd (ground (arith, e, h.0)),
    )
    | inl e ↦ elim (Bool-cases (leb pool.max_sessions (Ttl.len pool.session_map))) [
      | inl full ↦ (λ h. ground (arith, e, full), λ h. ground (arith, full_lem os pool e full))
      | inr free ↦
          (λ h. absurd ((free-Below os pool o e free).2 h), λ h. absurd (ground (arith, free, h.1)))
    ]
  ]

  get-Limited :
      (limit : ℕ) (os : Opened Q) (pool : SessionPool Q A)
      → IsSorted pool.session_map.inner
      → Limited limit pool
      → Limited limit (get lookup clock os key pool).1
  get-Limited limit os pool o l = elim (Option-cases (Maps.get key pool.session_map.inner)) [
    | inr (s, e) ↦ ground (arith, live_lem os pool s e, length-refreshed pool s o e, l)
    | inl e ↦ elim (Bool-cases (leb pool.max_sessions (Ttl.len pool.session_map))) [
      | inl full ↦ ground (arith, full_lem os pool e full, l)
      | inr free ↦ ground (arith, free-Below os pool o e free, free, l)
    ]
  ]

  get-IsSorted :
      (os : Opened Q) (pool : SessionPool Q A)
      → IsSorted pool.session_map.inner
      → IsSorted (get lookup clock os key pool).1.session_map.inner
  get-IsSorted os pool o = elim (Option-cases (Maps.get key pool.session_map.inner)) [
    | inr (s, e) ↦ rw (live_lem os pool s e) (refreshed-IsSorted pool s o e)
    | inl e ↦ elim (Bool-cases (leb pool.max_sessions (Ttl.len pool.session_map))) [
      | inl full ↦ rw (full_lem os pool e full) o
      | inr free ↦ (free-Below os pool o e free).3
    ]
  ]

module _ {Q A : Type 0} where
  -- Releasing changes neither the sessions nor their limit.
  release_all-kept :
      (es : Map SessionKey (Expiring (Session Q A))) (pool : SessionPool Q A)
      → ((release_all es pool).session_map ≡ pool.session_map)
        × ((release_all es pool).max_sessions ≡ pool.max_sessions)
  release_all-kept es pool = ground (arith, release_all_lem es pool)

  prune-Limited :
      (limit : ℕ) (clock : Option ℕ) (pool : SessionPool Q A)
      → Limited limit pool
      → Limited limit (prune clock pool)
  unfolding prune
  prune-Limited limit none pool l = l
  prune-Limited limit (some now) pool l =
      let left : SessionPool Q A = record pool {
        session_map = prune_entries (some now) pool.session_map;
      } in
      let es = keep (λ e. not (ltb now e.1.expires_at)) pool.session_map.inner in
      ground (
        arith,
        release_all-kept es left,
        inner-prune_entries now pool.session_map,
        length-keep-le (λ e. ltb now e.1.expires_at) pool.session_map.inner,
        l,
      )

  prune-IsSorted :
      (clock : Option ℕ) (pool : SessionPool Q A)
      → IsSorted pool.session_map.inner
      → IsSorted (prune clock pool).session_map.inner
  unfolding prune
  prune-IsSorted none pool o = o
  prune-IsSorted (some now) pool o =
      let left : SessionPool Q A = record pool {
        session_map = prune_entries (some now) pool.session_map;
      } in
      let es = keep (λ e. not (ltb now e.1.expires_at)) pool.session_map.inner in
      rw (release_all-kept es left).0 (
        rw (inner-prune_entries now pool.session_map)
          (keep-IsSorted (λ e. ltb now e.1.expires_at) pool.session_map.inner o))

module _ {Q A : Type 0} (lookup : IpAddr → Option A) (sends : List Q) (limit : ℕ) where
  new-Limited : (pool : SessionPool Q A) → pool ≡ new sends limit → Limited limit pool
  unfolding new
  new-Limited pool e = rw e (refl, omega arith)

  new-IsSorted : (pool : SessionPool Q A) → pool ≡ new sends limit → IsSorted pool.session_map.inner
  unfolding new
  new-IsSorted pool e = rw e tt

  pub Reachable-IsSorted :
      (pool : SessionPool Q A) → Reachable lookup sends limit pool → IsSorted pool.session_map.inner
  Reachable-IsSorted pool (starts _ e) = new-IsSorted pool e
  Reachable-IsSorted pool (gets clock os key before _ r e) =
      rw e (get-IsSorted lookup clock key os before (Reachable-IsSorted before r))
  Reachable-IsSorted pool (prunes clock before _ r e) =
      rw e (prune-IsSorted clock before (Reachable-IsSorted before r))

  -- A pool that comes from a new one by getting and pruning, whatever the operating system answers,
  -- never has more live sessions than its limit.
  pub Reachable-Limited :
      (pool : SessionPool Q A) → Reachable lookup sends limit pool → Limited limit pool
  Reachable-Limited pool (starts _ e) = new-Limited pool e
  Reachable-Limited pool (gets clock os key before _ r e) = rw e (
      get-Limited lookup clock key limit os before (Reachable-IsSorted before r)
        (Reachable-Limited before r))
  Reachable-Limited pool (prunes clock before _ r e) =
      rw e (prune-Limited limit clock before (Reachable-Limited before r))
