-- ===== src/Net/Sessions/Branches.antt =====
-- The branches of `SessionPool::get` of src/net/sessions.rs that open a session.
use quilkin.Common.{
  List-cases, ℕ, ◌≡◌, refl, subst, inl, inr, Option-cases, Bool-cases, false, Option, none, some,
  [], ◌∷◌, arith,
}
use quilkin.Common.Order.{Ord, ℕ_ord, same→eq, same_self}
use quilkin.Common.Maps
use quilkin.Common.Maps.{Map, get-insert, get-insert_self, insert_twice}
use quilkin.Common.Sets
use quilkin.Common.Sets.{Set}
use quilkin.Net.Address.{IpAddr, SocketAddr, socket_ord}
use quilkin.Net.Sessions.{
  SessionKey, PipelineError, SessionError, SocketStorage, session_key_ord, reservation_ord, add_to,
  reserve,
}
use quilkin.Net.Sessions.Pool.{
  Opened, err, SessionPool, find_socket, create_session_from_existing_socket,
  create_new_session_from_new_socket, get_unreserved, get_reserved,
}
use quilkin.Net.Sessions.Storage.{holds}
use quilkin.Net.Sessions.Invariant.{Inv, IsFresh, keeps, Good, IsRefusal, create-Good, create-eq}

find_socket_lem :
    {Q : Type 0} (set : Set ℕ) (port : ℕ) (q : Q) (m : Map ℕ Q)
    → find_socket set m ≡ some (port, q)
    → (Sets.contains port set ≡ false) × (Maps.get port m ≡ some q)
unfolding find_socket Maps.get
find_socket_lem set port q [] e = cc
find_socket_lem set port q ((j, v) ∷ m) e =
    ground (arith, find_socket_lem set port q m, same→eq port j, same_self j)

get-first : {V : Type 0} (k : ℕ) (v : V) (m : Map ℕ V) → Maps.get k ((k, v) ∷ m) ≡ some v
unfolding Maps.get
get-first k v m = ground (arith, same_self k)

none-holds :
    {K V : Type 0} ⦃o : Ord K⦄ ⦃p : Ord V⦄ (k : K) (v : V) (m : Map K (Set V))
    → Maps.get k m ≡ none
    → holds k v m ≡ false
unfolding Maps.get
none-holds k v m e = ground (arith, e)

reserve_twice :
    {A : Type 0} (key : SessionKey) (s : SocketStorage A) (port : ℕ) (asn_info : Option A)
    (set : Set ℕ)
    → Maps.get key.dest s.destination_to_sockets ≡ some set
    → reserve key port asn_info (record s {
      destination_to_sockets = Maps.insert key.dest (Sets.insert port set) s.destination_to_sockets;
    })
      ≡ reserve key port asn_info s
unfolding reserve add_to
reserve_twice key s port asn_info set e =
    let d2s = s.destination_to_sockets in
    let once = Sets.insert port set in
    ground (
      arith,
      e,
      get-insert_self key.dest once d2s,
      insert_twice port tt tt set,
      insert_twice key.dest once once d2s,
    )

module _ {Q A : Type 0} (lookup : IpAddr → Option A) (clock : Option ℕ) (key : SessionKey) where
  pub refuses-Good :
      (pool : SessionPool Q A) (e : PipelineError)
      → Inv pool
      → IsRefusal e
      → Good key pool (err e, pool)
  refuses-Good pool e i r = record { inv = i; step = keeps (λ k. refl); answer = (refl, r) }

  -- A port that is not open is reserved for no server.
  not_open :
      (pool : SessionPool Q A) (dest : SocketAddr) (port : ℕ)
      → Inv pool
      → Maps.get port pool.ports_to_sockets ≡ none
      → holds dest port pool.storage.destination_to_sockets ≡ false
  not_open pool dest port i n =
      elim (Bool-cases (holds dest port pool.storage.destination_to_sockets)) [
        | inr h ↦ h
        | inl h ↦ elim (Option-cases (Maps.get (dest, port) pool.storage.destination_to_sources)) [
          | inl e ↦ absurd (ground (arith, i.storage.sourced dest port, h, e))
          | inr (source, e) ↦
              let k : SessionKey = record { source = source; dest = dest } in
              elim (Option-cases (Maps.get k pool.session_map.inner)) [
                | inl f ↦ absurd (ground (arith, i.storage.owned source dest port e, f))
                | inr (s, f) ↦
                    absurd
                      (ground (arith, i.storage.owned source dest port e, f, i.queued k s f, n))
              ]
        ]
      ]

  with_socket-Inv :
      (pool : SessionPool Q A) (port : ℕ) (q : Q)
      → Inv pool
      → Maps.get port pool.ports_to_sockets ≡ none
      → Inv (record pool { ports_to_sockets = Maps.insert port q pool.ports_to_sockets })
  with_socket-Inv pool port q i n = record {
    storage = i.storage;
    keyed = i.keyed;
    sorted = i.sorted;
    queued = λ k s e. ground (
      arith,
      get-insert s.value.socket_port port q pool.ports_to_sockets,
      i.queued k s e,
      n,
      same→eq s.value.socket_port port,
    );
  }

  new_socket-Good :
      (os : Opened Q) (pool : SessionPool Q A)
      → Inv pool
      → IsFresh os pool
      → Maps.get key pool.session_map.inner ≡ none
      → Good key pool (create_new_session_from_new_socket lookup clock os key pool)
  unfolding create_new_session_from_new_socket
  new_socket-Good Opened.io_failed pool i f absent =
      refuses-Good pool PipelineError.io i (inr (inl refl))
  new_socket-Good Opened.no_address pool i f absent =
      refuses-Good pool (PipelineError.session SessionError.socket_address_unavailable) i
        (inr (inr refl))
  new_socket-Good (Opened.opened port q) pool i f absent =
      let pool' : SessionPool Q A = record pool {
        ports_to_sockets = Maps.insert port q pool.ports_to_sockets;
      } in
      let eq = create-eq lookup clock key q port pool' absent in
      let good = subst (Good key pool') eq (
        create-Good lookup clock key q port pool' (with_socket-Inv pool port q i f) absent
          (not_open pool key.dest port i f) (get-insert_self port q pool.ports_to_sockets)) in
      rw eq (record { inv = good.inv; step = good.step; answer = good.answer })

  pub unreserved_new :
      (os : Opened Q) (pool : SessionPool Q A)
      → pool.ports_to_sockets ≡ []
      → get_unreserved lookup clock os key pool
        ≡ create_new_session_from_new_socket lookup clock os key pool
  unfolding get_unreserved
  unreserved_new os pool e = ground (arith, e)

  -- With a socket there, its first error is not reached.
  pub unreserved_first :
      (os : Opened Q) (pool : SessionPool Q A) (port : ℕ) (q : Q) (rest : Map ℕ Q)
      → pool.ports_to_sockets ≡ (port, q) ∷ rest
      → get_unreserved lookup clock os key pool
        ≡ create_session_from_existing_socket lookup clock key q port pool
  unfolding get_unreserved
  unreserved_first os pool port q rest e = ground (arith, e)

  pub reserved_new :
      (os : Opened Q) (pool : SessionPool Q A) (set : Set ℕ)
      → find_socket set pool.ports_to_sockets ≡ none
      → get_reserved lookup clock os key set pool
        ≡ create_new_session_from_new_socket lookup clock os key pool
  unfolding get_reserved
  reserved_new os pool set e = ground (arith, e)

  pub get_unreserved-Good :
      (os : Opened Q) (pool : SessionPool Q A)
      → Inv pool
      → IsFresh os pool
      → Maps.get key pool.session_map.inner ≡ none
      → Maps.get key.dest pool.storage.destination_to_sockets ≡ none
      → Good key pool (get_unreserved lookup clock os key pool)
  get_unreserved-Good os pool i f absent no_set = elim (List-cases pool.ports_to_sockets) [
    | inl e ↦ rw (unreserved_new os pool e) (new_socket-Good os pool i f absent)
    | inr ((port, q), rest, e) ↦ rw (unreserved_first os pool port q rest e) (
        create-Good lookup clock key q port pool i absent
          (none-holds key.dest port pool.storage.destination_to_sockets no_set)
          (rw e (get-first port q rest)))
  ]

  -- A set that is read is there, so its last error is not reached.
  pub reserved_found :
      (os : Opened Q) (pool : SessionPool Q A) (set : Set ℕ) (port : ℕ) (q : Q)
      → Maps.get key pool.session_map.inner ≡ none
      → Maps.get key.dest pool.storage.destination_to_sockets ≡ some set
      → find_socket set pool.ports_to_sockets ≡ some (port, q)
      → get_reserved lookup clock os key set pool
        ≡ create_session_from_existing_socket lookup clock key q port pool
  unfolding get_reserved
  reserved_found os pool set port q absent es ef =
      let d2s = pool.storage.destination_to_sockets in
      let m = Maps.insert key.dest (Sets.insert port set) d2s in
      let pool' : SessionPool Q A = record pool {
        storage = record pool.storage { destination_to_sockets = m };
      } in
      ground (
        arith,
        es,
        ef,
        create-eq lookup clock key q port pool' absent,
        create-eq lookup clock key q port pool absent,
        reserve_twice key pool.storage port (lookup key.source.ip) set es,
      )

  pub get_reserved-Good :
      (os : Opened Q) (pool : SessionPool Q A) (set : Set ℕ)
      → Inv pool
      → IsFresh os pool
      → Maps.get key pool.session_map.inner ≡ none
      → Maps.get key.dest pool.storage.destination_to_sockets ≡ some set
      → Good key pool (get_reserved lookup clock os key set pool)
  get_reserved-Good os pool set i f absent es =
      elim (Option-cases (find_socket set pool.ports_to_sockets)) [
        | inl e ↦ rw (reserved_new os pool set e) (new_socket-Good os pool i f absent)
        | inr ((port, q), e) ↦ rw (reserved_found os pool set port q absent es e) (
            create-Good lookup clock key q port pool i absent
              (ground (arith, es, (find_socket_lem set port q pool.ports_to_sockets e).0))
              (find_socket_lem set port q pool.ports_to_sockets e).1)
      ]
