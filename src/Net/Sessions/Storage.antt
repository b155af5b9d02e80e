-- ===== src/Net/Sessions/Storage.antt =====
-- The storage of the sockets (`SocketStorage` of src/net/sessions.rs) against a table of sessions.
use quilkin.Common.{
  ℕ, ◌≡◌, ◌≢◌, sym, subst, ◌∙◌, inl, inr, Option-cases, Bool, true, false, Option, none, some, [],
  if◌then◌else◌, is_some, arith,
}
use quilkin.Common.Order.{Ord, ℕ_ord, same, same→eq, same_self}
use quilkin.Common.Order.Derive.{same_pair}
use quilkin.Common.Maps
use quilkin.Common.Maps.{Map, get-insert, get-remove, get-remove_self, insert-ne}
use quilkin.Common.Sets
use quilkin.Common.Sets.{Set, contains-insert, contains-remove}
use quilkin.Net.Address.{SocketAddr, socket_ord}
use quilkin.Net.Sessions.{
  SessionKey, SocketStorage, session_key_ord, reservation_ord, or_default, add_to, remove_from,
  reserve, release_socket,
}

module _ {K V : Type 0} ⦃o : Ord K⦄ ⦃p : Ord V⦄ where
  -- The value is in the set of the key.
  abbrev pub holds : K → V → Map K (Set V) → Bool
  holds k v m = Sets.contains v (or_default (Maps.get k m))

  abbrev NoEmpty : Map K (Set V) → Type 0
  NoEmpty m = (k : K) → Maps.get k m ≢ some []

  holds-some :
      (k : K) (v : V) (m : Map K (Set V))
      → holds k v m ≡ true
      → (s : Set V) × (Maps.get k m ≡ some s)
  unfolding Maps.get
  holds-some k v m h = elim (Option-cases (Maps.get k m)) [
    | inl e ↦ absurd (ground (arith, h, e))
    | inr e ↦ e
  ]

  holds-add_to :
      (j k : K) (w v : V) (m : Map K (Set V))
      → holds j w (add_to k v m)
        ≡ (if (if same j k then same w v else false) then true else holds j w m)
  unfolding add_to
  holds-add_to j k w v m =
      let s = Sets.insert v (or_default (Maps.get k m)) in
      ground
        (arith, get-insert j k s m, contains-insert w v (or_default (Maps.get k m)), same→eq j k)

  holds-remove_from :
      (j k : K) (w v : V) (s : Set V) (m : Map K (Set V))
      → Maps.get k m ≡ some s
      → holds j w (remove_from k v s m)
        ≡ (if (if same j k then same w v else false) then false else holds j w m)
  unfolding remove_from
  holds-remove_from j k w v s m e = ground (
    arith,
    e,
    get-insert j k (Sets.remove v s) m,
    get-remove j k m,
    contains-remove w v s,
    same→eq j k,
  )

  add_to-NoEmpty : (k : K) (v : V) (m : Map K (Set V)) → NoEmpty m → NoEmpty (add_to k v m)
  unfolding add_to
  add_to-NoEmpty k v m h j e =
      let s = Sets.insert v (or_default (Maps.get k m)) in
      ground (arith, get-insert j k s m, h j, insert-ne v tt (or_default (Maps.get k m)))

  remove_from-NoEmpty :
      (k : K) (v : V) (s : Set V) (m : Map K (Set V)) → NoEmpty m → NoEmpty (remove_from k v s m)
  unfolding remove_from
  remove_from-NoEmpty k v s m h j e =
      ground (arith, get-insert j k (Sets.remove v s) m, get-remove j k m, h j)

-- The port of the socket that a session has.
abbrev pub Table : Type 0
Table = SessionKey → Option ℕ

-- The storage is that of a table of sessions: a server and a port are reserved, in each of the three
-- maps, exactly when one session has them, and its source is written there.
pub record Backed {A : Type 0} (table : Table) (s : SocketStorage A) : Type 0 where
  pub both :
      (dest : SocketAddr) (port : ℕ)
      → holds dest port s.destination_to_sockets ≡ holds port dest s.sockets_to_destination
  pub sourced :
      (dest : SocketAddr) (port : ℕ)
      → holds dest port s.destination_to_sockets
        ≡ is_some (Maps.get (dest, port) s.destination_to_sources)
  pub no_empty_sockets : NoEmpty s.destination_to_sockets
  pub no_empty_destinations : NoEmpty s.sockets_to_destination
  pub owns :
      (key : SessionKey) (port : ℕ)
      → table key ≡ some port
      → Maps.get (key.dest, port) s.destination_to_sources ≡ some key.source
  pub owned :
      (source dest : SocketAddr) (port : ℕ)
      → Maps.get (dest, port) s.destination_to_sources ≡ some source
      → table (record { source = source; dest = dest }) ≡ some port

-- The table with one entry written.
abbrev pub put : SessionKey → Option ℕ → Table → Table
put key entry table other = if same other key then entry else table other

pub Backed-ext :
    {A : Type 0}
    → (t u : Table) (s : SocketStorage A) → ((k : SessionKey) → t k ≡ u k)
    → Backed t s
    → Backed u s
Backed-ext t u s e b = record {
  both = b.both;
  sourced = b.sourced;
  no_empty_sockets = b.no_empty_sockets;
  no_empty_destinations = b.no_empty_destinations;
  owns = λ key port h. b.owns key port (e key ∙ h);
  owned = λ source dest port h.
      sym (e (record { source = source; dest = dest })) ∙ b.owned source dest port h;
}

-- Two reservations are one.
same_reservation :
    (d e : SocketAddr) (p q : ℕ)
    → same {K = SocketAddr × ℕ} (d, p) (e, q) ≡ (if same d e then same p q else false)
unfolding reservation_ord
same_reservation d e p q = same_pair socket_ord ℕ_ord (d, p) (e, q)

module _ {A : Type 0} (table : Table) (s : SocketStorage A) (key : SessionKey) (port : ℕ)
    (b : Backed table s) where
  module _ (asn_info : Option A) (absent : table key ≡ none)
      (fresh : holds key.dest port s.destination_to_sockets ≡ false) where
    reserve-sockets :
        (dest : SocketAddr) (q : ℕ)
        → holds dest q (reserve key port asn_info s).destination_to_sockets ≡ (
            if (if same dest key.dest then same q port else false)
            then true
            else holds dest q s.destination_to_sockets)
    unfolding reserve
    reserve-sockets dest q = holds-add_to dest key.dest q port s.destination_to_sockets

    reserve-destinations :
        (dest : SocketAddr) (q : ℕ)
        → holds q dest (reserve key port asn_info s).sockets_to_destination ≡ (
            if (if same q port then same dest key.dest else false)
            then true
            else holds q dest s.sockets_to_destination)
    unfolding reserve
    reserve-destinations dest q = holds-add_to q port dest key.dest s.sockets_to_destination

    reserve-sources :
        (dest : SocketAddr) (q : ℕ)
        → Maps.get (dest, q) (reserve key port asn_info s).destination_to_sources ≡ (
            if (if same dest key.dest then same q port else false)
            then some key.source
            else Maps.get (dest, q) s.destination_to_sources)
    unfolding reserve
    reserve-sources dest q =
        rw (sym (same_reservation dest key.dest q port))
          (get-insert (dest, q) (key.dest, port) key.source s.destination_to_sources)

    pub reserve-Backed : Backed (put key (some port) table) (reserve key port asn_info s)
    unfolding reserve
    reserve-Backed = record {
      both = λ dest q.
          ground (arith, reserve-sockets dest q, reserve-destinations dest q, b.both dest q);
      sourced = λ dest q.
          ground (arith, reserve-sockets dest q, reserve-sources dest q, b.sourced dest q);
      no_empty_sockets = add_to-NoEmpty key.dest port s.destination_to_sockets b.no_empty_sockets;
      no_empty_destinations =
          add_to-NoEmpty port key.dest s.sockets_to_destination b.no_empty_destinations;
      owns = λ other q e. ground (
        arith,
        reserve-sources other.dest q,
        b.owns other q,
        b.sourced other.dest q,
        same→eq other.dest key.dest,
        same→eq q port,
        same→eq other key,
        same_self key.dest,
        same_self port,
      );
      owned = λ source dest q e. ground (
        arith,
        reserve-sources dest q,
        b.owned source dest q,
        same→eq dest key.dest,
        same→eq q port,
        same→eq {K = SessionKey} (record { source = source; dest = dest }) key,
        same_self key,
      );
    }

  held-holds : table key ≡ some port → holds key.dest port s.destination_to_sockets ≡ true
  held-holds held = ground (arith, b.owns key port, b.sourced key.dest port)

  module _ (held : table key ≡ some port) (ss : Set ℕ) (ds : Set SocketAddr)
      (es : Maps.get key.dest s.destination_to_sockets ≡ some ss)
      (ed : Maps.get port s.sockets_to_destination ≡ some ds) where
    released : SocketStorage A
    released = record {
      destination_to_sockets = remove_from key.dest port ss s.destination_to_sockets;
      sockets_to_destination = remove_from port key.dest ds s.sockets_to_destination;
      sources_to_asn_info = Maps.remove key.source s.sources_to_asn_info;
      destination_to_sources = Maps.remove (key.dest, port) s.destination_to_sources;
    }

    eq-released : release_socket key port s ≡ released
    unfolding release_socket released
    eq-released = ground (arith, es, ed)

    released-sources :
        (dest : SocketAddr) (q : ℕ)
        → Maps.get (dest, q) released.destination_to_sources ≡ (
            if (if same dest key.dest then same q port else false)
            then none
            else Maps.get (dest, q) s.destination_to_sources)
    unfolding released
    released-sources dest q =
        rw (sym (same_reservation dest key.dest q port))
          (get-remove (dest, q) (key.dest, port) s.destination_to_sources)

    released-Backed : Backed (put key none table) released
    unfolding released
    released-Backed = record {
      both = λ dest q. ground (
        arith,
        holds-remove_from dest key.dest q port ss s.destination_to_sockets es,
        holds-remove_from q port dest key.dest ds s.sockets_to_destination ed,
        b.both dest q,
      );
      sourced = λ dest q. ground (
        arith,
        holds-remove_from dest key.dest q port ss s.destination_to_sockets es,
        released-sources dest q,
        b.sourced dest q,
      );
      no_empty_sockets =
          remove_from-NoEmpty key.dest port ss s.destination_to_sockets b.no_empty_sockets;
      no_empty_destinations =
          remove_from-NoEmpty port key.dest ds s.sockets_to_destination b.no_empty_destinations;
      owns = λ other q e. ground (
        arith,
        released-sources other.dest q,
        b.owns other q,
        b.owns key port held,
        same→eq other.dest key.dest,
        same→eq q port,
        same_self other,
      );
      owned = λ source dest q e. ground (
        arith,
        released-sources dest q,
        b.owned source dest q,
        held,
        same→eq {K = SessionKey} (record { source = source; dest = dest }) key,
        same_self key.dest,
        same_self port,
      );
    }

  pub release-Backed :
      table key ≡ some port → Backed (put key none table) (release_socket key port s)
  release-Backed held =
      let (ss, es) = holds-some key.dest port s.destination_to_sockets (held-holds held) in
      let (ds, ed) =
        holds-some port key.dest s.sockets_to_destination
          (sym (b.both key.dest port) ∙ held-holds held) in
      subst (λ t. Backed (put key none table) t) (sym (eq-released held ss ds es ed))
        (released-Backed held ss ds es ed)
