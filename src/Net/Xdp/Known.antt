-- ===== src/Net/Xdp/Known.antt =====
-- A client and its network, found again when the server answers (src/net/io/nic/xdp/process.rs).
use quilkin.Common.{ℕ, suc, ◌+◌, ◌≡◌, ◌≤◌, ◌<◌, refl, Option, none, some, ltb, arith}
use quilkin.Common.Maps
use quilkin.Common.Maps.{Map, get-insert_self}
use quilkin.Common.Maps.Sorted.{IsSorted, get-keep, insert-IsSorted}
use quilkin.Net.Address.{IpAddr, SocketAddr, ip_ord}
use quilkin.Net.Xdp.{ephemeral_range_end}
use quilkin.Net.Xdp.Ports.{IsClient}
use quilkin.Net.Xdp.States.{IsState, get_or_create-lookup_client}
use quilkin.Net.Xdp.Asn.{
  asn_cache_ttl, AsnCacheEntry, AsnCache, cache_get, get_or_insert_with, sweep, State, AsnInfo,
  asn_info, looked_up, ips, state_lookup_client, state_session, receive,
}

module _ {N S : Type 0} where
  get-swept :
      (ip : IpAddr) (now : ℕ) (cache : AsnCache N S) (entry : AsnCacheEntry N S)
      → IsSorted cache.map
      → now < entry.last_access + asn_cache_ttl
      → Maps.get ip cache.map ≡ some entry
      → Maps.get ip (sweep now cache).map ≡ some entry
  unfolding sweep
  get-swept ip now cache entry sorted recent e = ground (
    arith,
    e,
    recent,
    get-keep ip (λ v. ltb now (v.last_access + asn_cache_ttl)) cache.map sorted,
  )

  -- What a read and a lookup answer is in the map, with the time of the access.
  get-accessed :
      (ip : IpAddr) (time : ℕ) (found : Option (N × S)) (cache : AsnCache N S)
      → (entry : AsnCacheEntry N S) × (Maps.get ip (get_or_insert_with ip time found cache).1.map
          ≡ some entry)
        × (entry.asn ≡ (get_or_insert_with ip time found cache).0)
        × (entry.last_access ≡ time)
  unfolding get_or_insert_with
  get-accessed ip time found cache =
      let kept : AsnCacheEntry N S = record {
        asn = (get_or_insert_with ip time found cache).0;
        last_access = time;
      } in
      (kept, ground (arith, get-insert_self ip kept cache.map), refl, refl)

  accessed-IsSorted :
      (ip : IpAddr) (time : ℕ) (found : Option (N × S)) (cache : AsnCache N S)
      → IsSorted cache.map
      → IsSorted (get_or_insert_with ip time found cache).1.map
  unfolding get_or_insert_with
  accessed-IsSorted ip time found cache h =
      insert-IsSorted ip
        (record { asn = (get_or_insert_with ip time found cache).0; last_access = time }) cache.map
        h

  -- An answer of the cache is answered again after a sweep within the interval.
  accessed-swept :
      (ip : IpAddr) (time now : ℕ) (found : Option (N × S)) (cache : AsnCache N S)
      → IsSorted cache.map
      → now < time + asn_cache_ttl
      → (cache_get ip now (sweep now (get_or_insert_with ip time found cache).1)).0
        ≡ (get_or_insert_with ip time found cache).0
  unfolding cache_get
  accessed-swept ip time now found cache sorted recent =
      let (entry, e, asn, at) = get-accessed ip time found cache in
      let s =
        get-swept ip now (get_or_insert_with ip time found cache).1 entry
          (accessed-IsSorted ip time found cache sorted) (ground (arith, at, recent)) e in
      ground (arith, s, asn)

module _ {N S P : Type 0} (lookup : IpAddr → Option N) (new_asn : N → S) (prefix : N → P)
    (empty : AsnInfo S P) where
  -- A session gives the client a port at the server, and the addresses of the frame. When the server
  -- sends to that port, before the client's network was idle for a whole interval, the client is
  -- found, with the network that the session had, whatever the database answers and although the
  -- cache has been swept.
  pub state_session-lookup_client :
      (clock later : Option ℕ) (client server : SocketAddr) (fuel now : ℕ) (s : State N S)
      → IsState s.sessions
      → IsSorted s.addr_to_asn.map
      → IsClient client
      → now < s.last_receive + asn_cache_ttl
      → (port : ℕ) × (asn : AsnInfo S P) × (s' : State N S) × (state_session lookup new_asn prefix
            empty clock client server
            (suc (suc fuel))
            s
          ≡ some ((port, asn, ips s server.ip), s'))
        × (ephemeral_range_end ≤ port)
        × ((state_lookup_client lookup new_asn prefix empty later server port (receive now s')).0
            ≡ some (client, asn))
  unfolding state_session state_lookup_client receive
  state_session-lookup_client clock later client server fuel now s h sorted c recent =
      let found = looked_up lookup new_asn prefix empty client.ip in
      let asn = (get_or_insert_with client.ip s.last_receive found s.addr_to_asn).0 in
      let cache = (get_or_insert_with client.ip s.last_receive found s.addr_to_asn).1 in
      let ipe : Option N = elim asn [ none ↦ none | some (ipe, _) ↦ some ipe ] in
      let (port, sessions, e, low, high, back, _) =
        get_or_create-lookup_client clock later client server ipe fuel s.sessions h c in
      (
        port,
        asn_info lookup new_asn prefix empty asn,
        record s { addr_to_asn = cache; sessions = sessions },
        ground (arith, e),
        low,
        ground (
          arith,
          back,
          accessed-swept client.ip s.last_receive now found s.addr_to_asn sorted recent,
        ),
      )
