-- ===== src/Net/Xdp/Asn.antt =====
-- What the XDP backend knows of its clients' networks, and the sessions with it
-- (src/net/io/nic/xdp/process.rs, `AsnCache` and `State`). The address database is the argument
-- `lookup`, the text of a network's number `new_asn`, and its prefix `prefix`. Times are natural
-- numbers below 2^63, in nanoseconds.
use quilkin.Common.{ℕ, ◌+◌, ◌*◌, Option, none, some, ltb, if◌then◌else◌, keep}
use quilkin.Common.Maps
use quilkin.Common.Maps.{Map}
use quilkin.Net.Address.{IpAddr, v4, v6, SocketAddr, ip_ord}
use quilkin.Net.Xdp.{SessionState, lookup_client, get_or_create}

abbrev pub asn_cache_ttl : ℕ
asn_cache_ttl = 60 * 1000000000

pub record AsnCacheEntry (N S : Type 0) : Type 0 where
  pub asn : Option (N × S)
  pub last_access : ℕ

pub record AsnCache (N S : Type 0) : Type 0 where
  pub map : Map IpAddr (AsnCacheEntry N S)
  pub next_sweep : ℕ

module _ {N S : Type 0} where
  unfoldable pub cache_get : IpAddr → ℕ → AsnCache N S → Option (N × S) × AsnCache N S
  cache_get ip now cache = elim (Maps.get ip cache.map) [
    | none ↦ (none, cache)
    | some entry ↦ (
      entry.asn,
      record cache { map = Maps.insert ip (record entry { last_access = now }) cache.map },
    )
  ]

  -- `found` is what the lookup answers, which is made only for an address that is not in the map.
  unfoldable pub get_or_insert_with :
      IpAddr → ℕ → Option (N × S) → AsnCache N S → Option (N × S) × AsnCache N S
  get_or_insert_with ip now found cache =
      let entry : AsnCacheEntry N S = elim (Maps.get ip cache.map) [
        | none ↦ record { asn = found; last_access = now }
        | some entry ↦ entry
      ] in
      (
        entry.asn,
        record cache { map = Maps.insert ip (record entry { last_access = now }) cache.map },
      )

  -- Entries that were idle for the whole interval go, at most once in each interval.
  unfoldable pub sweep : ℕ → AsnCache N S → AsnCache N S
  sweep now cache = if ltb now cache.next_sweep then cache else record {
    map = keep (λ e. ltb now (e.1.last_access + asn_cache_ttl)) cache.map;
    next_sweep = now + asn_cache_ttl;
  }

pub record State (N S : Type 0) : Type 0 where
  pub addr_to_asn : AsnCache N S
  pub sessions : SessionState N
  pub local_ipv4 : ℕ
  pub local_ipv6 : ℕ
  pub last_receive : ℕ

-- The text of the number of a network, and its prefix.
pub record AsnInfo (S P : Type 0) : Type 0 where
  pub asn : S
  pub prefix : P

-- The addresses in the header of the frame that is sent.
pub data IpAddresses : Type 0 where
  ips_v4 : ℕ → ℕ → IpAddresses
  ips_v6 : ℕ → ℕ → IpAddresses

module _ {N S : Type 0} where
  unfoldable pub ips : State N S → IpAddr → IpAddresses
  ips s (v4 destination) = ips_v4 s.local_ipv4 destination
  ips s (v6 destination) = ips_v6 s.local_ipv6 destination

  -- The time of a batch of packets is set, and the cache swept.
  unfoldable pub receive : ℕ → State N S → State N S
  unfolding sweep
  receive now s = record s { last_receive = now; addr_to_asn = sweep now s.addr_to_asn }

module _ {N S P : Type 0} (lookup : IpAddr → Option N) (new_asn : N → S) (prefix : N → P)
    (empty : AsnInfo S P) where
  unfoldable pub asn_info : Option (N × S) → AsnInfo S P
  asn_info none = empty
  asn_info (some (ipe, asn)) = record { asn = asn; prefix = prefix ipe }

  abbrev pub looked_up : IpAddr → Option (N × S)
  looked_up ip = elim (lookup ip) [ none ↦ none | some ipe ↦ some (ipe, new_asn ipe) ]

  -- The client of a server's port, and its network; `clock` is that of the sessions.
  unfoldable pub state_lookup_client :
      Option ℕ → SocketAddr → ℕ → State N S → Option (SocketAddr × AsnInfo S P) × State N S
  state_lookup_client clock server_addr port s =
      let (found, sessions) = lookup_client clock server_addr port s.sessions in
      elim found [
        | none ↦ (none, record s { sessions = sessions })
        | some addr ↦
            let (asn, cache) = cache_get addr.ip s.last_receive s.addr_to_asn in
            (some (addr, asn_info asn), record s { sessions = sessions; addr_to_asn = cache })
      ]

  -- The port that stands for a client at a server, the client's network, and the addresses; with the
  -- fuel of `get_or_create`.
  unfoldable pub state_session :
      Option ℕ
      → SocketAddr
      → SocketAddr
      → ℕ
      → State N S
      → Option ((ℕ × AsnInfo S P × IpAddresses) × State N S)
  state_session clock client_addr server_addr fuel s =
      let (asn, cache) =
        get_or_insert_with client_addr.ip s.last_receive (looked_up client_addr.ip) s.addr_to_asn in
      let ipe : Option N = elim asn [ none ↦ none | some (ipe, _) ↦ some ipe ] in
      elim (get_or_create clock client_addr server_addr ipe fuel s.sessions) [
        | none ↦ none
        | some (port, sessions) ↦ some (
          (port, asn_info asn, ips s server_addr.ip),
          record s { addr_to_asn = cache; sessions = sessions },
        )
      ]
