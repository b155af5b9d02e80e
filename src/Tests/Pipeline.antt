-- ===== src/Tests/Pipeline.antt =====
-- Packets from clients at concrete inputs.
use quilkin.Common.{
  ℕ, ◌≡◌, ◌≢◌, refl, false, Option, none, some, [], ◌∷◌, ◌++◌, length, ◌==◌, if◌then◌else◌, arith,
}
use quilkin.Common.Maps
use quilkin.Common.Sets
use quilkin.Common.Maps.{Map}
use quilkin.Net.Address.{Bytes, IpAddr, v4, SocketAddr, address_ord, bytes_ord}
use quilkin.Net.Cluster.Clusters.{ClusterMap, addresses_for_token}
use quilkin.Net.Sessions.Traffic.{to_endpoint_address}
use quilkin.Filters.{ReadContext, Filter, rate_limit_exceeded, passed, failed}
use quilkin.Collections.Ttl
use quilkin.Filters.RateLimit.{LocalRateLimit, rate_limit_read, acquire_token, take_token}
use quilkin.Filters.Chain.Route.{route_by_token}
use quilkin.Net.Sessions.{PipelineError}
use quilkin.Net.Sessions.Pool.{Opened, SessionPool, new}
use quilkin.Net.Pipeline.{Processed, is_disallowed, process_inner, worker}
use quilkin.Net.Pipeline.Gated.{routed_context}
use quilkin.Net.Pipeline.Leftovers.{delivered, worker-leftover}
use quilkin.Tests.Cluster.{host, token}

abbrev no_names : Bytes → Option IpAddr
no_names name = none

abbrev unknown : IpAddr → Option ℕ
unknown ip = none

abbrev system : Map ℕ ℕ → Opened ℕ
system [] = Opened.opened 5000 50
system (socket ∷ sockets) = Opened.io_failed

abbrev from : ℕ → SocketAddr
from n = record { ip = v4 n; port = 9000 }

abbrev idle : SessionPool ℕ ℕ
idle = new (70 ∷ []) 9

-- One packet a minute from each source, and a source that has had its packet.
abbrev spent : LocalRateLimit
spent = record {
  state = record {
    inner =
        (
          to_endpoint_address (from 8),
          record { value = record { counter = 1; window_start_time_secs = 5 }; expires_at = 65 },
        )
        ∷ [];
    ttl = 60;
  };
  config = record { max_packets = 1; period = 60 };
}

abbrev limiter : Filter ℕ ℕ LocalRateLimit
limiter = record {
  read = λ ctx s. let (verdict, s') = rate_limit_read (some 10) ctx s in some (verdict, ctx, s');
  write = λ ctx s. some (passed, ctx, s);
}

-- One endpoint, under a token of three bytes.
abbrev served : ClusterMap ℕ ℕ
served = record {
  map = [];
  localities = [];
  token_map = (3, Sets.of_list (host 1 ∷ [])) ∷ [];
  num_endpoints = 1;
  version = 0;
}

found : length (addresses_for_token 3 served []) ≢ 0
unfolding addresses_for_token Maps.get Maps.insert
found = omega arith

-- By a hash that tells the one token from the others.
abbrev first_byte : Bytes → ℕ
first_byte [] = 0
first_byte (b ∷ bs) = if b == 1 then 3 else 4

missing : length (addresses_for_token 4 served []) ≡ 0
unfolding addresses_for_token Maps.get Maps.insert
missing = refl

allowed : is_disallowed (v4 8) ≡ false
unfolding is_disallowed
allowed = refl

allowed' : is_disallowed (v4 9) ≡ false
unfolding is_disallowed
allowed' = refl

-- The packets once they are routed, and what the limiter is after each.
abbrev routed1 : ReadContext ℕ ℕ
routed1 =
    routed_context (7 ∷ []) served (to_endpoint_address (from 8)) (5 ∷ []) token
      (addresses_for_token 3 served [])

abbrev routed2 : ReadContext ℕ ℕ
routed2 =
    routed_context (7 ∷ []) served (to_endpoint_address (from 9)) (6 ∷ []) (2 ∷ 2 ∷ 2 ∷ [])
      (addresses_for_token 3 served [])

abbrev after1 : LocalRateLimit
after1 = (rate_limit_read (some 10) routed1 spent).1

abbrev after2 : LocalRateLimit
after2 = (rate_limit_read (some 10) routed2 after1).1

first_limited : limiter.read routed1 spent ≡ some (failed rate_limit_exceeded, routed1, after1)
unfolding rate_limit_read acquire_token take_token Ttl.get Maps.get Maps.insert address_ord
first_limited = refl

second_passes : limiter.read routed2 after1 ≡ some (passed, routed2, after2)
unfolding rate_limit_read acquire_token take_token Ttl.get Ttl.insert Maps.get Maps.insert
    address_ord
second_passes = refl

worker-leftover_example :
    worker no_names unknown
      (some 10)
      system
      (some served)
      (route_by_token first_byte 3 (7 ∷ []) ++ limiter ∷ [])
      ((from 8, (5 ∷ []) ++ token) ∷ (from 9, (6 ∷ []) ++ (2 ∷ 2 ∷ 2 ∷ [])) ∷ [])
      []
      spent
      idle
    ≡ some (
        record {
          result = some (PipelineError.filter rate_limit_exceeded);
          sent = [];
          destinations = addresses_for_token 3 served [];
          state = after1;
          pool = idle;
        }
        ∷ delivered no_names unknown
            (some 10)
            system
            (from 9)
            (6 ∷ [])
            (addresses_for_token 3 served [])
            after2
            idle
        ∷ [])
worker-leftover_example =
    worker-leftover no_names unknown (some 10) system first_byte (7 ∷ []) served limiter refl
      rate_limit_exceeded (from 8) (from 9) (5 ∷ []) (6 ∷ []) token (2 ∷ 2 ∷ 2 ∷ []) spent after1
      after2 idle allowed allowed' refl first_limited second_passes found missing

abbrev unseen : ℕ
unseen = 0

abbrev refused : Processed ℕ ℕ ℕ
refused = record {
  result = some (PipelineError.disallowed_source_ip (v4 3758096385));
  sent = [];
  destinations = [];
  state = 0;
  pool = idle;
}

multicast_refused :
    process_inner no_names unknown
      (some 10)
      system
      (some served)
      []
      (from 3758096385)
      (5 ∷ [])
      []
      0
      idle
    ≡ some refused
unfolding process_inner is_disallowed
multicast_refused = refl
