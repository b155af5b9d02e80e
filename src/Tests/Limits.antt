-- ===== src/Tests/Limits.antt =====
-- Expiring maps and the rate limiter at concrete inputs.
use quilkin.Common.{List, ◌-◌, ◌≤◌, ◌≡◌, refl, some, [], ◌∷◌, arith}
use quilkin.Common.Order.{ℕ_ord}
use quilkin.Common.Maps
use quilkin.Net.Address.{address_ord}
use quilkin.Collections.Ttl.{Expiring}
use quilkin.Filters.RateLimit.{Bucket, LocalRateLimit}
use quilkin.Filters.RateLimit.Window.{Event, packet, cleanup, passes, passes-le-max_packets}
use quilkin.Tests.Cluster.{host}

abbrev bucket : Expiring Bucket
bucket = record { value = record { counter = 1; window_start_time_secs = 100 }; expires_at = 160 }

abbrev limiter : LocalRateLimit
limiter = record {
  state = record { inner = (host 1, bucket) ∷ []; ttl = 60 };
  config = record { max_packets = 3; period = 10 };
}

bucket_found : Maps.get (host 1) limiter.state.inner ≡ some bucket
unfolding Maps.get address_ord
bucket_found = refl

abbrev some_events : List Event
some_events = packet 101 ∷ cleanup 102 ∷ packet 103 ∷ cleanup 109 ∷ packet 110 ∷ []

passes-le-max_packets_example : passes some_events (host 1) limiter ≤ 3 - 1
passes-le-max_packets_example =
    passes-le-max_packets some_events (host 1) limiter bucket bucket_found tt (omega arith)
      (omega arith) (omega arith) (omega arith) (omega arith)
