-- ===== src/Filters/RateLimit.antt =====
-- The local rate limiter (src/filters/local_rate_limit.rs): a bucket for each source, in a map whose
-- entries expire. One packet is handled after another, each at one time. The 64 bits of the counter
-- and of a time wrap.
pub mod Window
use quilkin.Common.{
  ℕ, ◌+◌, ◌-◌, ◌%◌, ◌^◌, Bool, true, false, Option, none, some, List, [], ◌∷◌, ltb, leb, ◌==◌,
  if◌then◌else◌, not, ◌&&◌,
}
use quilkin.Common.Maps
use quilkin.Net.Address.{EndpointAddress, address_ord}
use quilkin.Collections.Ttl
use quilkin.Collections.Ttl.{TtlMap, Expiring, now_relative_secs, new_value, update_expiration}
use quilkin.Filters.{FilterError, rate_limit_exceeded, Verdict, passed, failed, ReadContext}

pub record Bucket : Type 0 where
  pub counter : ℕ
  pub window_start_time_secs : ℕ

pub record Config : Type 0 where
  pub max_packets : ℕ
  pub period : ℕ

pub record LocalRateLimit : Type 0 where
  pub state : TtlMap EndpointAddress Bucket
  pub config : Config

-- `new`, which refuses a period of less than a second; the session timeout is 60 seconds.
unfoldable pub new_limiter : Config → Option LocalRateLimit
new_limiter config =
    if ltb config.period 1
    then none
    else some (record { state = record { inner = []; ttl = 60 }; config = config })

-- What becomes of a bucket that is there, and whether the packet may pass.
unfoldable pub take_token : Config → ℕ → Bucket → Bool × Bucket
take_token config now_secs bucket =
    let counted : Bucket = record bucket { counter = (bucket.counter + 1) % 2 ^ 64 } in
    let elapsed_secs = (now_secs + (2 ^ 64 - bucket.window_start_time_secs)) % 2 ^ 64 in
    let start_new_window = ltb config.period elapsed_secs in
    if leb config.max_packets bucket.counter && not start_new_window then (false, counted) else (
      true,
      if start_new_window
          then record { counter = 1; window_start_time_secs = now_secs }
          else counted,
    )

unfoldable pub acquire_token : Option ℕ → EndpointAddress → LocalRateLimit → Bool × LocalRateLimit
unfolding take_token
acquire_token clock address limiter =
    if limiter.config.max_packets == 0
    then (false, limiter)
    else let (found, state) = Ttl.get clock address limiter.state in
      elim found [
        | some v ↦
            let (ok, bucket) = take_token limiter.config (now_relative_secs clock) v.value in
            (
              ok,
              record limiter {
                state = record state {
                  inner = Maps.insert address (record v { value = bucket }) state.inner;
                };
              },
            )
        | none ↦
            let bucket : Bucket = record {
              counter = 1;
              window_start_time_secs = now_relative_secs clock;
            } in
            (true, record limiter { state = (Ttl.insert clock address bucket state).1 })
      ]

unfoldable pub rate_limit_read :
    {U R : Type 0} → Option ℕ → ReadContext U R → LocalRateLimit → Verdict × LocalRateLimit
rate_limit_read clock ctx limiter =
    let (ok, limiter') = acquire_token clock ctx.source limiter in
    (if ok then passed else failed rate_limit_exceeded, limiter')
