-- ===== src/Filters/RateLimit/Window.antt =====
-- The packets of one source within one window (src/filters/local_rate_limit.rs), while the cleanup
-- task of the map of buckets runs, too (src/collections/ttl.rs).
use quilkin.Common.{
  ℕ, ◌+◌, ◌-◌, ◌^◌, ◌≤◌, ◌<◌, ◌≡◌, refl, ap, ◌∙◌, inl, inr, Bool-cases, true, false, some, List, [],
  ◌∷◌, length, All, if◌then◌else◌, arith, ltb, ◌==◌,
}
use quilkin.Common.Maps
use quilkin.Common.Maps.{get-insert_self}
use quilkin.Common.Maps.Sorted.{IsSorted, insert-IsSorted, keep-IsSorted}
use quilkin.Collections.Ttl.Expiry.{get-prune_entries, inner-prune_entries}
use quilkin.Net.Address.{EndpointAddress, address_ord}
use quilkin.Collections.Ttl.{Expiring, get, update_expiration, prune_entries}
use quilkin.Filters.RateLimit.{Bucket, Config, LocalRateLimit, take_token, acquire_token}

-- A packet of the source comes, or the cleanup task removes the buckets whose time is over.
pub data Event : Type 0 where
  packet : ℕ → Event
  cleanup : ℕ → Event

abbrev pub time_of : Event → ℕ
time_of (packet time) = time
time_of (cleanup time) = time

unfoldable clean_up : ℕ → LocalRateLimit → LocalRateLimit
clean_up time limiter = record limiter { state = prune_entries (some time) limiter.state }

-- How many of the source's packets may pass.
unfoldable pub passes : List Event → EndpointAddress → LocalRateLimit → ℕ
unfolding clean_up
passes [] address limiter = 0
passes (packet time ∷ events) address limiter =
    let (ok, limiter') = acquire_token (some time) address limiter in
    let rest = passes events address limiter' in if ok then 1 + rest else rest
passes (cleanup time ∷ events) address limiter = passes events address (clean_up time limiter)

-- A time of the window that starts at `start`.
abbrev pub Within : ℕ → ℕ → ℕ → Type 0
Within start period time = (start ≤ time) × (time ≤ start + period)

take_token-Within :
    (config : Config) (time : ℕ) (b : Bucket)
    → Within b.window_start_time_secs config.period time
    → b.window_start_time_secs + config.period < 2 ^ 64
    → b.counter + 1 < 2 ^ 64
    → ((take_token config time b).0 ≡ ltb b.counter config.max_packets)
      × ((take_token config time b).1 ≡ record b { counter = b.counter + 1 })
unfolding take_token
take_token-Within config time b w small few = ground arith

-- The bucket of a source that is found.
found_bucket :
    (time : ℕ) (address : EndpointAddress) (limiter : LocalRateLimit) (v : Expiring Bucket)
    → Maps.get address limiter.state.inner ≡ some v
    → IsSorted limiter.state.inner
    → (limiter.config.max_packets == 0) ≡ false
    → (let next = acquire_token (some time) address limiter in
        (next.0 ≡ (take_token limiter.config time v.value).0)
        × (next.1.config ≡ limiter.config)
        × (next.1.state.ttl ≡ limiter.state.ttl)
        × IsSorted next.1.state.inner
        × ((w : Expiring Bucket) × (Maps.get address next.1.state.inner ≡ some w)
            × (w.value ≡ (take_token limiter.config time v.value).1)
            × (w.expires_at ≡ time + limiter.state.ttl)))
unfolding acquire_token get update_expiration
found_bucket time address limiter v e sorted some_max =
    let bucket = (take_token limiter.config time v.value).1 in
    let fresh : Expiring Bucket = record v { expires_at = time + limiter.state.ttl } in
    let w : Expiring Bucket = record fresh { value = bucket } in
    (
      ground (arith, e),
      ground (arith, e),
      ground (arith, e),
      ground (
        arith,
        e,
        insert-IsSorted address w (Maps.insert address fresh limiter.state.inner)
            (insert-IsSorted address fresh limiter.state.inner sorted),
      ),
      (
        w,
        ground
            (arith, e, get-insert_self address w (Maps.insert address fresh limiter.state.inner)),
        refl,
        refl,
      ),
    )

-- A bucket whose time is not over outlives a cleanup.
kept_bucket :
    (time : ℕ) (address : EndpointAddress) (limiter : LocalRateLimit) (v : Expiring Bucket)
    → Maps.get address limiter.state.inner ≡ some v
    → IsSorted limiter.state.inner
    → time < v.expires_at
    → Maps.get address (clean_up time limiter).state.inner ≡ some v
unfolding clean_up
kept_bucket time address limiter v e sorted live =
    ground (arith, get-prune_entries address time limiter.state sorted, e)

clean_up-kept :
    (time : ℕ) (limiter : LocalRateLimit)
    → ((clean_up time limiter).config ≡ limiter.config)
      × ((clean_up time limiter).state.ttl ≡ limiter.state.ttl)
unfolding clean_up prune_entries
clean_up-kept time limiter = ground arith

clean_up-IsSorted :
    (time : ℕ) (limiter : LocalRateLimit)
    → IsSorted limiter.state.inner
    → IsSorted (clean_up time limiter).state.inner
unfolding clean_up
clean_up-IsSorted time limiter sorted =
    rw (inner-prune_entries time limiter.state)
      (keep-IsSorted (λ e. ltb time e.1.expires_at) limiter.state.inner sorted)

none_pass :
    (events : List Event) (address : EndpointAddress) (limiter : LocalRateLimit)
    → (limiter.config.max_packets == 0) ≡ true
    → passes events address limiter ≡ 0
unfolding passes acquire_token
none_pass [] address limiter h = refl
none_pass (packet time ∷ events) address limiter h = rw h (none_pass events address limiter h)
none_pass (cleanup time ∷ events) address limiter h =
    none_pass events address (clean_up time limiter) h

-- A source sends packets within the window of its bucket, and the cleanup task runs in between; the
-- period is less than the time that a bucket lives on after a packet, and the window ends before the
-- bucket's time is over. At most as many packets pass as the maximum leaves over after those that the bucket has
-- counted. The buckets stand in order, the window ends before 2^64, and the count stays below it.
pub passes-le-max_packets :
    (events : List Event) (address : EndpointAddress) (limiter : LocalRateLimit)
    (v : Expiring Bucket)
    → Maps.get address limiter.state.inner ≡ some v
    → IsSorted limiter.state.inner
    → limiter.config.period < limiter.state.ttl
    → v.value.window_start_time_secs + limiter.config.period < v.expires_at
    → All (λ e. Within v.value.window_start_time_secs limiter.config.period (time_of e)) events
    → v.value.window_start_time_secs + limiter.config.period < 2 ^ 64
    → v.value.counter + length events < 2 ^ 64
    → passes events address limiter ≤ limiter.config.max_packets - v.value.counter
unfolding passes
passes-le-max_packets [] address limiter v e sorted short lives within small few = omega arith
passes-le-max_packets (cleanup time ∷ events) address limiter v e sorted short lives within small
      few =
    let (config, ttl) = clean_up-kept time limiter in
    ground (
      arith,
      config,
      passes-le-max_packets events address (clean_up time limiter) v
          (kept_bucket time address limiter v e sorted (omega (arith, lives, within.0)))
          (clean_up-IsSorted time limiter sorted) (rw (config, ttl) short) (rw config lives)
          (rw config within.1) (rw config small) (omega (arith, few)),
    )
passes-le-max_packets (packet time ∷ events) address limiter v e sorted short lives within small
      few =
    elim (Bool-cases (limiter.config.max_packets == 0)) [
      | inl none_allowed ↦
          rw (none_pass (packet time ∷ events) address limiter none_allowed) (omega arith)
      | inr some_max ↦
          let (token, config, ttl, sorted', (w, there, bucket, expires)) =
            found_bucket time address limiter v e sorted some_max in
          let (ok, counted) =
            take_token-Within limiter.config time v.value within.0 small (omega arith) in
          let same_bucket : w.value ≡ record v.value { counter = v.value.counter + 1 } =
            bucket ∙ counted in
          let start = ap (λ b. b.window_start_time_secs) same_bucket in
          ground (
            arith,
            token,
            config,
            same_bucket,
            ok,
            passes-le-max_packets events address (acquire_token (some time) address limiter).1 w
                there sorted' (rw (config, ttl) short)
                (rw (start, config, expires) (omega (arith, short, within.0)))
                (rw (start, config) within.1) (rw (start, config) small)
                (omega (arith, ap (λ b. b.counter) same_bucket)),
          )
    ]
