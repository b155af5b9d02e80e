-- ===== src/Net/Sessions/Runs.antt =====
-- Any sequence of operations on a pool of sessions (src/net/sessions.rs).
use quilkin.Common.{ℕ, ◌≡◌, refl, Option, List}
use quilkin.Common.Maps
use quilkin.Net.Address.{IpAddr, socket_ord}
use quilkin.Net.Sessions.{SessionKey, session_key_ord}
use quilkin.Net.Sessions.Pool.{Opened, SessionPool, new, prune, get}
use quilkin.Net.Sessions.Invariant.{Inv}

-- The pools that can arise from a new one: the operating system answers as it likes, and each call
-- of `get` and each round of pruning has a time of its own.
pub data Reachable {Q A : Type 0} (lookup : IpAddr → Option A) (sends : List Q) (limit : ℕ)
    : SessionPool Q A → Type 0 where
  starts : (pool : SessionPool Q A) → pool ≡ new sends limit → Reachable lookup sends limit pool
  gets :
      (clock : Option ℕ) (os : Opened Q) (key : SessionKey) (pool pool' : SessionPool Q A)
      → Reachable lookup sends limit pool
      → pool' ≡ (get lookup clock os key pool).1
      → Reachable lookup sends limit pool'
  prunes :
      (clock : Option ℕ) (pool pool' : SessionPool Q A)
      → Reachable lookup sends limit pool
      → pool' ≡ prune clock pool
      → Reachable lookup sends limit pool'

module _ {Q A : Type 0} (sends : List Q) (limit : ℕ) where
  pub new-Inv : Inv (new {A = A} sends limit)
  unfolding new Maps.get
  new-Inv = record {
    storage = record {
      both = λ dest port. refl;
      sourced = λ dest port. refl;
      no_empty_sockets = λ k e. cc;
      no_empty_destinations = λ k e. cc;
      owns = λ key port e. cc;
      owned = λ source dest port e. cc;
    };
    keyed = λ key s e. cc;
    sorted = tt;
    queued = λ key s e. cc;
  }
