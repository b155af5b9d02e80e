-- ===== src/Collections/Ttl/Expiry.antt =====
-- Expiration times of entries (src/collections/ttl.rs).
use quilkin.Common.{
  ℕ, ◌≡◌, refl, false, Option, none, some, [], ◌∷◌, ltb, if◌then◌else◌, keep, arith,
}
use quilkin.Common.Order.{Ord}
use quilkin.Common.Maps
use quilkin.Common.Maps.{Map, get-insert_self}
use quilkin.Common.Maps.Sorted.{IsSorted, get-keep}
use quilkin.Collections.Ttl.{Expiring, TtlMap, prune_entries, has_expired}

-- The entry, if its time is not over.
abbrev pub unexpired : {V : Type 0} → ℕ → Option (Expiring V) → Option (Expiring V)
unexpired now none = none
unexpired now (some v) = if ltb now v.expires_at then some v else none

module _ {K V : Type 0} where
  keeps_all :
      (now : ℕ) (inner : Map K (Expiring V))
      → has_expired now inner ≡ false
      → keep (λ e. ltb now e.1.expires_at) inner ≡ inner
  keeps_all now [] h = refl
  keeps_all now (e ∷ inner) h = ground (arith, keeps_all now inner)

  pub inner-prune_entries :
      (now : ℕ) (m : TtlMap K V)
      → (prune_entries (some now) m).inner ≡ keep (λ e. ltb now e.1.expires_at) m.inner
  unfolding prune_entries
  inner-prune_entries now m = ground (arith, keeps_all now m.inner)

module _ {K V : Type 0} ⦃o : Ord K⦄ where
  -- Pruning a map in order removes exactly the entries whose time is over, and no other; the test
  -- that may spare the write changes nothing.
  pub get-prune_entries :
      (key : K) (now : ℕ) (m : TtlMap K V)
      → IsSorted m.inner
      → Maps.get key (prune_entries (some now) m).inner ≡ unexpired now (Maps.get key m.inner)
  get-prune_entries key now m s =
      ground (arith, inner-prune_entries now m, get-keep key (λ v. ltb now v.expires_at) m.inner s)
