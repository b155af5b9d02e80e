-- ===== src/Collections/Ttl.antt =====
-- Maps whose entries expire (src/collections/ttl.rs). The clock is an argument of each call: the
-- seconds that it answers, or that it fails.
pub mod Expiry
use quilkin.Common.{
  ℕ, ◌+◌, Bool, true, false, not, Option, none, some, List, [], ◌∷◌, ltb, leb, length, ◌==◌,
  if◌then◌else◌, is_some, keep, any,
}
use quilkin.Common.Order.{Ord}
use quilkin.Common.Maps
use quilkin.Common.Maps.{Map}

pub record Expiring (V : Type 0) : Type 0 where
  pub value : V
  pub expires_at : ℕ

pub record TtlMap (K V : Type 0) : Type 0 where
  pub inner : Map K (Expiring V)
  pub ttl : ℕ

-- `now_relative_secs` of the map: a clock that fails stands at 0.
abbrev pub now_relative_secs : Option ℕ → ℕ
now_relative_secs none = 0
now_relative_secs (some now) = now

abbrev pub compute_expiration_secs : Option ℕ → ℕ → Option ℕ
compute_expiration_secs none ttl = none
compute_expiration_secs (some now) ttl = some (now + ttl)

module _ {V : Type 0} where
  -- With no time to be had, the expiration stays as it was.
  unfoldable pub update_expiration : Option ℕ → ℕ → Expiring V → Expiring V
  update_expiration clock ttl v = elim (compute_expiration_secs clock ttl) [
    | none ↦ v
    | some time ↦ record v { expires_at = time }
  ]

  unfoldable pub new_value : Option ℕ → ℕ → V → Expiring V
  unfolding update_expiration
  new_value clock ttl value = update_expiration clock ttl (record { value = value; expires_at = 0 })

module _ {K V : Type 0} ⦃o : Ord K⦄ where
  -- `get` and `get_mut`, whose entry begins its time anew.
  unfoldable pub get : Option ℕ → K → TtlMap K V → Option (Expiring V) × TtlMap K V
  unfolding update_expiration
  get clock key m = elim (Maps.get key m.inner) [
    | none ↦ (none, m)
    | some v ↦
        let v' = update_expiration clock m.ttl v in
        (some v', record m { inner = Maps.insert key v' m.inner })
  ]

  unfoldable pub insert : Option ℕ → K → V → TtlMap K V → Option V × TtlMap K V
  unfolding new_value
  insert clock key value m = (
    elim (Maps.get key m.inner) [ none ↦ none | some v ↦ some v.value ],
    record m { inner = Maps.insert key (new_value clock m.ttl value) m.inner },
  )

  unfoldable pub remove : K → TtlMap K V → Bool × TtlMap K V
  remove key m = (is_some (Maps.get key m.inner), record m { inner = Maps.remove key m.inner })

  abbrev pub contains_key : K → TtlMap K V → Bool
  contains_key key m = Maps.contains_key key m.inner

  -- The entry of a key: occupied or vacant.
  abbrev pub is_occupied : K → TtlMap K V → Bool
  is_occupied key m = is_some (Maps.get key m.inner)

module _ {K V : Type 0} where
  abbrev pub len : TtlMap K V → ℕ
  len m = length m.inner

  unfoldable pub clear : TtlMap K V → TtlMap K V
  clear m = record m { inner = [] }

  abbrev has_expired : ℕ → Map K (Expiring V) → Bool
  has_expired now inner = any (λ e. leb e.1.expires_at now) inner

  -- The map is written only if something has expired.
  unfoldable pub prune_entries : Option ℕ → TtlMap K V → TtlMap K V
  prune_entries none m = m
  prune_entries (some now) m =
      if has_expired now m.inner
      then record m { inner = keep (λ e. ltb now e.1.expires_at) m.inner }
      else m
