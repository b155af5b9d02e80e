-- ===== src/Common/Maps.antt =====
-- Maps with ordered keys (`BTreeMap`, and `HashMap` and `DashMap` read in one fixed order): the
-- entries as a list sorted by key.
pub mod Sorted
use Prim.Native.Nat.{ℕ, suc, ◌+◌, ◌≤◌, Ordering}
use mathlib.Core.Path.{◌≡◌, refl, ap, ap₂}
use mathlib.Core.Logic.{◌≢◌}
use mathlib.Core.Bool.{Bool, true, false, not}
use mathlib.Core.List.{List, [], ◌∷◌, ◌++◌, map}
use mathlib.Core.Option.{Option, none, some}
use native.Mathlib.Omega.{arith}
use quilkin.Common.Tests.{if◌then◌else◌, is_some}
use quilkin.Common.Lists.{length, keep}
use quilkin.Common.Order.{Ord, same}

abbrev pub Map {ℓ κ} : Type ℓ → Type κ → Type (ℓ ⊔ κ)
Map K V = List (K × V)

module _ {ℓ κ} {K : Type ℓ} {V : Type κ} ⦃o : Ord K⦄ where
  unfoldable pub get : K → Map K V → Option V
  get k [] = none
  get k ((j, v) ∷ m) = if same k j then some v else get k m

  unfoldable pub insert : K → V → Map K V → Map K V
  insert k v [] = (k, v) ∷ []
  insert k v ((j, w) ∷ m) = elim (o.cmp k j) [
    | Ordering.lt ↦ (k, v) ∷ (j, w) ∷ m
    | Ordering.eq ↦ (k, v) ∷ m
    | Ordering.gt ↦ (j, w) ∷ insert k v m
  ]

  unfoldable pub remove : K → Map K V → Map K V
  remove k [] = []
  remove k ((j, w) ∷ m) = if same k j then remove k m else (j, w) ∷ remove k m

  abbrev pub contains_key : K → Map K V → Bool
  contains_key k m = is_some (get k m)

  pub get-insert :
      (j k : K) (v : V) (m : Map K V)
      → get j (insert k v m) ≡ (if same j k then some v else get j m)
  unfolding get insert
  get-insert j k v [] = refl
  get-insert j k v ((i, w) ∷ m) =
      ground
        (arith, get-insert j k v m, o.eq_of_cmp k i, o.eq_of_cmp j i, o.eq_of_cmp j k, o.cmp_refl i)

  pub get-remove :
      (j k : K) (m : Map K V) → get j (remove k m) ≡ (if same j k then none else get j m)
  unfolding get remove
  get-remove j k [] = ground arith
  get-remove j k ((i, w) ∷ m) =
      ground
        (arith, get-remove j k m, o.eq_of_cmp k i, o.eq_of_cmp j i, o.eq_of_cmp j k, o.cmp_refl i)

  pub get-insert_self : (k : K) (v : V) (m : Map K V) → get k (insert k v m) ≡ some v
  get-insert_self k v m = ground (arith, get-insert k k v m, o.cmp_refl k)

  pub get-remove_self : (k : K) (m : Map K V) → get k (remove k m) ≡ none
  get-remove_self k m = ground (arith, get-remove k k m, o.cmp_refl k)

  pub insert-ne : (k : K) (v : V) (m : Map K V) → insert k v m ≢ []
  unfolding insert
  insert-ne k v [] e = cc
  insert-ne k v ((j, w) ∷ m) e = ground arith

  -- The second of two insertions at a key counts.
  pub insert_twice : (k : K) (v w : V) (m : Map K V) → insert k v (insert k w m) ≡ insert k v m
  unfolding insert
  insert_twice k v w [] = ground (arith, o.cmp_refl k)
  insert_twice k v w ((j, x) ∷ m) =
      ground (arith, insert_twice k v w m, o.cmp_refl k, o.eq_of_cmp k j)
