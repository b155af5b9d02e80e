-- ===== src/Common/Sets.antt =====
-- Sets with ordered elements (`BTreeSet`, `HashSet`): maps to the unit type.
use mathlib.Core.Path.{◌≡◌}
use mathlib.Core.Bool.{Bool, false, not, ◌||◌}
use mathlib.Core.List.{List, [], ◌∷◌, map}
use quilkin.Common.Tests.{if◌then◌else◌}
use quilkin.Common.Lists.{keep}
use quilkin.Common.Order.{Ord, same}
use quilkin.Common.Maps
use quilkin.Common.Maps.{Map, get, get-insert, get-remove}
use native.Mathlib.Omega.{arith}

abbrev pub Set {ℓ} : Type ℓ → Type ℓ
Set A = Map A (Unit {0})

module _ {ℓ} {A : Type ℓ} ⦃o : Ord A⦄ where
  abbrev pub contains : A → Set A → Bool
  contains a s = Maps.contains_key a s

  abbrev pub insert : A → Set A → Set A
  insert a s = Maps.insert a tt s

  abbrev pub remove : A → Set A → Set A
  remove a s = Maps.remove a s

  -- The elements in order.
  abbrev pub elements : Set A → List A
  elements s = map (λ e. e.0) s

  -- What `s` has and `t` lacks.
  abbrev pub difference : Set A → Set A → Set A
  difference s t = keep (λ e. not (contains e.0 t)) s

  abbrev pub of_list : List A → Set A
  of_list [] = []
  of_list (a ∷ as') = insert a (of_list as')

  pub contains-insert : (b a : A) (s : Set A) → contains b (insert a s) ≡ (same b a || contains b s)
  contains-insert b a s = ground (arith, get-insert b a tt s)

  pub contains-remove :
      (b a : A) (s : Set A) → contains b (remove a s) ≡ (if same b a then false else contains b s)
  contains-remove b a s = ground (arith, get-remove b a s)
