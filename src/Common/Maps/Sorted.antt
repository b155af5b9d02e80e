-- ===== src/Common/Maps/Sorted.antt =====
-- Sorted maps: order, lengths and lookups.
use Prim.Native.Nat.{suc, Ordering}
use mathlib.Core.Path.{◌≡◌, refl}
use mathlib.Core.Logic.{◌≢◌}
use mathlib.Core.Bool.{Bool}
use mathlib.Core.List.{[], ◌∷◌}
use mathlib.Core.Option.{Option, none, some}
use native.Mathlib.Omega.{arith}
use quilkin.Common.Tests.{if◌then◌else◌}
use quilkin.Common.Lists.{length, keep}
use quilkin.Common.Order.{Ord}
use quilkin.Common.Maps.{Map, get, insert, remove, contains_key}

abbrev pub filtered {κ} : {V : Type κ} → (V → Bool) → Option V → Option V
filtered p none = none
filtered p (some v) = if p v then some v else none

module _ {ℓ κ} {K : Type ℓ} {V : Type κ} ⦃o : Ord K⦄ where
  -- The keys rise along the list, from above `k`.
  abbrev pub Above : K → Map K V → Type 0
  Above k [] = Unit {0}
  Above k ((j, v) ∷ m) = (o.cmp k j ≡ Ordering.lt) × Above j m

  abbrev pub IsSorted : Map K V → Type 0
  IsSorted [] = Unit {0}
  IsSorted ((k, v) ∷ m) = Above k m

  pub Above-IsSorted : (k : K) (m : Map K V) → Above k m → IsSorted m
  Above-IsSorted k [] h = tt
  Above-IsSorted k ((j, v) ∷ m) h = h.1

  pub get-Above : (j k : K) (m : Map K V) → Above k m → o.cmp j k ≢ Ordering.gt → get j m ≡ none
  unfolding get
  get-Above j k [] h n = refl
  get-Above j k ((i, v) ∷ m) h n =
      ground (arith, o.eq_of_cmp j k, o.lt_trans j k i, get-Above j i m h.1)

  pub insert-Above :
      (i k : K) (v : V) (m : Map K V) → o.cmp i k ≡ Ordering.lt → Above i m → Above i (insert k v m)
  unfolding insert
  insert-Above i k v [] c h = ground arith
  insert-Above i k v ((j, w) ∷ m) c h =
      ground (arith, o.eq_of_cmp k j, o.cmp_gt k j, insert-Above j k v m)

  pub insert-IsSorted : (k : K) (v : V) (m : Map K V) → IsSorted m → IsSorted (insert k v m)
  unfolding insert
  insert-IsSorted k v [] h = tt
  insert-IsSorted k v ((j, w) ∷ m) h =
      ground (arith, o.eq_of_cmp k j, o.cmp_gt k j, insert-Above j k v m)

  Above-trans : (i j : K) (m : Map K V) → o.cmp i j ≡ Ordering.lt → Above j m → Above i m
  Above-trans i j [] c h = tt
  Above-trans i j ((k, v) ∷ m) c h = (o.lt_trans i j k c h.0, h.1)

  remove-Above : (i k : K) (m : Map K V) → Above i m → Above i (remove k m)
  unfolding remove
  remove-Above i k [] h = tt
  remove-Above i k ((j, w) ∷ m) h =
      ground (arith, remove-Above j k m h.1, remove-Above i k m (Above-trans i j m h.0 h.1))

  pub remove-IsSorted : (k : K) (m : Map K V) → IsSorted m → IsSorted (remove k m)
  unfolding remove
  remove-IsSorted k [] h = tt
  remove-IsSorted k ((j, w) ∷ m) h =
      ground (arith, remove-Above j k m, remove-IsSorted k m (Above-IsSorted j m h))

  keep-Above : (i : K) (p : K × V → Bool) (m : Map K V) → Above i m → Above i (keep p m)
  keep-Above i p [] h = tt
  keep-Above i p ((j, w) ∷ m) h =
      ground (arith, keep-Above j p m h.1, keep-Above i p m (Above-trans i j m h.0 h.1))

  pub keep-IsSorted : (p : K × V → Bool) (m : Map K V) → IsSorted m → IsSorted (keep p m)
  keep-IsSorted p [] h = tt
  keep-IsSorted p ((j, w) ∷ m) h =
      ground (arith, keep-Above j p m, keep-IsSorted p m (Above-IsSorted j m h))

  pub remove_absent : (k : K) (m : Map K V) → get k m ≡ none → remove k m ≡ m
  unfolding get remove
  remove_absent k [] h = refl
  remove_absent k ((j, w) ∷ m) h = ground (arith, remove_absent k m)

  pub get-head : (j : K) (m : Map K V) → Above j m → get j m ≡ none
  get-head j m h = get-Above j j m h (λ e. cc (o.cmp_refl j))

  -- An insertion adds an entry exactly when the key is new.
  pub length-insert :
      (k : K) (v : V) (m : Map K V)
      → IsSorted m
      → length (insert k v m) ≡ (if contains_key k m then length m else suc (length m))
  unfolding get insert
  length-insert k v [] h = refl
  length-insert k v ((j, w) ∷ m) h =
      ground (arith, length-insert k v m (Above-IsSorted j m h), get-Above k j m h)

  -- A removal drops one entry exactly when the key is there.
  pub length-remove :
      (k : K) (m : Map K V)
      → IsSorted m
      → length m ≡ (if contains_key k m then suc (length (remove k m)) else length (remove k m))
  unfolding get remove
  length-remove k [] h = refl
  length-remove k ((j, w) ∷ m) h = ground (
    arith,
    o.eq_of_cmp k j,
    length-remove k m (Above-IsSorted j m h),
    get-head j m h,
    remove_absent k m,
  )

  pub get-keep :
      (k : K) (p : V → Bool) (m : Map K V)
      → IsSorted m
      → get k (keep (λ e. p e.1) m) ≡ filtered p (get k m)
  unfolding get
  get-keep k p [] h = refl
  get-keep k p ((j, w) ∷ m) h =
      ground (arith, o.eq_of_cmp k j, get-keep k p m (Above-IsSorted j m h), get-head j m h)

  heads_agree :
      (k j : K) (v w : V) (m n : Map K V)
      → Above k m
      → Above j n
      → ((i : K) → get i ((k, v) ∷ m) ≡ get i ((j, w) ∷ n))
      → (k ≡ j) × (v ≡ w)
  unfolding get
  heads_agree k j v w m n h l agree = ground (
    arith,
    o.eq_of_cmp k j,
    agree k,
    agree j,
    o.cmp_refl k,
    o.cmp_refl j,
    get-Above k j n l,
    get-Above j k m h,
    o.cmp_gt k j,
  )

  tails_agree :
      (k j : K) (v w : V) (m n : Map K V)
      → Above k m
      → Above j n
      → ((i : K) → get i ((k, v) ∷ m) ≡ get i ((j, w) ∷ n))
      → (i : K) → get i m ≡ get i n
  unfolding get
  tails_agree k j v w m n h l agree i = ground (
    arith,
    heads_agree k j v w m n h l agree,
    o.eq_of_cmp i k,
    o.cmp_refl k,
    agree i,
    get-head k m h,
    get-head j n l,
  )

  -- Two sorted maps with the same lookups are one map.
  pub eq_of_get : (m n : Map K V) → IsSorted m → IsSorted n → ((k : K) → get k m ≡ get k n) → m ≡ n
  unfolding get
  eq_of_get [] [] h l agree = refl
  eq_of_get [] ((j, w) ∷ n) h l agree = ground (arith, agree j, o.cmp_refl j)
  eq_of_get ((k, v) ∷ m) [] h l agree = ground (arith, agree k, o.cmp_refl k)
  eq_of_get ((k, v) ∷ m) ((j, w) ∷ n) h l agree = cc (
    (heads_agree k j v w m n h l agree).0,
    (heads_agree k j v w m n h l agree).1,
    eq_of_get m n (Above-IsSorted k m h) (Above-IsSorted j n l) (tails_agree k j v w m n h l agree),
  )
