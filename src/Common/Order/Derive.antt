-- ===== src/Common/Order/Derive.antt =====
-- The orders that `derive(Ord)` and the standard library give: lexicographic on pairs and lists, by
-- constructor on options and sums, and the order of a type that is read as another.
use Prim.Native.Nat.{Ordering}
use mathlib.Core.Path.{◌≡◌, refl, ap}
use mathlib.Core.Logic.{◌⊎◌, inl, inr}
use mathlib.Core.List.{List, [], ◌∷◌}
use mathlib.Core.Option.{Option, none, some}
use native.Mathlib.Omega.{arith}
use mathlib.Core.Bool.{false}
use quilkin.Common.Tests.{if◌then◌else◌}
use quilkin.Common.Order.{Ord, same}

-- The first difference decides.
abbrev then_cmp : Ordering → Ordering → Ordering
then_cmp Ordering.eq c = c
then_cmp c d = c

module _ {ℓ κ} {A : Type ℓ} {B : Type κ} (a : Ord A) (b : Ord B) where
  pair_cmp : A × B → A × B → Ordering
  pair_cmp (x, y) (z, w) = then_cmp (a.cmp x z) (b.cmp y w)

  pair_refl : (p : A × B) → pair_cmp p p ≡ Ordering.eq
  unfolding pair_cmp
  pair_refl (x, y) = ground (arith, a.cmp_refl x, b.cmp_refl y)

  pair_eq : (p q : A × B) → pair_cmp p q ≡ Ordering.eq → p ≡ q
  unfolding pair_cmp
  pair_eq (x, y) (z, w) h = ground (arith, a.eq_of_cmp x z, b.eq_of_cmp y w)

  pair_lt : (p q : A × B) → pair_cmp p q ≡ Ordering.lt → pair_cmp q p ≡ Ordering.gt
  unfolding pair_cmp
  pair_lt (x, y) (z, w) h =
      ground (arith, a.eq_of_cmp x z, a.cmp_refl x, a.cmp_lt x z, b.cmp_lt y w)

  pair_gt : (p q : A × B) → pair_cmp p q ≡ Ordering.gt → pair_cmp q p ≡ Ordering.lt
  unfolding pair_cmp
  pair_gt (x, y) (z, w) h =
      ground (arith, a.eq_of_cmp x z, a.cmp_refl x, a.cmp_gt x z, b.cmp_gt y w)

  pair_trans :
      (p q r : A × B)
      → pair_cmp p q ≡ Ordering.lt
      → pair_cmp q r ≡ Ordering.lt
      → pair_cmp p r ≡ Ordering.lt
  unfolding pair_cmp
  pair_trans (x, y) (z, w) (u, v) h k =
      ground
        (arith, a.eq_of_cmp x z, a.eq_of_cmp z u, a.cmp_refl x, a.lt_trans x z u, b.lt_trans y w v)

  unfoldable pub pair_ord : Ord (A × B)
  unfolding pair_cmp pair_refl pair_eq pair_lt pair_gt pair_trans
  pair_ord = record {
    cmp = pair_cmp;
    cmp_refl = pair_refl;
    eq_of_cmp = pair_eq;
    cmp_lt = pair_lt;
    cmp_gt = pair_gt;
    lt_trans = pair_trans;
  }

  pub same_pair :
      (p q : A × B)
      → same ⦃o = pair_ord⦄ p q ≡ (if same ⦃o = a⦄ p.0 q.0 then same ⦃o = b⦄ p.1 q.1 else false)
  unfolding pair_ord pair_cmp
  same_pair (x, y) (z, w) = ground arith

  sum_cmp : A ⊎ B → A ⊎ B → Ordering
  sum_cmp (inl x) (inl y) = a.cmp x y
  sum_cmp (inl x) (inr y) = Ordering.lt
  sum_cmp (inr x) (inl y) = Ordering.gt
  sum_cmp (inr x) (inr y) = b.cmp x y

  sum_refl : (p : A ⊎ B) → sum_cmp p p ≡ Ordering.eq
  unfolding sum_cmp
  sum_refl (inl x) = a.cmp_refl x
  sum_refl (inr x) = b.cmp_refl x

  sum_eq : (p q : A ⊎ B) → sum_cmp p q ≡ Ordering.eq → p ≡ q
  unfolding sum_cmp
  sum_eq (inl x) (inl y) h = ap inl (a.eq_of_cmp x y h)
  sum_eq (inl x) (inr y) h = cc
  sum_eq (inr x) (inl y) h = cc
  sum_eq (inr x) (inr y) h = ap inr (b.eq_of_cmp x y h)

  sum_lt : (p q : A ⊎ B) → sum_cmp p q ≡ Ordering.lt → sum_cmp q p ≡ Ordering.gt
  unfolding sum_cmp
  sum_lt (inl x) (inl y) h = a.cmp_lt x y h
  sum_lt (inl x) (inr y) h = refl
  sum_lt (inr x) (inl y) h = cc
  sum_lt (inr x) (inr y) h = b.cmp_lt x y h

  sum_gt : (p q : A ⊎ B) → sum_cmp p q ≡ Ordering.gt → sum_cmp q p ≡ Ordering.lt
  unfolding sum_cmp
  sum_gt (inl x) (inl y) h = a.cmp_gt x y h
  sum_gt (inl x) (inr y) h = cc
  sum_gt (inr x) (inl y) h = refl
  sum_gt (inr x) (inr y) h = b.cmp_gt x y h

  sum_trans :
      (p q r : A ⊎ B)
      → sum_cmp p q ≡ Ordering.lt
      → sum_cmp q r ≡ Ordering.lt
      → sum_cmp p r ≡ Ordering.lt
  unfolding sum_cmp
  sum_trans (inl x) (inl y) (inl z) h k = a.lt_trans x y z h k
  sum_trans (inr x) (inr y) (inr z) h k = b.lt_trans x y z h k
  sum_trans p q r h k = ground arith

  unfoldable pub sum_ord : Ord (A ⊎ B)
  unfolding sum_cmp sum_refl sum_eq sum_lt sum_gt sum_trans
  sum_ord = record {
    cmp = sum_cmp;
    cmp_refl = sum_refl;
    eq_of_cmp = sum_eq;
    cmp_lt = sum_lt;
    cmp_gt = sum_gt;
    lt_trans = sum_trans;
  }

-- The order of a type whose values are read, without loss, as values of an ordered type.
unfoldable pub ord_by {ℓ κ} :
    {A : Type ℓ} {B : Type κ} (b : Ord B) (f : A → B) → ((x y : A) → f x ≡ f y → x ≡ y) → Ord A
ord_by b f inj = record {
  cmp = λ x y. b.cmp (f x) (f y);
  cmp_refl = λ x. b.cmp_refl (f x);
  eq_of_cmp = λ x y h. inj x y (b.eq_of_cmp (f x) (f y) h);
  cmp_lt = λ x y h. b.cmp_lt (f x) (f y) h;
  cmp_gt = λ x y h. b.cmp_gt (f x) (f y) h;
  lt_trans = λ x y z h k. b.lt_trans (f x) (f y) (f z) h k;
}

module _ {ℓ} {A : Type ℓ} (a : Ord A) where
  list_cmp : List A → List A → Ordering
  list_cmp [] [] = Ordering.eq
  list_cmp [] (y ∷ ys) = Ordering.lt
  list_cmp (x ∷ xs) [] = Ordering.gt
  list_cmp (x ∷ xs) (y ∷ ys) = then_cmp (a.cmp x y) (list_cmp xs ys)

  list_refl : (xs : List A) → list_cmp xs xs ≡ Ordering.eq
  unfolding list_cmp
  list_refl [] = refl
  list_refl (x ∷ xs) = ground (arith, a.cmp_refl x, list_refl xs)

  list_eq : (xs ys : List A) → list_cmp xs ys ≡ Ordering.eq → xs ≡ ys
  unfolding list_cmp
  list_eq [] [] h = refl
  list_eq [] (y ∷ ys) h = cc
  list_eq (x ∷ xs) [] h = cc
  list_eq (x ∷ xs) (y ∷ ys) h = ground (arith, a.eq_of_cmp x y, list_eq xs ys)

  list_lt : (xs ys : List A) → list_cmp xs ys ≡ Ordering.lt → list_cmp ys xs ≡ Ordering.gt
  unfolding list_cmp
  list_lt [] [] h = cc
  list_lt [] (y ∷ ys) h = refl
  list_lt (x ∷ xs) [] h = cc
  list_lt (x ∷ xs) (y ∷ ys) h =
      ground (arith, a.eq_of_cmp x y, a.cmp_refl x, a.cmp_lt x y, list_lt xs ys)

  list_gt : (xs ys : List A) → list_cmp xs ys ≡ Ordering.gt → list_cmp ys xs ≡ Ordering.lt
  unfolding list_cmp
  list_gt [] [] h = cc
  list_gt [] (y ∷ ys) h = cc
  list_gt (x ∷ xs) [] h = refl
  list_gt (x ∷ xs) (y ∷ ys) h =
      ground (arith, a.eq_of_cmp x y, a.cmp_refl x, a.cmp_gt x y, list_gt xs ys)

  list_trans :
      (xs ys zs : List A)
      → list_cmp xs ys ≡ Ordering.lt
      → list_cmp ys zs ≡ Ordering.lt
      → list_cmp xs zs ≡ Ordering.lt
  unfolding list_cmp
  list_trans (x ∷ xs) (y ∷ ys) (z ∷ zs) h k =
      ground (
        arith,
        a.eq_of_cmp x y,
        a.eq_of_cmp y z,
        a.cmp_refl x,
        a.lt_trans x y z,
        list_trans xs ys zs,
      )
  list_trans [] ys zs h k = ground arith
  list_trans xs ys zs h k = ground arith

  unfoldable pub list_ord : Ord (List A)
  unfolding list_cmp list_refl list_eq list_lt list_gt list_trans
  list_ord = record {
    cmp = list_cmp;
    cmp_refl = list_refl;
    eq_of_cmp = list_eq;
    cmp_lt = list_lt;
    cmp_gt = list_gt;
    lt_trans = list_trans;
  }

  as_list : Option A → List A
  as_list none = []
  as_list (some x) = x ∷ []

  as_list_injective : (x y : Option A) → as_list x ≡ as_list y → x ≡ y
  unfolding as_list
  as_list_injective none none h = refl
  as_list_injective none (some y) h = cc
  as_list_injective (some x) none h = cc
  as_list_injective (some x) (some y) h = ground arith

  -- `None` comes first.
  unfoldable pub option_ord : Ord (Option A)
  unfolding ord_by list_ord as_list as_list_injective
  option_ord = ord_by list_ord as_list as_list_injective
