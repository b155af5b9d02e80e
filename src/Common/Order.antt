-- ===== src/Common/Order.antt =====
-- Ordered keys: what Rust's `Ord` promises.
pub mod Derive
use Prim.Native.Nat.{ℕ, compare, Ordering}
use mathlib.Core.Path.{◌≡◌, refl}
use mathlib.Core.Logic.{◌≢◌}
use mathlib.Core.Bool.{Bool, true, false}
use native.Mathlib.Omega.{arith}

pub record Ord {ℓ} (K : Type ℓ) : Type ℓ where
  pub cmp : K → K → Ordering
  pub cmp_refl : (a : K) → cmp a a ≡ Ordering.eq
  pub eq_of_cmp : (a b : K) → cmp a b ≡ Ordering.eq → a ≡ b
  pub cmp_lt : (a b : K) → cmp a b ≡ Ordering.lt → cmp b a ≡ Ordering.gt
  pub cmp_gt : (a b : K) → cmp a b ≡ Ordering.gt → cmp b a ≡ Ordering.lt
  pub lt_trans : (a b c : K) → cmp a b ≡ Ordering.lt → cmp b c ≡ Ordering.lt → cmp a c ≡ Ordering.lt

abbrev pub same {ℓ} : {K : Type ℓ} ⦃o : Ord K⦄ → K → K → Bool
same ⦃o⦄ a b = elim (o.cmp a b) [ Ordering.eq ↦ true | _ ↦ false ]

module _ {ℓ} {K : Type ℓ} ⦃o : Ord K⦄ where
  pub same→eq : (a b : K) → same a b ≡ true → a ≡ b
  same→eq a b h = ground (arith, o.eq_of_cmp a b)

  pub same_self : (a : K) → same a a ≡ true
  same_self a = ground (arith, o.cmp_refl a)

  pub same-ne : (a b : K) → same a b ≡ false → a ≢ b
  same-ne a b h e = ground (arith, o.cmp_refl a)

pub ℕ_cmp_refl : (a : ℕ) → compare a a ≡ Ordering.eq
ℕ_cmp_refl a = ground arith

pub ℕ_eq_of_cmp : (a b : ℕ) → compare a b ≡ Ordering.eq → a ≡ b
ℕ_eq_of_cmp a b h = ground arith

pub ℕ_cmp_lt : (a b : ℕ) → compare a b ≡ Ordering.lt → compare b a ≡ Ordering.gt
ℕ_cmp_lt a b h = ground arith

pub ℕ_cmp_gt : (a b : ℕ) → compare a b ≡ Ordering.gt → compare b a ≡ Ordering.lt
ℕ_cmp_gt a b h = ground arith

pub ℕ_lt_trans :
    (a b c : ℕ) → compare a b ≡ Ordering.lt → compare b c ≡ Ordering.lt → compare a c ≡ Ordering.lt
ℕ_lt_trans a b c h k = ground arith

instance abbrev pub ℕ_ord : Ord ℕ
ℕ_ord = record {
  cmp = compare;
  cmp_refl = ℕ_cmp_refl;
  eq_of_cmp = ℕ_eq_of_cmp;
  cmp_lt = ℕ_cmp_lt;
  cmp_gt = ℕ_cmp_gt;
  lt_trans = ℕ_lt_trans;
}
