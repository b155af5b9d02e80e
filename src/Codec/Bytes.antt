-- ===== src/Codec/Bytes.antt =====
-- Numbers in big endian order (`to_be_bytes` and `from_be_bytes`), and slices read off a packet.
use native.Mathlib.Nat.{mod-lt}
use native.Mathlib.Omega.{div_any}
use quilkin.Common.{
  ℕ, zero, suc, ◌+◌, ◌*◌, ◌/◌, ◌%◌, ◌^◌, ◌<◌, ◌≡◌, refl, Option, none, some, [], ◌∷◌, ◌++◌, length,
  take, drop, All, leb, if◌then◌else◌, arith,
}
use quilkin.Net.Address.{Bytes}

-- The bytes of a number of `n` bytes.
unfoldable pub be_bytes : ℕ → ℕ → Bytes
be_bytes zero x = []
be_bytes (suc n) x = (x / 256 ^ n) ∷ be_bytes n (x % 256 ^ n)

unfoldable pub from_be : Bytes → ℕ
from_be [] = 0
from_be (b ∷ bs) = b * 256 ^ length bs + from_be bs

abbrev pub AllBytes : Bytes → Type 0
AllBytes bs = All (λ b. b < 256) bs

pub length-be_bytes : (n x : ℕ) → length (be_bytes n x) ≡ n
unfolding be_bytes
length-be_bytes zero x = refl
length-be_bytes (suc n) x = omega (arith, length-be_bytes n (x % 256 ^ n))

power_pos : (n : ℕ) → 0 < 256 ^ n
power_pos zero = omega arith
power_pos (suc n) = grind (arith, power_pos n)

pub from_be-be_bytes : (n x : ℕ) → x < 256 ^ n → from_be (be_bytes n x) ≡ x
unfolding be_bytes from_be
from_be-be_bytes zero x h = omega arith
from_be-be_bytes (suc n) x h =
    rw (length-be_bytes n (x % 256 ^ n), from_be-be_bytes n (x % 256 ^ n) (mod-lt x (power_pos n)))
      (grind (arith, div_any x (256 ^ n)))

digits : (b y k : ℕ) → y < k → ((b * k + y) / k ≡ b) × ((b * k + y) % k ≡ y)
digits b y k h = grind arith

from_be-lt : (bs : Bytes) → AllBytes bs → from_be bs < 256 ^ length bs
unfolding from_be
from_be-lt [] h = omega arith
from_be-lt (b ∷ bs) h = grind (arith, from_be-lt bs h.1)

pub be_bytes-from_be : (bs : Bytes) → AllBytes bs → be_bytes (length bs) (from_be bs) ≡ bs
unfolding be_bytes from_be
be_bytes-from_be [] h = refl
be_bytes-from_be (b ∷ bs) h =
    let d = digits b (from_be bs) (256 ^ length bs) (from_be-lt bs h.1) in
    rw (d.0, d.1, be_bytes-from_be bs h.1)

-- The next `n` bytes and those after them; `none` is a read past the end of the packet.
unfoldable pub read_slice : ℕ → Bytes → Option (Bytes × Bytes)
read_slice n bs = if leb n (length bs) then some (take n bs, drop n bs) else none

unfoldable pub read : Bytes → Option (ℕ × Bytes)
read [] = none
read (b ∷ bs) = some (b, bs)

pub read_slice-append :
    (n : ℕ) (xs ys : Bytes) → length xs ≡ n → read_slice n (xs ++ ys) ≡ some (xs, ys)
unfolding read_slice
read_slice-append zero [] ys h = ground arith
read_slice-append zero (x ∷ xs) ys h = absurd (omega arith)
read_slice-append (suc n) [] ys h = absurd (omega arith)
read_slice-append (suc n) (x ∷ xs) ys h = ground (arith, read_slice-append n xs ys)
