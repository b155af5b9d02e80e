-- ===== src/Codec/Qcmp/Nonces.antt =====
-- `NoncePool` of src/codec/qcmp.rs: the nonces that are free, and the leases that are out. The index
-- that `lease` draws at random is an argument.
use quilkin.Common.{
  ℕ, zero, suc, ◌+◌, ◌<◌, ◌≡◌, refl, true, Option, none, some, List, [], ◌∷◌, ◌++◌, if◌then◌else◌,
  length, get_elem?, ltb, ◌==◌, arith, inl, inr, Option-cases, is_some,
}

pub record NoncePool : Type 0 where
  pub nonces : List ℕ
  pub leased : List ℕ

abbrev pub u8_max : ℕ
u8_max = 255

-- `for i in 0..n`
unfoldable pub push_below : ℕ → List ℕ
push_below zero = []
push_below (suc n) = push_below n ++ n ∷ []

unfoldable pub new_pool : NoncePool
unfolding push_below
new_pool = record { nonces = push_below u8_max; leased = [] }

-- The last element put in the place of the one at the index.
abbrev put_at : List ℕ → ℕ → ℕ → List ℕ
put_at [] i v = []
put_at (x ∷ xs) zero v = v ∷ xs
put_at (x ∷ xs) (suc i) v = x ∷ put_at xs i v

abbrev split_last : ℕ → List ℕ → List ℕ × ℕ
split_last x [] = ([], x)
split_last x (y ∷ ys) = let (init, last) = split_last y ys in (x ∷ init, last)

unfoldable pub swap_remove : ℕ → List ℕ → Option (ℕ × List ℕ)
swap_remove i [] = none
swap_remove i (x ∷ xs) =
    let (init, last) = split_last x xs in
    if i == length init
    then some (last, init)
    else elim (get_elem? init i) [ none ↦ none | some v ↦ some (v, put_at init i last) ]

-- `none` for the nonce when all are out. An index that is out of range does not occur.
unfoldable pub lease : ℕ → NoncePool → Option ℕ × NoncePool
unfolding swap_remove
lease index pool = elim (swap_remove index pool.nonces) [
  | none ↦ (none, pool)
  | some (nonce, rest) ↦ (some nonce, record { nonces = rest; leased = nonce ∷ pool.leased })
]

abbrev take_out : ℕ → List ℕ → List ℕ
take_out n [] = []
take_out n (x ∷ xs) = if n == x then xs else x ∷ take_out n xs

-- `NoncePool::drop` of a lease: its nonce goes back.
unfoldable pub drop_lease : ℕ → NoncePool → NoncePool
drop_lease nonce pool = record {
  nonces = pool.nonces ++ nonce ∷ [];
  leased = take_out nonce pool.leased;
}

abbrev pub count : ℕ → List ℕ → ℕ
count n [] = 0
count n (x ∷ xs) = (if n == x then 1 else 0) + count n xs

-- What becomes of a pool: leases at any index in range, and drops of leases that are out.
pub data Reaches (p : NoncePool) : NoncePool → Type 0 where
  here : Reaches p p
  leases : (q : NoncePool) (index : ℕ) → Reaches p q → Reaches p (lease index q).1
  drops :
      (q : NoncePool) (nonce : ℕ)
      → Reaches p q
      → 0 < count nonce q.leased
      → Reaches p (drop_lease nonce q)

count-append : (n : ℕ) (xs ys : List ℕ) → count n (xs ++ ys) ≡ count n xs + count n ys
count-append n [] ys = omega arith
count-append n (x ∷ xs) ys = omega (arith, count-append n xs ys)

count-push_below : (n k : ℕ) → count n (push_below k) ≡ (if ltb n k then 1 else 0)
unfolding push_below
count-push_below n zero = ground arith
count-push_below n (suc k) =
    ground (arith, count-push_below n k, count-append n (push_below k) (k ∷ []))

count-split_last :
    (n x : ℕ) (xs : List ℕ)
    → count n (x ∷ xs) ≡ count n (split_last x xs).0 + count n ((split_last x xs).1 ∷ [])
count-split_last n x [] = omega arith
count-split_last n x (y ∷ ys) = omega (arith, count-split_last n y ys)

count-put_at :
    (n : ℕ) (xs : List ℕ) (i v w : ℕ)
    → get_elem? xs i ≡ some v
    → count n (put_at xs i w) + count n (v ∷ []) ≡ count n xs + count n (w ∷ [])
count-put_at n [] i v w e = cc
count-put_at n (x ∷ xs) zero v w e = ground arith
count-put_at n (x ∷ xs) (suc i) v w e = ground (arith, count-put_at n xs i v w)

count-swap_remove :
    (n i v : ℕ) (xs rest : List ℕ)
    → swap_remove i xs ≡ some (v, rest)
    → count n xs ≡ count n (v ∷ rest)
unfolding swap_remove
count-swap_remove n i v [] rest e = cc
count-swap_remove n i v (x ∷ xs) rest e =
    let init = (split_last x xs).0 in
    let last = (split_last x xs).1 in
    ground (arith, count-split_last n x xs, count-put_at n init i v last)

count-take_out :
    (n m : ℕ) (xs : List ℕ)
    → 0 < count m xs
    → count n xs ≡ count n (take_out m xs) + count n (m ∷ [])
count-take_out n m [] h = absurd (omega arith)
count-take_out n m (x ∷ xs) h = ground (arith, count-take_out n m xs)

-- However leases are taken from a new pool and dropped, each nonce below 255 is held exactly
-- once, either free or by one lease, and no other number is held at all.
pub nonce_held_once :
    (pool : NoncePool) (n : ℕ)
    → Reaches new_pool pool
    → count n pool.nonces + count n pool.leased ≡ (if ltb n u8_max then 1 else 0)
unfolding new_pool lease drop_lease
nonce_held_once pool n Reaches.here = omega (arith, count-push_below n u8_max)
nonce_held_once pool n (Reaches.leases q index r) =
    elim (Option-cases (swap_remove index q.nonces)) [
      | inl e ↦ ground (arith, e, nonce_held_once q n r)
      | inr (v, e) ↦
          ground (arith, e, nonce_held_once q n r, count-swap_remove n index v.0 q.nonces v.1)
    ]
nonce_held_once pool n (Reaches.drops q nonce r out) = ground (
  arith,
  nonce_held_once q n r,
  count-append n q.nonces (nonce ∷ []),
  count-take_out n nonce q.leased,
)

length-split_last : (x : ℕ) (xs : List ℕ) → length (split_last x xs).0 ≡ length xs
length-split_last x [] = refl
length-split_last x (y ∷ ys) = omega (arith, length-split_last y ys)

in_range : (xs : List ℕ) (i : ℕ) → i < length xs → is_some (get_elem? xs i) ≡ true
in_range [] i h = absurd (omega arith)
in_range (x ∷ xs) zero h = refl
in_range (x ∷ xs) (suc i) h = in_range xs i (omega arith)
