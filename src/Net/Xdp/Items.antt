-- ===== src/Net/Xdp/Items.antt =====
-- The items of the map of ports, in their buckets (src/net/io/nic/xdp/process.rs, `PortMap`).
use quilkin.Common.{
  ℕ, zero, suc, ◌-◌, ◌/◌, ◌%◌, ◌≡◌, ◌≤◌, ◌<◌, refl, ap, inl, inr, Option-cases, ◌&&◌, some, List,
  [], ◌∷◌, length, get_elem?, length-append, ◌==◌, if◌then◌else◌, arith,
}
use quilkin.Net.Xdp.{
  ephemeral_range_end, bucket_size, Item, zeroed, Buckets, replicate, zeroed_bucket, new_port_map,
  item_at, port_map_get, update_at, extended,
}
use quilkin.Net.Xdp.Ports.{
  changed, get_elem?-update_at, length-update_at, get_elem?-snoc, get_elem?-past, get_elem?-within,
}

-- Every bucket has its 112 items.
abbrev pub IsFull : Buckets → Type 0
IsFull buckets =
    (i : ℕ) (bucket : List Item) → get_elem? buckets i ≡ some bucket → length bucket ≡ bucket_size

get_elem?-replicate : (n k : ℕ) (x : Item) → k < n → get_elem? (replicate n x) k ≡ some x
get_elem?-replicate zero k x h = absurd (omega arith)
get_elem?-replicate (suc n) zero x h = refl
get_elem?-replicate (suc n) (suc k) x h = get_elem?-replicate n k x (omega arith)

length-replicate : (n : ℕ) (x : Item) → length (replicate n x) ≡ n
length-replicate zero x = refl
length-replicate (suc n) x = ap suc (length-replicate n x)

length-zeroed_bucket : length zeroed_bucket ≡ bucket_size
unfolding zeroed_bucket
length-zeroed_bucket = length-replicate bucket_size zeroed

pub new_port_map-IsFull : IsFull new_port_map
unfolding new_port_map
new_port_map-IsFull zero bucket e = ground (arith, e, length-zeroed_bucket)
new_port_map-IsFull (suc i) bucket e = ground (arith, e)

-- The item at an index after a write.
pub item_at-update_at :
    (b o j : ℕ) (f : Item → Item) (buckets : Buckets)
    → item_at j (update_at b (update_at o f) buckets) ≡ (
        if (b == j / bucket_size) && (o == j % bucket_size)
        then changed f (item_at j buckets)
        else item_at j buckets)
item_at-update_at b o j f buckets = elim (Option-cases (get_elem? buckets (j / bucket_size))) [
  | inl e ↦ ground (arith, get_elem?-update_at b (j / bucket_size) (update_at o f) buckets, e)
  | inr (bucket, e) ↦ ground (
    arith,
    get_elem?-update_at b (j / bucket_size) (update_at o f) buckets,
    get_elem?-update_at o (j % bucket_size) f bucket,
    e,
  )
]

-- A bucket more shows nothing more.
pub port_map_get-extended :
    (b q : ℕ) (buckets : Buckets) → port_map_get q (extended b buckets) ≡ port_map_get q buckets
unfolding port_map_get zeroed_bucket
port_map_get-extended b q buckets =
    let i = (q - ephemeral_range_end) / bucket_size in
    ground (
      arith,
      get_elem?-snoc buckets zeroed_bucket i,
      get_elem?-past buckets i,
      get_elem?-replicate bucket_size ((q - ephemeral_range_end) % bucket_size) zeroed,
    )

pub extended-IsFull : (b : ℕ) (buckets : Buckets) → IsFull buckets → IsFull (extended b buckets)
extended-IsFull b buckets h i bucket e =
    ground (arith, e, h i bucket, get_elem?-snoc buckets zeroed_bucket i, length-zeroed_bucket)

pub update_at-IsFull :
    (b o : ℕ) (f : Item → Item) (buckets : Buckets)
    → IsFull buckets
    → IsFull (update_at b (update_at o f) buckets)
update_at-IsFull b o f buckets h i bucket e = elim (Option-cases (get_elem? buckets i)) [
  | inl n ↦ ground (arith, e, n, get_elem?-update_at b i (update_at o f) buckets)
  | inr (old, s) ↦ ground (
    arith,
    e,
    s,
    h i old s,
    length-update_at o f old,
    get_elem?-update_at b i (update_at o f) buckets,
  )
]

-- The item is there, once its bucket is.
pub item_at-within :
    (j : ℕ) (buckets : Buckets)
    → IsFull buckets
    → j / bucket_size < length buckets
    → (item : Item) × (item_at j buckets ≡ some item)
item_at-within j buckets full h =
    let (bucket, e) = get_elem?-within buckets (j / bucket_size) h in
    let (item, s) =
      get_elem?-within bucket (j % bucket_size) (ground (arith, full (j / bucket_size) bucket e)) in
    (item, ground (arith, e, s))

pub length-extended :
    (b : ℕ) (buckets : Buckets)
    → b ≤ length buckets
    → (length buckets ≤ length (extended b buckets)) × (b < length (extended b buckets))
length-extended b buckets h = ground (arith, length-append buckets (zeroed_bucket ∷ []))

-- Of two ports in the range, the same bucket and the same place in it are the same port.
pub same_place :
    (p q : ℕ)
    → (p / bucket_size == q / bucket_size) && (p % bucket_size == q % bucket_size) ≡ (p == q)
same_place p q = ground arith
