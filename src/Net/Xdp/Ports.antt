-- ===== src/Net/Xdp/Ports.antt =====
-- The map from ports to clients of the XDP backend (src/net/io/nic/xdp/process.rs, `PortMap`).
use quilkin.Common.{
  ℕ, zero, suc, ◌/◌, ◌^◌, ◌≡◌, ◌≢◌, ◌≤◌, ◌<◌, refl, ap, Option, none, some, List, [], ◌∷◌, ◌++◌,
  length, get_elem?, ltb, ◌==◌, if◌then◌else◌, arith,
}
use quilkin.Net.Address.{IpAddr, v4, v6, SocketAddr}
use quilkin.Net.Xdp.{Item, set_octets, item_set, item_get, update_at}

-- An address that a packet can come from: with 32 or 128 bits, not multicast, and with a port.
abbrev IsIp : IpAddr → Type 0
IsIp (v4 n) = n < 2 ^ 32
IsIp (v6 n) = (n < 2 ^ 128) × (n / 2 ^ 120 ≢ 255)

abbrev pub IsClient : SocketAddr → Type 0
IsClient a = IsIp a.ip × (a.port ≢ 0)

-- What is set is got back, whatever the item was before.
pub item_get-item_set : (a : SocketAddr) (item : Item) → IsIp a.ip → item_get (item_set a item) ≡ a
unfolding item_get item_set set_octets
item_get-item_set a item h = got a.ip a.port item h
  where
    got :
        (ip : IpAddr) (port : ℕ) (item : Item)
        → IsIp ip
        → item_get (item_set (record { ip = ip; port = port }) item)
          ≡ record { ip = ip; port = port }
    got (v4 n) port item h = ground (arith, h)
    got (v6 n) port item h = ground (arith, h)

module _ {A : Type 0} where
  abbrev pub changed : (A → A) → Option A → Option A
  changed f none = none
  changed f (some x) = some (f x)

  pub get_elem?-update_at :
      (i j : ℕ) (f : A → A) (xs : List A)
      → get_elem? (update_at i f xs) j
        ≡ (if i == j then changed f (get_elem? xs j) else get_elem? xs j)
  get_elem?-update_at i j f [] = ground arith
  get_elem?-update_at zero zero f (x ∷ xs) = refl
  get_elem?-update_at zero (suc j) f (x ∷ xs) = ground arith
  get_elem?-update_at (suc i) zero f (x ∷ xs) = ground arith
  get_elem?-update_at (suc i) (suc j) f (x ∷ xs) = ground (arith, get_elem?-update_at i j f xs)

  pub length-update_at : (i : ℕ) (f : A → A) (xs : List A) → length (update_at i f xs) ≡ length xs
  length-update_at i f [] = refl
  length-update_at zero f (x ∷ xs) = refl
  length-update_at (suc i) f (x ∷ xs) = ap suc (length-update_at i f xs)

  pub get_elem?-snoc :
      (xs : List A) (x : A) (j : ℕ)
      → get_elem? (xs ++ x ∷ []) j
        ≡ (if ltb j (length xs) then get_elem? xs j else if j == length xs then some x else none)
  get_elem?-snoc [] x zero = refl
  get_elem?-snoc [] x (suc j) = ground arith
  get_elem?-snoc (y ∷ xs) x zero = ground arith
  get_elem?-snoc (y ∷ xs) x (suc j) = ground (arith, get_elem?-snoc xs x j)

  pub get_elem?-past : (xs : List A) (j : ℕ) → length xs ≤ j → get_elem? xs j ≡ none
  get_elem?-past [] j h = refl
  get_elem?-past (x ∷ xs) zero h = absurd (omega arith)
  get_elem?-past (x ∷ xs) (suc j) h = get_elem?-past xs j (omega arith)

  pub get_elem?-within : (xs : List A) (j : ℕ) → j < length xs → (x : A) × (get_elem? xs j ≡ some x)
  get_elem?-within [] j h = absurd (omega arith)
  get_elem?-within (x ∷ xs) zero h = (x, refl)
  get_elem?-within (x ∷ xs) (suc j) h = get_elem?-within xs j (omega arith)
