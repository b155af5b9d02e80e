-- ===== src/Net/Address.antt =====
-- Addresses (src/net/endpoint/address.rs, crates/types/src/endpoint.rs) and localities
-- (crates/xds/src/locality.rs), with the orders that their `derive` lines give.
use mathlib.Core.Logic.{◌⊎◌, inl, inr}
use quilkin.Common.{ℕ, ◌/◌, ◌%◌, ◌^◌, ◌≡◌, Option, List, ◌==◌, if◌then◌else◌, arith}
use quilkin.Common.Order.{Ord, ℕ_ord}
use quilkin.Common.Order.Derive.{pair_ord, sum_ord, list_ord, option_ord, ord_by}

-- A text or a slice of bytes, byte by byte.
abbrev pub Bytes : Type 0
Bytes = List ℕ

-- The standard library's address: its 32 or 128 bits as a number.
pub data IpAddr : Type 0 where
  v4 v6 : ℕ → IpAddr

pub data AddressKind : Type 0 where
  name : Bytes → AddressKind
  ip : IpAddr → AddressKind

pub record EndpointAddress : Type 0 where
  pub host : AddressKind
  pub port : ℕ

-- A socket address of the standard library.
pub record SocketAddr : Type 0 where
  pub ip : IpAddr
  pub port : ℕ

pub record Locality : Type 0 where
  pub buffer : Bytes
  pub region : ℕ
  pub zone : Option ℕ

instance unfoldable pub bytes_ord : Ord Bytes
bytes_ord = list_ord ℕ_ord

ip_key : IpAddr → ℕ ⊎ ℕ
ip_key (v4 n) = inl n
ip_key (v6 n) = inr n

ip_key_injective : (x y : IpAddr) → ip_key x ≡ ip_key y → x ≡ y
unfolding ip_key
ip_key_injective (v4 n) (v4 m) h = ground arith
ip_key_injective (v4 n) (v6 m) h = cc
ip_key_injective (v6 n) (v4 m) h = cc
ip_key_injective (v6 n) (v6 m) h = ground arith

instance unfoldable pub ip_ord : Ord IpAddr
unfolding ord_by sum_ord ip_key ip_key_injective
ip_ord = ord_by (sum_ord ℕ_ord ℕ_ord) ip_key ip_key_injective

kind_key : AddressKind → Bytes ⊎ IpAddr
kind_key (name s) = inl s
kind_key (ip a) = inr a

kind_key_injective : (x y : AddressKind) → kind_key x ≡ kind_key y → x ≡ y
unfolding kind_key
kind_key_injective (name s) (name t) h = ground arith
kind_key_injective (name s) (ip b) h = cc
kind_key_injective (ip a) (name t) h = cc
kind_key_injective (ip a) (ip b) h = ground arith

address_key : EndpointAddress → (Bytes ⊎ IpAddr) × ℕ
address_key a = (kind_key a.host, a.port)

address_key_injective : (x y : EndpointAddress) → address_key x ≡ address_key y → x ≡ y
unfolding address_key
address_key_injective x y h = ground (arith, kind_key_injective x.host y.host)

instance unfoldable pub address_ord : Ord EndpointAddress
unfolding ord_by pair_ord sum_ord list_ord bytes_ord ip_ord kind_key kind_key_injective address_key
    address_key_injective
address_ord = ord_by (pair_ord (sum_ord bytes_ord ip_ord) ℕ_ord) address_key address_key_injective

socket_key : SocketAddr → IpAddr × ℕ
socket_key a = (a.ip, a.port)

socket_key_injective : (x y : SocketAddr) → socket_key x ≡ socket_key y → x ≡ y
unfolding socket_key
socket_key_injective x y h = ground arith

instance unfoldable pub socket_ord : Ord SocketAddr
unfolding ord_by pair_ord ip_ord socket_key socket_key_injective
socket_ord = ord_by (pair_ord ip_ord ℕ_ord) socket_key socket_key_injective

locality_key : Locality → Bytes × (ℕ × Option ℕ)
locality_key l = (l.buffer, (l.region, l.zone))

locality_key_injective : (x y : Locality) → locality_key x ≡ locality_key y → x ≡ y
unfolding locality_key
locality_key_injective x y h = ground arith

instance unfoldable locality_ord : Ord Locality
unfolding ord_by pair_ord list_ord option_ord bytes_ord locality_key locality_key_injective
locality_ord =
    ord_by (pair_ord bytes_ord (pair_ord ℕ_ord (option_ord ℕ_ord))) locality_key
      locality_key_injective

-- A cluster's key: no locality, or one.
instance unfoldable pub locality_key_ord : Ord (Option Locality)
unfolding option_ord locality_ord
locality_key_ord = option_ord locality_ord

instance unfoldable pub contributor_ord : Ord (Option IpAddr)
unfolding option_ord ip_ord
contributor_ord = option_ord ip_ord

-- The standard library's `to_canonical`: an IPv4 address that is mapped into IPv6 is read as IPv4.
unfoldable pub to_canonical : IpAddr → IpAddr
to_canonical (v4 n) = v4 n
to_canonical (v6 n) = if n / 2 ^ 32 == 65535 then v4 (n % 2 ^ 32) else v6 n
