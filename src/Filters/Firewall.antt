-- ===== src/Filters/Firewall.antt =====
-- The firewall (src/filters/firewall.rs and src/filters/firewall/config.rs). The networks of the
-- ipnetwork crate are a parameter.
pub mod Rules
pub mod Ports
use quilkin.Common.{
  ℕ, ◌+◌, ◌-◌, ◌/◌, ◌%◌, ◌^◌, Bool, true, false, Option, none, some, List, [], ◌∷◌, any, ltb, leb,
  ◌==◌, ◌&&◌, if◌then◌else◌, is_some,
}
use quilkin.Net.Address.{Bytes, IpAddr, v4, v6, EndpointAddress, SocketAddr}
use quilkin.Filters.{
  ReadContext, WriteContext, FilterError, firewall_denied, io, Verdict, passed, failed,
  to_socket_addr,
}

-- `Ipv4Network` and `Ipv6Network`, and what `contains` answers on them.
pub record Networks : Type 1 where
  pub V4Network : Type 0
  pub V6Network : Type 0
  pub v4_contains : V4Network → ℕ → Bool
  pub v6_contains : V6Network → ℕ → Bool

pub data Action : Type 0 where
  allow deny : Action

pub record PortRange : Type 0 where
  pub start : ℕ
  pub end : ℕ

pub data PortRangeError : Type 0 where
  invalid_range : ℕ → ℕ → PortRangeError

pub data Checked (A : Type 0) : Type 0 where
  ok : A → Checked A
  err : PortRangeError → Checked A

unfoldable pub new_range : ℕ → ℕ → Checked PortRange
new_range min max =
    if leb max min then err (invalid_range min max) else ok (record { start = min; end = max })

abbrev pub range_contains : PortRange → ℕ → Bool
range_contains range port = leb range.start port && ltb port range.end

-- `From<u16>`: `value + 1` on 16 bits, and `unwrap`.
unfoldable pub range_of_port : ℕ → Option PortRange
unfolding new_range
range_of_port value = elim (new_range value ((value + 1) % 2 ^ 16)) [
  | ok range ↦ some range
  | err e ↦ none
]

-- `Ipv6Addr::to_ipv4`: an address that is compatible with, or mapped from, one of 32 bits.
abbrev pub to_ipv4 : ℕ → Option ℕ
to_ipv4 n =
    if n / 2 ^ 32 == 0
    then some (n % 2 ^ 32)
    else if n / 2 ^ 32 == 0xffff
    then some (n % 2 ^ 32)
    else none

module _ (nets : Networks) where
  pub data Cidr : Type 0 where
    v4_cidr : nets.V4Network → Cidr
    v6_cidr : nets.V6Network → Cidr

  -- `IpNetwork::contains` is false across the two versions.
  unfoldable pub cidr_contains : Cidr → IpAddr → Bool
  cidr_contains (v4_cidr n) (v4 a) = nets.v4_contains n a
  cidr_contains (v4_cidr n) (v6 a) = elim (to_ipv4 a) [
    | none ↦ false
    | some b ↦ nets.v4_contains n b
  ]
  cidr_contains (v6_cidr n) (v4 a) = false
  cidr_contains (v6_cidr n) (v6 a) = nets.v6_contains n a

  pub record Rule : Type 0 where
    pub action : Action
    pub sources : List Cidr
    pub ports : List PortRange

  unfoldable pub rule_contains : Rule → SocketAddr → Bool
  unfolding cidr_contains
  rule_contains rule address =
      if any (λ source. cidr_contains source address.ip) rule.sources
      then any (λ range. range_contains range address.port) rule.ports
      else false

  pub record Firewall : Type 0 where
    pub on_read : List Rule
    pub on_write : List Rule

  abbrev pub verdict : Action → Verdict
  verdict allow = passed
  verdict deny = failed firewall_denied

  -- The loop over the rules. The code resolves the address for each of them, with one answer.
  unfoldable pub check_rules : List Rule → Option SocketAddr → Verdict
  check_rules [] address = failed firewall_denied
  check_rules (rule ∷ rules) none = failed io
  check_rules (rule ∷ rules) (some address) =
      if rule_contains rule address then verdict rule.action else check_rules rules (some address)

  module _ (resolve : Bytes → Option IpAddr) where
    unfoldable pub firewall_read : {U R : Type 0} → Firewall → ReadContext U R → Verdict
    unfolding check_rules
    firewall_read firewall ctx = check_rules firewall.on_read (to_socket_addr resolve ctx.source)

    unfoldable pub firewall_write : Firewall → WriteContext → Verdict
    unfolding check_rules
    firewall_write firewall ctx = check_rules firewall.on_write (to_socket_addr resolve ctx.source)
