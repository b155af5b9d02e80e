-- ===== src/Filters/Firewall/Rules.antt =====
-- The rule that decides on a packet (src/filters/firewall.rs).
use quilkin.Common.{
  ◌≡◌, ◌↔◌, refl, sym, true, false, Option, some, List, [], ◌∷◌, ◌++◌, All, arith, Bool-cases, inl,
  inr,
}
use quilkin.Net.Address.{Bytes, IpAddr, SocketAddr}
use quilkin.Filters.{ReadContext, passed, to_socket_addr}
use quilkin.Filters.Firewall.{
  Networks, Action, allow, deny, Rule, Firewall, rule_contains, check_rules, firewall_read, verdict,
}

module _ (nets : Networks) where
  -- Some rule allows the address, and no rule before it contains the address.
  abbrev pub Allowed : List (Rule nets) → SocketAddr → Type 0
  Allowed rules address =
      (before : List (Rule nets)) × (rule : Rule nets) × (after : List (Rule nets)) × (rules
        ≡ before ++ rule ∷ after)
      × All (λ r. rule_contains nets r address ≡ false) before
      × (rule_contains nets rule address ≡ true)
      × (rule.action ≡ allow)

  allow_of : (a : Action) → verdict nets a ≡ passed → a ≡ allow
  allow_of allow h = refl
  allow_of deny h = cc

  Allowed-sound :
      (rules : List (Rule nets)) (address : SocketAddr)
      → check_rules nets rules (some address) ≡ passed
      → Allowed rules address
  unfolding check_rules
  Allowed-sound [] address h = cc
  Allowed-sound (rule ∷ rules) address h = elim (Bool-cases (rule_contains nets rule address)) [
    | inl here ↦ ([], rule, rules, refl, tt, here, allow_of rule.action (ground arith))
    | inr other ↦
        let (before, r, after, e, others, m, a) = Allowed-sound rules address (ground arith) in
        (rule ∷ before, r, after, rw e, (other, others), m, a)
  ]

  Allowed-complete :
      (before : List (Rule nets)) (rule : Rule nets) (after : List (Rule nets))
      (address : SocketAddr)
      → All (λ r. rule_contains nets r address ≡ false) before
      → rule_contains nets rule address ≡ true
      → rule.action ≡ allow
      → check_rules nets (before ++ rule ∷ after) (some address) ≡ passed
  unfolding check_rules
  Allowed-complete [] rule after address others m a = ground arith
  Allowed-complete (r ∷ before) rule after address others m a =
      ground (arith, Allowed-complete before rule after address others.1 m a)

  -- A packet whose source resolves passes the firewall exactly when the first rule that contains the
  -- source allows it.
  pub firewall_read_iff :
      {U R : Type 0} (resolve : Bytes → Option IpAddr) (firewall : Firewall nets)
      (ctx : ReadContext U R) (address : SocketAddr)
      → to_socket_addr resolve ctx.source ≡ some address
      → (firewall_read nets resolve firewall ctx ≡ passed) ↔ Allowed firewall.on_read address
  unfolding firewall_read
  firewall_read_iff resolve firewall ctx address e = (
    λ h. Allowed-sound firewall.on_read address (rw (sym e) h),
    λ (before, rule, after, split, others, m, a).
        rw (e, split) (Allowed-complete before rule after address others m a),
  )
