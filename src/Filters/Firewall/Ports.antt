-- ===== src/Filters/Firewall/Ports.antt =====
-- Port ranges (src/filters/firewall/config.rs).
use quilkin.Common.{ℕ, ◌≤◌, ◌<◌, ◌≡◌, ◌↔◌, true, Option, none, some, ◌≢◌}
use quilkin.Filters.Firewall.{PortRange, invalid_range, Checked, ok, err, range_contains}

abbrev pub Holds : PortRange → ℕ → ℕ → Type 0
Holds range min max =
    (port : ℕ) → (range_contains range port ≡ true) ↔ ((min ≤ port) × (port < max))

abbrev pub RangeOutcome : ℕ → ℕ → Checked PortRange → Type 0
RangeOutcome min max (ok range) = (min < max) × Holds range min max
RangeOutcome min max (err e) = (max ≤ min) × (e ≡ invalid_range min max)

abbrev pub PortOutcome : ℕ → Option PortRange → Type 0
PortOutcome value (some range) =
    (value ≢ 65535) × ((port : ℕ) → (range_contains range port ≡ true) ↔ (port ≡ value))
PortOutcome value none = value ≡ 65535
