-- ===== src/Config/Datacenters.antt =====
-- `DatacenterMap` (src/config/datacenter.rs), whose version tells its watchers of a change
-- (src/config/watch.rs). The version has 64 bits.
use quilkin.Common.{ℕ, ◌+◌, ◌%◌, ◌^◌, Bool, not, none, some, List, [], ◌∷◌, ◌++◌, ◌==◌}
use quilkin.Common.Maps
use quilkin.Net.Address.{IpAddr, SocketAddr, ip_ord}
use quilkin.Config.{Datacenter, DatacenterMap}

abbrev bump : ℕ → ℕ
bump version = (version + 1) % 2 ^ 64

unfoldable pub insert_datacenter : IpAddr → Datacenter → DatacenterMap → DatacenterMap
insert_datacenter ip dc m = record m { map = Maps.insert ip dc m.map; version = bump m.version }

unfoldable pub remove_datacenter : IpAddr → DatacenterMap → DatacenterMap
remove_datacenter ip m = elim (Maps.get ip m.map) [
  | none ↦ m
  | some dc ↦ record {
    map = Maps.remove ip m.map;
    removed = m.removed ++ record { ip = ip; port = dc.qcmp_port } ∷ [];
    version = bump m.version;
  }
]

-- `removed`, which takes the list.
unfoldable take_removed : DatacenterMap → List SocketAddr × DatacenterMap
take_removed m = (m.removed, record m { removed = [] })

-- A watcher is told when the version is not the one that the guard was made with.
unfoldable has_changed : ℕ → DatacenterMap → Bool
has_changed marked m = not (m.version == marked)
