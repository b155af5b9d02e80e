-- ===== src/Net.antt =====
-- The network state of src/net: addresses, clusters, sessions, and the way of a packet.
pub mod Address
pub mod Locality
pub mod Cluster
pub mod Sessions
pub mod Pipeline
pub mod Xdp
