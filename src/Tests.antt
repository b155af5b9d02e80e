-- ===== src/Tests.antt =====
-- The theorems at concrete inputs, and runs of the definitions.
mod Cluster
mod Codec
mod Filters
mod Limits
mod Sessions
mod Pipeline
mod Corrosion
mod Locality
mod Xdp
mod Xds
mod Config
mod Datacenters
mod Routes
