-- ===== src/Lib.antt =====
-- Quilkin, a UDP proxy for game servers: a packet from a client goes through a chain of filters, which
-- change it, drop it, or choose its destinations among the endpoints of a cluster map; the map is kept
-- by control plane messages from many contributors; QCMP messages measure latency.
--
-- Files, and the code that they model (paths from the root of the repository):
--   Common           names, tests and lists on native numbers, orders, maps as lists sorted by key, sets
--   Net/Address      src/net/endpoint/address.rs, crates/types/src/endpoint.rs, crates/xds/src/locality.rs
--   Net/Cluster      src/net/cluster.rs: Cluster/Tokens has update's token map and token_map_diff;
--                    Cluster/Endpoints EndpointSet and its write guard; Cluster/Clusters ClusterMap;
--                    Cluster/Batch batch_modify and ClusterUpdateBatcher; Cluster/Runs calls of
--                    the operations but corrosion_apply, which is in Cluster/Corrosion
--   Net/Locality     crates/xds/src/locality.rs: Locality as text and as a message
--   Net/Xdp          src/net/io/nic/xdp/process.rs: the ports that stand for a server's clients;
--                    Xdp/Ports and Xdp/Clients hold of PortMap, Xdp/Mapper of PortMapper, Xdp/States of
--                    SessionState, whose get_or_create takes two units of fuel: it calls itself once;
--                    Xdp/Asn AsnCache and State, and Xdp/Known what holds of them
--   Net/Sessions     src/net/sessions.rs: the storage of sockets; Sessions/Pool SessionPool; Sessions/Traffic
--                    packets to a server and back; the others what holds of them: Storage and
--                    Invariant between operations, Grants of get, Ends of pruning, Runs, Limit and
--                    Replies
--   Net/Pipeline     src/net/packet.rs: DownstreamPacket, and the list of destinations of a worker
--                    (src/net/io/poll/tokio.rs)
--   Codec/Bytes      to_be_bytes, from_be_bytes and the reads of PacketParser
--   Codec/Qcmp       src/codec/qcmp.rs: Protocol, its encoding and parsing, delays, and NoncePool
--   Filters          src/filters: the contexts, errors and values (src/net/endpoint/metadata.rs);
--                    Filters/Packet src/net/packet.rs; Filters/Firewall firewall.rs and its config.rs;
--                    Filters/Capture capture.rs, capture/affix.rs and concatenate.rs; Filters/Routing
--                    token_router.rs and load_balancer; Filters/Match match.rs; Filters/Chain chain.rs,
--                    drop.rs and pass.rs; Filters/RateLimit local_rate_limit.rs
--   Xds              crates/xds/src/config.rs: ClientState and the messages; Xds/Tracker ClientTracker;
--                    Xds/Server the stream of crates/xds/src/server.rs and its events; Xds/Client
--                    LocalVersions, handle_delta_discovery_responses and refresh (client.rs); Xds/Link both
--                    sides and the messages on their way, in any interleaving, and its children what holds
--                    of them; Xds/Quiet what an acknowledgement leaves to send, and Xds/Panics when a
--                    stream panics
--   Config           src/config.rs: what xDS reads and changes; src/xds.rs the types of resources,
--                    crates/types/src/icao.rs; Config/Datacenters config/datacenter.rs; Config/Bridge
--                    config/corro.rs; Config/Delta delta_discovery_request; Config/Apply apply_delta and
--                    the implementation of the trait Configuration; Converges, Names, Found, Settles and
--                    Arrives what holds of the clusters, Pushed and Mirror of the datacenters;
--                    Encodes, Bridged, Keeps and Operations what any sequence of them keeps, and Routes the way
--                    from a response to the route of a packet
--   Collections/Ttl  src/collections/ttl.rs: TtlMap, with the clock as an argument
--   Tests            the theorems at concrete inputs, and runs of the definitions
--
-- A function of the code has its name here, in a module for its type; where two types share one the
-- module tells them apart (ClusterMap::partial_replace is cluster_partial_replace). `&mut self` is a
-- value that goes in and comes back. Concurrent maps are read and written one operation at a time, and
-- in the order of their keys, where the code's order is that of a hash. Machine integers are native
-- numbers with the wrap-around written out: counters have 64 bits, the count of a batch 32, ports 16,
-- and a timestamp is its 64 bits. Every loop is over a list but that of get_or_create,
-- which calls itself and is on fuel: two units are enough, since a new mapper has ports. Sessions that
-- a pool drops release their sockets in the order of their keys, after the map is written.
--
-- Parameters: the hash functions, the test of a user's metadata by name and the encoding of a cluster
-- as an xDS resource (record Env); the networks of the ipnetwork crate (record Networks); the resolution
-- of names; what the operating system answers to a request for a socket, the clock, and the database of
-- addresses; printing and parsing of the standard library and the messages' encodings (record
-- Formats); the configuration of a stream where any will do (record Configuration); the UUIDs that a
-- stream draws; the strategies of a capture other than prefix and suffix; random numbers, as arguments.
--
-- Not modelled: sockets, io_uring and the frames of XDP, the connections of xDS and the relay's stream of
-- its agents, providers, Agones, metrics, traces and the command line (input and output, or glue over
-- libraries); phoenix (floating point); the gossip and the database of corrosion; parsing and printing
-- of configuration and of addresses.
pub mod Common
pub mod Net
pub mod Xds
pub mod Config
pub mod Codec
pub mod Filters
pub mod Collections
pub mod Tests
