-- ===== src/Tests/Datacenters.antt =====
-- A server with a datacenter of its own and another, and a client, at concrete inputs.
use quilkin.Common.{ℕ, ◌++◌, true, false, ◌≡◌, refl, none, some, [], ◌∷◌, arith}
use quilkin.Common.Maps
use quilkin.Common.Order.{ℕ_ord}
use quilkin.Common.Order.Derive.{list_ord}
use quilkin.Common.Sets
use quilkin.Net.Address.{Bytes, IpAddr, v4, v6, bytes_ord, ip_ord}
use quilkin.Net.Locality.{is_empty}
use quilkin.Net.Cluster.{Env}
use quilkin.Net.Cluster.Clusters.{ClusterMap}
use quilkin.Xds.{ClientState, version_matches}
use quilkin.Xds.Server.{DeltaDiscoveryRes}
use quilkin.Config.{
  Formats, datacenter, Config, ProtoDatacenter, Datacenter, DatacenterMap, IcaoCode, prefix,
  datacenter_name, resource_type, datacenter_type, icao_from_str,
}
use quilkin.Config.Delta.{push_datacenter, push_datacenters, push_self, delta_datacenters, gone}
use quilkin.Config.Apply.{apply_delta}
use quilkin.Config.Pushed.{IsDatacenter, mirrored}
use quilkin.Config.Mirror.{apply_delta-delta_datacenters}
use quilkin.Tests.Config.{show, read_ip, read_number}

-- A datacenter is sent as its message.
abbrev message_formats : Formats ℕ ℕ ProtoDatacenter ℕ ℕ
message_formats = record {
  show_ip = show;
  parse_ip = read_ip;
  show_u64 = λ n. n ∷ [];
  parse_u64 = read_number;
  try_decode = λ dc. some (datacenter dc);
  encode_datacenter = λ dc. some dc;
  encode_filters = λ f. none;
  hash_payload = λ dc. dc.qcmp_port;
  endpoint_try_from = λ e. none;
  try_create = λ x. some x;
}

abbrev message_env : Env ℕ ProtoDatacenter
message_env = record {
  hash_token = λ token. 0;
  hash_endpoints = λ eps. 1;
  no_unknown = 0;
  has_name = λ u n. false;
  encode = λ l eps. none;
}

parse-show : (ip : IpAddr) → read_ip (show ip) ≡ some ip
parse-show (v4 n) = refl
parse-show (v6 n) = refl

shown : (ip : IpAddr) → is_empty (show ip) ≡ false
shown (v4 n) = refl
shown (v6 n) = refl

-- "EDDF" and "ESSA"
abbrev frankfurt : IcaoCode
frankfurt = 69 ∷ 68 ∷ 68 ∷ 70 ∷ []

abbrev stockholm : IcaoCode
stockholm = 69 ∷ 83 ∷ 83 ∷ 65 ∷ []

abbrev other : Datacenter
other = record { qcmp_port = 7600; icao_code = frankfurt }

abbrev served : DatacenterMap
served = record { map = (v4 1, other) ∷ []; removed = []; version = 1 }

abbrev server : Config ℕ ℕ ProtoDatacenter
server = record {
  id = 105 ∷ [];
  icao_code = stockholm;
  qcmp_port = some 7601;
  filters = none;
  clusters = none;
  datacenters = some served;
  db_tx = none;
}

-- The client has a datacenter that the server no longer has.
abbrev old : DatacenterMap
old = record { map = (v4 2, other) ∷ []; removed = []; version = 4 }

abbrev no_clusters : ClusterMap ℕ ProtoDatacenter
no_clusters = record { map = []; localities = []; token_map = []; num_endpoints = 0; version = 0 }

abbrev client : Config ℕ ℕ ProtoDatacenter
client = record {
  id = 99 ∷ [];
  icao_code = frankfurt;
  qcmp_port = none;
  filters = none;
  clusters = some no_clusters;
  datacenters = some old;
  db_tx = none;
}

abbrev datacenter_url : Bytes
datacenter_url = prefix ++ datacenter_name

abbrev held : ClientState
held = record {
  resource_type = datacenter_url;
  versions = (52 ∷ 2 ∷ [], frankfurt) ∷ [];
  subscribed = [];
}

abbrev found : DeltaDiscoveryRes ProtoDatacenter
found = record {
  resources =
      record {
        name = 105 ∷ [];
        version = stockholm ++ 45 ∷ 7601 ∷ [];
        payload = some (record { host = []; qcmp_port = 7601; icao_code = stockholm });
      }
      ∷ record {
        name = 52 ∷ 1 ∷ [];
        version = frankfurt ++ 45 ∷ 7600 ∷ [];
        payload = some (record { host = 52 ∷ 1 ∷ []; qcmp_port = 7600; icao_code = frankfurt });
      }
      ∷ [];
  removed = (52 ∷ 2 ∷ [], tt) ∷ [];
}

datacenter_url-resource_type : resource_type datacenter_url ≡ some datacenter_type
unfolding resource_type bytes_ord list_ord
datacenter_url-resource_type = refl

server-found : delta_datacenters message_formats message_env held server ≡ some found
unfolding delta_datacenters push_self push_datacenters push_datacenter gone version_matches Maps.get
    Maps.insert ip_ord bytes_ord list_ord
server-found = refl

other-IsDatacenter : IsDatacenter other
unfolding icao_from_str
other-IsDatacenter = (refl, refl)

apply_delta-delta_datacenters_example :
    let (is_ok, client') =
      apply_delta message_formats message_env datacenter_url found.resources
        (Sets.elements found.removed)
        none
        client in
    (is_ok ≡ true)
    × (m' : DatacenterMap) × (client'.datacenters ≡ some m')
    × (client'.clusters ≡ some no_clusters)
    × ((ip : IpAddr)
        → Maps.get ip m'.map ≡ mirrored message_formats message_env held served.map old.map ip)
apply_delta-delta_datacenters_example =
    apply_delta-delta_datacenters message_formats message_env parse-show shown
      (λ dc payload e. ground (arith, e)) datacenter_url held server client served old no_clusters
      found datacenter_url-resource_type refl tt (other-IsDatacenter, tt) refl refl server-found
