-- ===== src/Tests/Config.antt =====
-- A configuration with two clusters at concrete inputs.
use quilkin.Common.{
  ap, is_some, ℕ, ◌≡◌, refl, inl, inr, Option, none, some, List, [], ◌∷◌, ◌++◌, ◌==◌, if◌then◌else◌,
  arith,
}
use quilkin.Common.Maps
use quilkin.Common.Order.{ℕ_ord}
use quilkin.Common.Order.Derive.{list_ord}
use quilkin.Net.Address.{Bytes, IpAddr, v4, v6, Locality, bytes_ord, locality_key_ord}
use quilkin.Net.Cluster.{EndpointSet}
use quilkin.Net.Cluster.Clusters.{ClusterMap}
use quilkin.Net.Cluster.Endpoints.{encoded_cluster}
use quilkin.Xds.{DeltaDiscoveryRequest, DeltaDiscoveryResponse, ClientState, version_matches}
use quilkin.Xds.Tracker.{ClientTracker, get_state, apply_ack, needs_ack, extend}
use quilkin.Xds.Server.{
  Stream, answered, silent, responder, respond, step, request, panicked, version_info,
}
use quilkin.Xds.Link.Sends.{tracked}
use quilkin.Config.{cluster, Formats, Config, prefix, cluster_name, resource_type, cluster_type}
use quilkin.Config.Delta.{key_name, push_cluster, push_all, delta_clusters, delta_discovery_request}
use quilkin.Config.Apply.{configuration}
use quilkin.Config.Names.{IsNamedMap}
use quilkin.Config.Arrives.{acknowledged-current, silent-current}
use quilkin.Xds.Panics.{step-panicked_iff}
use quilkin.Tests.Cluster.{small_env, server}

abbrev pub show : IpAddr → Bytes
show (v4 n) = 52 ∷ n ∷ []
show (v6 n) = 54 ∷ n ∷ []

abbrev pub read_ip : Bytes → Option IpAddr
read_ip (tag ∷ n ∷ []) = if tag == 52 then some (v4 n) else if tag == 54 then some (v6 n) else none
read_ip _ = none

abbrev pub read_number : Bytes → Option ℕ
read_number (n ∷ []) = some n
read_number _ = none

-- A message is a number: that of the one endpoint of a cluster without a locality.
abbrev pub small_formats : Formats ℕ ℕ ℕ ℕ ℕ
small_formats = record {
  show_ip = show;
  parse_ip = read_ip;
  show_u64 = λ n. n ∷ [];
  parse_u64 = read_number;
  try_decode = λ n. some (cluster none (n ∷ []));
  encode_datacenter = λ dc. some dc.qcmp_port;
  encode_filters = λ f. some f;
  hash_payload = λ n. n;
  endpoint_try_from = λ e. some (server e);
  try_create = λ x. some x;
}

abbrev pub cluster_url : Bytes
cluster_url = prefix ++ cluster_name

abbrev place : Locality
place = record { buffer = 97 ∷ []; region = 1; zone = none }

abbrev set_of : ℕ → EndpointSet ℕ ℕ
set_of hash = record { endpoints = []; token_map = []; hash = hash; change_id = 0; cache = none }

abbrev pub two_clusters : ClusterMap ℕ ℕ
two_clusters = record {
  map = (none, set_of 5) ∷ (some place, set_of 6) ∷ [];
  localities = [];
  token_map = [];
  num_endpoints = 0;
  version = 0;
}

abbrev pub served : Config ℕ ℕ ℕ
served = record {
  id = 105 ∷ [];
  icao_code = [];
  qcmp_port = none;
  filters = none;
  clusters = some two_clusters;
  datacenters = none;
  db_tx = none;
}

-- What a client is said to have; it has no subscriptions.
abbrev client : List (Bytes × Bytes) → ClientState
client versions = record { resource_type = cluster_url; versions = versions; subscribed = [] }

abbrev tracker : List (Bytes × Bytes) → ClientTracker
tracker versions = record {
  node_id = [];
  ack_map = [];
  states = (cluster_url, client versions) ∷ [];
}

abbrev answer : DeltaDiscoveryResponse ℕ
answer = record {
  control_plane = some (105 ∷ []);
  type_url = cluster_url;
  resources =
      record { name = []; version = 5 ∷ []; payload = some 0 }
      ∷ record { name = 97 ∷ []; version = 6 ∷ []; payload = some 0 }
      ∷ [];
  removed_resources = [];
  nonce = some 3;
  system_version_info = version_info;
}

pub cluster_url-resource_type : resource_type cluster_url ≡ some cluster_type
unfolding resource_type bytes_ord list_ord
cluster_url-resource_type = refl

two_clusters-IsNamedMap : IsNamedMap two_clusters.map
unfolding bytes_ord list_ord
two_clusters-IsNamedMap = ((refl, (refl, tt)), (inl refl, (inr (λ e. ground (arith, e)), tt)))

tracked-client :
    (versions : List (Bytes × Bytes))
    → get_state cluster_url (tracker versions) ≡ some (client versions)
unfolding Maps.get bytes_ord list_ord
tracked-client versions = refl

responder-answer :
    (responder
      (configuration small_formats small_env)
      (105 ∷ [])
      3
      none
      cluster_url
      (tracker [])
      served).0
    ≡ answered answer
unfolding responder respond configuration delta_discovery_request resource_type delta_clusters
    push_all push_cluster version_matches encoded_cluster needs_ack extend Maps.get Maps.insert
    locality_key_ord bytes_ord list_ord
responder-answer = refl

acknowledged-current_example :
    let (_, t', c') =
      responder
        (configuration small_formats small_env)
        (105 ∷ [])
        3
        none
        cluster_url
        (tracker [])
        served in
    let t'' = (apply_ack 3 t').1 in
    ((key : Option Locality) (value : EndpointSet ℕ ℕ)
      → Maps.get key two_clusters.map ≡ some value
      → tracked cluster_url (key_name key) t'' ≡ some (value.hash ∷ []))
    × ((responder (configuration small_formats small_env) (105 ∷ []) 4 none cluster_url t'' c').0
        ≡ silent)
acknowledged-current_example =
    acknowledged-current small_formats small_env cluster_url (105 ∷ []) 3 4 (client []) (tracker [])
      served two_clusters answer cluster_url-resource_type refl two_clusters-IsNamedMap
      (tracked-client []) refl refl responder-answer

abbrev both : List (Bytes × Bytes)
both = ([], 5 ∷ []) ∷ (97 ∷ [], 6 ∷ []) ∷ []

responder-silent :
    (responder
      (configuration small_formats small_env)
      (105 ∷ [])
      3
      none
      cluster_url
      (tracker both)
      served).0
    ≡ silent
unfolding responder respond configuration delta_discovery_request resource_type delta_clusters
    push_all push_cluster version_matches encoded_cluster needs_ack extend Maps.get Maps.insert
    locality_key_ord bytes_ord list_ord
responder-silent = refl

get-place : Maps.get (some place) two_clusters.map ≡ some (set_of 6)
unfolding Maps.get locality_key_ord
get-place = refl

silent-current_example : tracked cluster_url (97 ∷ []) (tracker both) ≡ some (6 ∷ [])
silent-current_example =
    silent-current small_formats small_env cluster_url (105 ∷ []) 3 (client both) (tracker both)
      served two_clusters cluster_url-resource_type refl two_clusters-IsNamedMap
      (tracked-client both) refl refl responder-silent (some place) (set_of 6) get-place

abbrev stream : Stream (Config ℕ ℕ ℕ)
stream = record {
  id = 105 ∷ [];
  config = served;
  tracker = tracker [];
  changed_resources = [];
  lag_amount = 0;
  drawn = 0;
}

abbrev unknown : DeltaDiscoveryRequest
unknown = record {
  node = none;
  type_url = 120 ∷ [];
  resource_names_subscribe = [];
  resource_names_unsubscribe = [];
  initial_resource_versions = [];
  response_nonce = none;
  error_detail = none;
}

unknown-resource_type : resource_type (120 ∷ []) ≡ none
unfolding resource_type
unknown-resource_type = refl

unknown-get_state : get_state (120 ∷ []) (tracker []) ≡ none
unfolding Maps.get bytes_ord list_ord
unknown-get_state = refl

step-panicked_iff_example :
    step (configuration small_formats small_env) (λ n. n) (request unknown) stream ≡ panicked
unfolding configuration
step-panicked_iff_example =
    (step-panicked_iff (configuration small_formats small_env) (λ n. n) (request unknown) stream).1
      (
        unknown,
        refl,
        (λ e. ground (arith, e), inr refl),
        inl (unknown-get_state, ap is_some unknown-resource_type),
      )
