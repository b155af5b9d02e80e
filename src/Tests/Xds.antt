-- ===== src/Tests/Xds.antt =====
-- A stream at concrete inputs: a server with one resource, and a client that takes whatever it is sent.
use quilkin.Common.{ℕ, ◌≡◌, refl, true, none, some, [], ◌∷◌, if◌then◌else◌}
use quilkin.Common.Maps
use quilkin.Common.Order.{ℕ_ord}
use quilkin.Common.Order.Derive.{list_ord}
use quilkin.Net.Address.{Bytes, bytes_ord}
use quilkin.Xds.{
  DeltaDiscoveryRequest, DeltaDiscoveryResponse, version_matches, update_state, new_state,
  subscribe, unsubscribe,
}
use quilkin.Xds.Tracker.{track_client, track_state, needs_ack, extend, acked, apply_ack, remove_all}
use quilkin.Xds.Server.{
  Configuration, Stream, yields, request, start, step, respond, responder, on_request, on_respond,
  version_info,
}
use quilkin.Xds.Client.{
  replied, LocalVersions, new_local, get_local, put_local, remove_names, reply,
  handle_delta_discovery_response,
}
use quilkin.Xds.Link.{Link, Reachable, begins, receives, handles}
use quilkin.Xds.Link.Sends.{tracked}
use quilkin.Xds.Link.Runs.{Reachable-agree}

abbrev name : Bytes
name = 114 ∷ []

abbrev ty : Bytes
ty = 116 ∷ []

-- The configuration is the version of the one resource.
abbrev one_resource : Configuration ℕ ℕ
one_resource = record {
  identifier = λ c. 105 ∷ [];
  allow_request_processing = λ t. true;
  delta_discovery_request = λ cs c. (
    some (record {
      resources =
          if version_matches name (c ∷ []) cs
          then []
          else record { name = name; version = c ∷ []; payload = some c } ∷ [];
      removed = [];
    }),
    c,
  );
  apply_delta = λ t resources removed addr c. (true, c);
  interested_resources = (ty, []) ∷ [];
}

abbrev uuid : ℕ → ℕ
uuid n = n

abbrev hello : DeltaDiscoveryRequest
hello = record {
  node = some (97 ∷ []);
  type_url = ty;
  resource_names_subscribe = [];
  resource_names_unsubscribe = [];
  initial_resource_versions = [];
  response_nonce = none;
  error_detail = none;
}

abbrev first : DeltaDiscoveryResponse ℕ
first = record {
  control_plane = some (105 ∷ []);
  type_url = ty;
  resources = record { name = name; version = 7 ∷ []; payload = some 7 } ∷ [];
  removed_resources = [];
  nonce = some 0;
  system_version_info = version_info;
}

abbrev sent : Stream ℕ
sent = record {
  id = 105 ∷ [];
  config = 7;
  tracker = record {
    node_id = 97 ∷ [];
    ack_map = (0, record { type_url = ty; versions = (name, 7 ∷ []) ∷ []; removed = [] }) ∷ [];
    states = (ty, record { resource_type = ty; versions = []; subscribed = [] }) ∷ [];
  };
  changed_resources = [];
  lag_amount = 0;
  drawn = 1;
}

start-sent : start one_resource uuid hello 7 ≡ some (first, sent)
unfolding start respond responder track_client track_state needs_ack extend update_state new_state
    subscribe unsubscribe version_matches Maps.get Maps.insert bytes_ord list_ord
start-sent = refl

abbrev begun : Link ℕ ℕ ℕ
begun = record {
  stream = sent;
  responses = first ∷ [];
  requests = [];
  config = 0;
  local = (ty, []) ∷ [];
}

begun-Reachable : Reachable one_resource one_resource uuid none [] begun
unfolding new_local
begun-Reachable = begins hello (ty ∷ []) 7 0 first sent begun refl start-sent refl

abbrev taken : LocalVersions
taken = (ty, (name, 7 ∷ []) ∷ []) ∷ []

handle-first :
    handle_delta_discovery_response one_resource none [] first 0 begun.local
    ≡ replied (reply none first) 0 taken
unfolding handle_delta_discovery_response get_local put_local remove_names extend Maps.insert
    bytes_ord list_ord
handle-first = refl

abbrev answered_back : Link ℕ ℕ ℕ
answered_back = record {
  stream = sent;
  responses = [];
  requests = reply none first ∷ [];
  config = 0;
  local = taken;
}

answered_back-Reachable : Reachable one_resource one_resource uuid none [] answered_back
answered_back-Reachable =
    handles first [] begun (reply none first) 0 taken answered_back begun-Reachable refl
      handle-first refl

abbrev confirmed : Stream ℕ
confirmed = record sent {
  tracker = record {
    node_id = 97 ∷ [];
    ack_map = [];
    states =
        (ty, record { resource_type = ty; versions = (name, 7 ∷ []) ∷ []; subscribed = [] }) ∷ [];
  };
}

step-confirmed : step one_resource uuid (request (reply none first)) sent ≡ yields [] confirmed
unfolding step on_request on_respond apply_ack acked remove_all extend Maps.get Maps.insert
    Maps.remove bytes_ord list_ord
step-confirmed = refl

abbrev settled : Link ℕ ℕ ℕ
settled = record { stream = confirmed; responses = []; requests = []; config = 0; local = taken }

settled-Reachable : Reachable one_resource one_resource uuid none [] settled
settled-Reachable =
    receives (reply none first) [] answered_back [] confirmed settled answered_back-Reachable refl
      step-confirmed refl

get_local-taken : get_local ty taken ≡ some ((name, 7 ∷ []) ∷ [])
unfolding get_local bytes_ord list_ord
get_local-taken = refl

Reachable-agree_example :
    tracked ty name settled.stream.tracker ≡ Maps.get name ((name, 7 ∷ []) ∷ [])
Reachable-agree_example =
    Reachable-agree one_resource one_resource uuid (λ i j e. e) none [] settled settled-Reachable
      refl ty name ((name, 7 ∷ []) ∷ []) get_local-taken
