-- ===== src/Xds/Server.antt =====
-- The server's side of a delta stream (crates/xds/src/server.rs). What it serves is a
-- `Configuration`; its errors are told apart by their kind, without their texts. Metrics and traces
-- are left out, and the UUIDs that the stream draws are those of `uuid`, one after the other.
use quilkin.Common.{
  ℕ, ◌+◌, ◌%◌, ◌^◌, Bool, Option, none, some, List, [], ◌∷◌, ◌++◌, map, ltb, ◌&&◌, if◌then◌else◌,
}
use quilkin.Common.Order.{same}
use quilkin.Common.Sets
use quilkin.Common.Sets.{Set}
use quilkin.Net.Address.{Bytes, IpAddr, bytes_ord}
use quilkin.Xds.{
  DeltaDiscoveryRequest, Resource, DeltaDiscoveryResponse, ClientState, is_empty_map, update_state,
}
use quilkin.Xds.Tracker.{
  ClientTracker, get_state, put_state, track_state, tracked_resources, needs_ack, extend, apply_ack,
  track_client,
}

pub record DeltaDiscoveryRes (P : Type 0) : Type 0 where
  pub resources : List (Resource P)
  pub removed : Set Bytes

-- The trait `Configuration`, of a configuration of type `C`; a result none is an error.
pub record Configuration (C P : Type 0) : Type 0 where
  pub identifier : C → Bytes
  pub allow_request_processing : Bytes → Bool
  pub delta_discovery_request : ClientState → C → Option (DeltaDiscoveryRes P) × C
  pub apply_delta : Bytes → List (Resource P) → List Bytes → Option IpAddr → C → Bool × C
  pub interested_resources : List (Bytes × List Bytes)

-- "ignore-me"
abbrev pub ignore_me : Bytes
ignore_me = 105 ∷ 103 ∷ 110 ∷ 111 ∷ 114 ∷ 101 ∷ 45 ∷ 109 ∷ 101 ∷ []

-- "9"
abbrev pub version_info : Bytes
version_info = 57 ∷ []

pub data Responded (P : Type 0) : Type 0 where
  answered : DeltaDiscoveryResponse P → Responded P
  silent invalid_argument internal : Responded P

-- The response, where there is one.
abbrev pub answers : {P : Type 0} → Responded P → List (DeltaDiscoveryResponse P)
answers (answered r) = r ∷ []
answers silent = []
answers invalid_argument = []
answers internal = []

-- A stream: the name of the control plane when it began, the buffer of what has changed, how far the broadcasts lag, and how many UUIDs are drawn.
pub record Stream (C : Type 0) : Type 0 where
  pub id : Bytes
  pub config : C
  pub tracker : ClientTracker
  pub changed_resources : Set Bytes
  pub lag_amount : ℕ
  pub drawn : ℕ

-- What the stream waits for: the interval, a broadcast, or the client.
pub data Event : Type 0 where
  tick closed receive_error hang_up shutdown : Event
  changed : Bytes → Event
  lagged : ℕ → Event
  request : DeltaDiscoveryRequest → Event

-- The responses that an event yields, or the end of the stream; or a panic.
pub data Stepped (C P : Type 0) : Type 0 where
  yields : List (DeltaDiscoveryResponse P) → Stream C → Stepped C P
  ended panicked : Stepped C P

abbrev pub versions_of : {P : Type 0} → List (Resource P) → List (Bytes × Bytes)
versions_of resources = map (λ r. (r.name, r.version)) resources

module _ {C P : Type 0} (cfg : Configuration C P) (id : Bytes) where
  -- What the configuration has for a state, sent with a UUID unless it is nothing.
  unfoldable pub respond :
      ℕ → Bytes → ClientState → ClientTracker → C → Responded P × ClientTracker × C
  unfolding extend needs_ack
  respond uuid type_url cs tracker config =
      let (found, config') = cfg.delta_discovery_request cs config in
      elim found [
        | none ↦ (internal, tracker, config')
        | some req ↦
            if is_empty_map req.resources && is_empty_map req.removed
            then (silent, tracker, config')
            else let (nonce, tracker') =
                needs_ack uuid
                  (record {
                    type_url = type_url;
                    versions = extend (versions_of req.resources) [];
                    removed = req.removed;
                  })
                  tracker in
              elim nonce [
                | none ↦ (internal, tracker', config')
                | some n ↦ (
                  answered (record {
                    control_plane = some id;
                    type_url = type_url;
                    resources = req.resources;
                    removed_resources = Sets.elements req.removed;
                    nonce = some n;
                    system_version_info = version_info;
                  }),
                  tracker',
                  config',
                )
              ]
      ]

  -- The closure `responder`: on a request, or on a change of the type.
  unfoldable pub responder :
      ℕ → Option DeltaDiscoveryRequest → Bytes → ClientTracker → C → Responded P × ClientTracker × C
  unfolding update_state track_state respond
  responder uuid none type_url tracker config = elim (get_state type_url tracker) [
    | none ↦ (silent, tracker, config)
    | some cs ↦ respond uuid type_url cs tracker config
  ]
  responder uuid (some req) type_url tracker config = elim (get_state type_url tracker) [
    | some cs ↦
        let cs' = update_state req cs in
        respond uuid type_url cs' (put_state type_url cs' tracker) config
    | none ↦
        if cfg.allow_request_processing type_url
        then (let (cs, tracker') = track_state type_url tracker in
            let cs' = update_state req cs in
            respond uuid type_url cs' (put_state type_url cs' tracker') config)
        else (invalid_argument, tracker, config)
  ]

module _ {C P : Type 0} (cfg : Configuration C P) (uuid : ℕ → ℕ) where
  abbrev pub called : Option DeltaDiscoveryRequest → Bytes → Stream C → Responded P × Stream C
  called req type_url s =
      let (r, tracker, config) =
        responder cfg s.id (uuid s.drawn) req type_url s.tracker s.config in
      (r, record s { tracker = tracker; config = config; drawn = s.drawn + 1 })

  -- An error of the responder is logged.
  unfoldable pub propagate : List Bytes → Stream C → List (DeltaDiscoveryResponse P) × Stream C
  unfolding responder
  propagate [] s = ([], s)
  propagate (rt ∷ rts) s =
      let (r, s') = called none rt s in
      let (responses, s'') = propagate rts s' in (answers r ++ responses, s'')

  -- The buffer is flushed; when the broadcasts have lagged, every tracked type is looked at.
  unfoldable pub on_tick : Stream C → Stepped C P
  unfolding propagate tracked_resources
  on_tick s =
      let resources =
        if ltb 0 s.lag_amount
        then tracked_resources s.tracker
        else Sets.elements s.changed_resources in
      let (responses, s') =
        propagate resources (record s { changed_resources = []; lag_amount = 0 }) in
      yields responses s'

  -- A request that the responder refuses panics, by `unwrap`.
  unfoldable pub on_respond : DeltaDiscoveryRequest → Stream C → Stepped C P
  unfolding responder
  on_respond req s =
      let (r, s') = called (some req) req.type_url s in
      elim r [
        | answered res ↦ yields (res ∷ []) s'
        | silent ↦ yields [] s'
        | invalid_argument ↦ panicked
        | internal ↦ panicked
      ]

  -- A refusal of a response goes on to the responder; an acknowledgement is not answered.
  unfoldable pub on_request : DeltaDiscoveryRequest → Stream C → Stepped C P
  unfolding on_respond apply_ack
  on_request req s = if same req.type_url ignore_me then yields [] s else elim req.error_detail [
    | some error ↦ on_respond req s
    | none ↦ elim req.response_nonce [
      | some nonce ↦ yields [] (record s { tracker = (apply_ack nonce s.tracker).1 })
      | none ↦ on_respond req s
    ]
  ]

  unfoldable pub step : Event → Stream C → Stepped C P
  unfolding on_tick on_request
  step tick s = on_tick s
  step (changed rt) s =
      yields [] (record s { changed_resources = Sets.insert rt s.changed_resources })
  step closed s = ended
  step (lagged amount) s = yields [] (record s { lag_amount = (s.lag_amount + amount) % 2 ^ 64 })
  step (request req) s = on_request req s
  step receive_error s = yields [] s
  step hang_up s = ended
  step shutdown s = ended

  -- A response with nothing in it.
  abbrev pub blank : Bytes → Bytes → DeltaDiscoveryResponse P
  blank id type_url = record {
    control_plane = some id;
    type_url = type_url;
    resources = [];
    removed_resources = [];
    nonce = none;
    system_version_info = version_info;
  }

  abbrev pub new_stream : Bytes → C → Stream C
  new_stream node_id config = record {
    id = cfg.identifier config;
    config = config;
    tracker = track_client node_id;
    changed_resources = [];
    lag_amount = 0;
    drawn = 0;
  }

  -- The first message, which has to name its node; none is a refusal of the stream.
  unfoldable pub start : DeltaDiscoveryRequest → C → Option (DeltaDiscoveryResponse P × Stream C)
  unfolding track_client responder
  start message config = elim message.node [
    | none ↦ none
    | some node_id ↦
        let s = new_stream node_id config in
        if same message.type_url ignore_me
        then some (blank s.id message.type_url, s)
        else let (r, s') = called (some message) message.type_url s in
          elim r [
            | answered res ↦ some (res, s')
            | silent ↦ some (blank s.id message.type_url, s')
            | invalid_argument ↦ none
            | internal ↦ none
          ]
  ]
