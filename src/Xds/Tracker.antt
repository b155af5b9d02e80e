-- ===== src/Xds/Tracker.antt =====
-- What a server keeps for one stream (crates/xds/src/config.rs, `ClientTracker`): the states of the
-- types, and the responses that the client has not acknowledged. A fresh UUID is an argument.
use quilkin.Common.{ℕ, Option, none, some, List, [], ◌∷◌, map, any, if◌then◌else◌}
use quilkin.Common.Order.{ℕ_ord}
use quilkin.Common.Maps
use quilkin.Common.Maps.{Map}
use quilkin.Common.Sets
use quilkin.Common.Sets.{Set}
use quilkin.Net.Address.{Bytes, bytes_ord}
use quilkin.Xds.{VersionMap, ClientState, new_state}

pub record AwaitingAck : Type 0 where
  pub type_url : Bytes
  pub versions : VersionMap
  pub removed : Set Bytes

pub record ClientTracker : Type 0 where
  pub node_id : Bytes
  pub ack_map : Map ℕ AwaitingAck
  pub states : Map Bytes ClientState

pub data AckResult : Type 0 where
  acknowledged unknown_nonce unknown_type_url : AckResult

unfoldable pub track_client : Bytes → ClientTracker
track_client node_id = record { node_id = node_id; ack_map = []; states = [] }

abbrev pub get_state : Bytes → ClientTracker → Option ClientState
get_state rt t = Maps.get rt t.states

-- A state is changed in place.
abbrev pub put_state : Bytes → ClientState → ClientTracker → ClientTracker
put_state rt cs t = record t { states = Maps.insert rt cs t.states }

unfoldable pub track_state : Bytes → ClientTracker → ClientState × ClientTracker
unfolding new_state
track_state rt t = elim (get_state rt t) [
  | some cs ↦ (cs, t)
  | none ↦ (new_state rt, put_state rt (new_state rt) t)
]

unfoldable pub tracked_resources : ClientTracker → List Bytes
tracked_resources t = map (λ e. e.0) t.states

-- Refused if an item is both updated and removed.
unfoldable pub needs_ack : ℕ → AwaitingAck → ClientTracker → Option ℕ × ClientTracker
needs_ack uuid ack t =
    if any (λ e. Maps.contains_key e.0 ack.versions) ack.removed
    then (none, t)
    else (some uuid, record t { ack_map = Maps.insert uuid ack t.ack_map })

unfoldable pub remove_all : Set Bytes → ClientState → ClientState
remove_all [] cs = cs
remove_all ((name, u) ∷ removed) cs = remove_all removed (record cs {
  subscribed = Sets.remove name cs.subscribed;
  versions = Maps.remove name cs.versions;
})

-- `extend` of a map by pairs, the later ones winning.
unfoldable pub extend : List (Bytes × Bytes) → VersionMap → VersionMap
extend [] m = m
extend ((k, v) ∷ kvs) m = extend kvs (Maps.insert k v m)

unfoldable pub acked : AwaitingAck → ClientState → ClientState
unfolding remove_all extend
acked ack cs =
    let cs' = remove_all ack.removed cs in
    record cs' { versions = extend ack.versions cs'.versions }

-- The entry of the nonce goes, whether or not its type is tracked.
unfoldable pub apply_ack : ℕ → ClientTracker → AckResult × ClientTracker
unfolding acked
apply_ack uuid t = elim (Maps.get uuid t.ack_map) [
  | none ↦ (unknown_nonce, t)
  | some ack ↦
      let t' : ClientTracker = record t { ack_map = Maps.remove uuid t.ack_map } in
      elim (get_state ack.type_url t') [
        | none ↦ (unknown_type_url, t')
        | some cs ↦ (acknowledged, put_state ack.type_url (acked ack cs) t')
      ]
]
