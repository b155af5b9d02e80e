-- ===== src/Net/Cluster/Corrosion.antt =====
-- Updates of a set of endpoints by the rows of a subscription (`corrosion_apply` of
-- src/net/cluster.rs). A row is what `ServerRow::from_sql` makes of it, or none when it fails.
pub mod Replay
pub mod Counted
use quilkin.Common.{
  ℕ, suc, ◌-◌, Option, none, some, List, [], ◌∷◌, length, ltb, if◌then◌else◌, ◌==◌,
}
use quilkin.Common.Order.{ℕ_ord}
use quilkin.Common.Maps
use quilkin.Common.Sets
use quilkin.Common.Sets.{Set}
use quilkin.Net.Address.{Bytes, EndpointAddress, Locality, address_ord, bytes_ord, locality_key_ord}
use quilkin.Net.Cluster.{Env, EndpointMetadata, EndpointSet, TokenAddressMap}
use quilkin.Net.Cluster.Tokens.{add_tokens}
use quilkin.Net.Cluster.Endpoints
use quilkin.Net.Cluster.Clusters.{ClusterMap, count_change}

pub record ServerRow : Type 0 where
  pub address : EndpointAddress
  pub tokens : Set Bytes

pub data ChangeType : Type 0 where
  insert update delete : ChangeType

-- An event of the stream: an error, a change of a row with its change id, a row of the first query,
-- the end of that query, or one of the others.
pub data Event : Type 0 where
  stream_error other : Event
  change : ChangeType → Option ServerRow → ℕ → Event
  row : Option ServerRow → Event
  end_of_query : Option ℕ → Event

pub record SubMetrics : Type 0 where
  pub total_events : ℕ
  pub failures : ℕ

-- The set, the token map of all clusters, and what is counted.
pub record Applying (U R : Type 0) : Type 0 where
  pub set : EndpointSet U R
  pub global : TokenAddressMap
  pub total_events : ℕ
  pub successful : ℕ

abbrev pub max : ℕ → ℕ → ℕ
max a b = if ltb a b then b else a

-- The closure `remove`, at one of its two maps: a token whose last address goes, goes too.
unfoldable remove_address : ℕ → EndpointAddress → TokenAddressMap → TokenAddressMap
remove_address hash addr tm = elim (Maps.get hash tm) [
  | none ↦ tm
  | some addrs ↦
      if length (Sets.remove addr addrs) == 0
      then Maps.remove hash tm
      else Maps.insert hash (Sets.remove addr addrs) tm
]

unfoldable remove_tokens :
    (Bytes → ℕ) → EndpointAddress → List Bytes → TokenAddressMap → TokenAddressMap
unfolding remove_address
remove_tokens hash_token addr [] tm = tm
remove_tokens hash_token addr (tok ∷ toks) tm =
    remove_tokens hash_token addr toks (remove_address (hash_token tok) addr tm)

module _ {U R : Type 0} (env : Env U R) where
  -- A change to both token maps.
  abbrev with_tokens : (TokenAddressMap → TokenAddressMap) → Applying U R → Applying U R
  with_tokens f s = record s {
    set = record s.set { token_map = f s.set.token_map };
    global = f s.global;
  }

  abbrev with_endpoint : EndpointAddress → EndpointMetadata U → Applying U R → Applying U R
  with_endpoint addr md s = record s {
    set = record s.set { endpoints = Maps.insert addr md s.set.endpoints };
  }

  -- The tokens of an address that may be there already are added to those that it has.
  unfoldable pub apply_insert : ServerRow → Applying U R → Applying U R
  apply_insert r s =
      with_endpoint r.address
        (record { known = record { tokens = r.tokens }; unknown = env.no_unknown })
        (with_tokens (add_tokens env.hash_token r.address (Sets.elements r.tokens)) s)

  unfoldable pub apply_update : ServerRow → Applying U R → Applying U R
  unfolding apply_insert remove_tokens
  apply_update r s = elim (Maps.get r.address s.set.endpoints) [
    | none ↦ apply_insert r s
    | some md ↦
        let gone = Sets.elements (Sets.difference md.known.tokens r.tokens) in
        let added = Sets.elements (Sets.difference r.tokens md.known.tokens) in
        with_endpoint r.address (record md { known = record { tokens = r.tokens } })
          (with_tokens
            (λ tm.
              add_tokens env.hash_token r.address added
                (remove_tokens env.hash_token r.address gone tm))
            s)
  ]

  unfoldable pub apply_delete : ServerRow → Applying U R → Applying U R
  unfolding remove_tokens
  apply_delete r s = elim (Maps.get r.address s.set.endpoints) [
    | none ↦ s
    | some md ↦
        with_tokens (remove_tokens env.hash_token r.address (Sets.elements md.known.tokens))
          (record s { set = record s.set { endpoints = Maps.remove r.address s.set.endpoints } })
  ]

  unfoldable pub apply_row : ChangeType → Option ServerRow → Applying U R → Applying U R
  unfolding apply_insert apply_update apply_delete
  apply_row ty none s = s
  apply_row insert (some r) s = apply_insert r (record s { successful = suc s.successful })
  apply_row update (some r) s = apply_update r (record s { successful = suc s.successful })
  apply_row delete (some r) s = apply_delete r (record s { successful = suc s.successful })

  abbrev pub with_change_id : ℕ → Applying U R → Applying U R
  with_change_id cid s = record s { set = record s.set { change_id = max cid s.set.change_id } }

  unfoldable pub apply_event : Event → Applying U R → Applying U R
  unfolding apply_row
  apply_event stream_error s = record s { total_events = suc s.total_events }
  apply_event other s = record s { total_events = suc s.total_events }
  apply_event (change ty r cid) s =
      apply_row ty r (with_change_id cid (record s { total_events = suc s.total_events }))
  apply_event (row r) s =
      apply_row ChangeType.insert r (record s { total_events = suc s.total_events })
  apply_event (end_of_query none) s = record s { total_events = suc s.total_events }
  apply_event (end_of_query (some cid)) s =
      with_change_id cid (record s { total_events = suc s.total_events })

  unfoldable pub apply_events : List Event → Applying U R → Applying U R
  unfolding apply_event
  apply_events [] s = s
  apply_events (e ∷ es) s = apply_events es (apply_event e s)

  -- The set, the token map of all clusters and the metrics; the change id is the set's, and the
  -- difference of the lengths is read off the set's length before and after.
  unfoldable pub corrosion_apply :
      List Event
      → EndpointSet U R
      → TokenAddressMap
      → SubMetrics
      → EndpointSet U R × TokenAddressMap × SubMetrics
  unfolding apply_events
  corrosion_apply events set token_map subm =
      let s = apply_events events (record {
        set = set;
        global = token_map;
        total_events = subm.total_events;
        successful = 0;
      }) in
      (
        s.set,
        s.global,
        record { total_events = s.total_events; failures = s.total_events - s.successful },
      )

  abbrev pub corrosion_set : Option Locality → ClusterMap U R → EndpointSet U R
  corrosion_set locality cm = elim (Maps.get locality cm.map) [
    | none ↦ Endpoints.new env []
    | some set ↦ set
  ]

  -- `ClusterMap::corrosion_apply`, at the locality that is named for it.
  unfoldable pub cluster_corrosion_apply :
      Option Locality → List Event → SubMetrics → ClusterMap U R → ClusterMap U R × SubMetrics × ℕ
  unfolding corrosion_apply
  cluster_corrosion_apply corro events subm cm =
      let set = corrosion_set corro cm in
      let (set', global, subm') = corrosion_apply events set cm.token_map subm in
      (
        record cm {
          map = Maps.insert corro set' cm.map;
          token_map = global;
          num_endpoints =
              count_change (length set'.endpoints) (length set.endpoints) cm.num_endpoints;
        },
        subm',
        set'.change_id,
      )
