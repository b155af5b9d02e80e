-- ===== src/Net/Cluster/Corrosion/Replay.antt =====
-- What the rows of a subscription leave of a set of endpoints (src/net/cluster.rs).
use quilkin.Common.{
  ℕ, suc, ◌≡◌, refl, sym, ap, ◌∙◌, inl, inr, Option-cases, Option, none, some, List, [], ◌∷◌,
  if◌then◌else◌, arith,
}
use quilkin.Common.Order.{same, same→eq}
use quilkin.Common.Maps
use quilkin.Common.Maps.{get-insert, get-remove}
use quilkin.Common.Sets.{Set}
use quilkin.Net.Address.{Bytes, EndpointAddress, address_ord}
use quilkin.Net.Cluster.{Env, EndpointMetadata, EndpointSet, TokenAddressMap}
use quilkin.Net.Cluster.Corrosion.{
  ServerRow, ChangeType, insert, update, delete, Event, stream_error, other, change, row,
  end_of_query, SubMetrics, Applying, apply_insert, apply_update, apply_delete, apply_row,
  apply_event, apply_events, corrosion_apply, max, with_change_id,
}

-- What is known of an address: the tokens of its endpoint.
abbrev pub tokens_of : {U : Type 0} → Option (EndpointMetadata U) → Option (Set Bytes)
tokens_of none = none
tokens_of (some md) = some md.known.tokens

-- A row's say on an address.
abbrev row_tokens :
    ChangeType → Option ServerRow → EndpointAddress → Option (Set Bytes) → Option (Set Bytes)
row_tokens ty none a known = known
row_tokens insert (some r) a known = if same a r.address then some r.tokens else known
row_tokens update (some r) a known = if same a r.address then some r.tokens else known
row_tokens delete (some r) a known = if same a r.address then none else known

-- What the events say of an address, the last one first.
abbrev pub replay : List Event → EndpointAddress → Option (Set Bytes) → Option (Set Bytes)
replay [] a known = known
replay (stream_error ∷ es) a known = replay es a known
replay (other ∷ es) a known = replay es a known
replay (change ty r cid ∷ es) a known = replay es a (row_tokens ty r a known)
replay (row r ∷ es) a known = replay es a (row_tokens insert r a known)
replay (end_of_query cid ∷ es) a known = replay es a known

-- The highest of the change ids.
abbrev pub highest : List Event → ℕ → ℕ
highest [] cid = cid
highest (change ty r c ∷ es) cid = highest es (max c cid)
highest (end_of_query (some c) ∷ es) cid = highest es (max c cid)
highest (end_of_query none ∷ es) cid = highest es cid
highest (stream_error ∷ es) cid = highest es cid
highest (other ∷ es) cid = highest es cid
highest (row r ∷ es) cid = highest es cid

module _ {U R : Type 0} (env : Env U R) where
  insert-tokens_of :
      (r : ServerRow) (s : Applying U R) (a : EndpointAddress)
      → tokens_of (Maps.get a (apply_insert env r s).set.endpoints)
        ≡ (if same a r.address then some r.tokens else tokens_of (Maps.get a s.set.endpoints))
  unfolding apply_insert
  insert-tokens_of r s a = ground (
    arith,
    get-insert a r.address
        (record { known = record { tokens = r.tokens }; unknown = env.no_unknown }) s.set.endpoints,
  )

  update-tokens_of :
      (r : ServerRow) (s : Applying U R) (a : EndpointAddress)
      → tokens_of (Maps.get a (apply_update env r s).set.endpoints)
        ≡ (if same a r.address then some r.tokens else tokens_of (Maps.get a s.set.endpoints))
  unfolding apply_update
  update-tokens_of r s a = elim (Option-cases (Maps.get r.address s.set.endpoints)) [
    | inl e ↦ rw (e, apply_update) (insert-tokens_of r s a)
    | inr (md, e) ↦ ground (
      arith,
      e,
      get-insert a r.address (record md { known = record { tokens = r.tokens } }) s.set.endpoints,
    )
  ]

  delete-tokens_of :
      (r : ServerRow) (s : Applying U R) (a : EndpointAddress)
      → tokens_of (Maps.get a (apply_delete env r s).set.endpoints)
        ≡ (if same a r.address then none else tokens_of (Maps.get a s.set.endpoints))
  unfolding apply_delete
  delete-tokens_of r s a =
      ground (arith, get-remove a r.address s.set.endpoints, same→eq a r.address)

  row-tokens_of :
      (ty : ChangeType) (r : Option ServerRow) (s : Applying U R) (a : EndpointAddress)
      → tokens_of (Maps.get a (apply_row env ty r s).set.endpoints)
        ≡ row_tokens ty r a (tokens_of (Maps.get a s.set.endpoints))
  unfolding apply_row
  row-tokens_of ty none s a = refl
  row-tokens_of insert (some r) s a =
      insert-tokens_of r (record s { successful = suc s.successful }) a
  row-tokens_of update (some r) s a =
      update-tokens_of r (record s { successful = suc s.successful }) a
  row-tokens_of delete (some r) s a =
      delete-tokens_of r (record s { successful = suc s.successful }) a

  events-tokens_of :
      (es : List Event) (s : Applying U R) (a : EndpointAddress)
      → tokens_of (Maps.get a (apply_events env es s).set.endpoints)
        ≡ replay es a (tokens_of (Maps.get a s.set.endpoints))
  unfolding apply_events apply_event
  events-tokens_of [] s a = refl
  events-tokens_of (stream_error ∷ es) s a = events-tokens_of es (apply_event env stream_error s) a
  events-tokens_of (other ∷ es) s a = events-tokens_of es (apply_event env other s) a
  events-tokens_of (change ty r cid ∷ es) s a =
      let s' = with_change_id env cid (record s { total_events = suc s.total_events }) in
      rw (sym (row-tokens_of ty r s' a))
        (events-tokens_of es (apply_event env (change ty r cid) s) a)
  events-tokens_of (row r ∷ es) s a =
      let s' : Applying U R = record s { total_events = suc s.total_events } in
      rw (sym (row-tokens_of insert r s' a)) (events-tokens_of es (apply_event env (row r) s) a)
  events-tokens_of (end_of_query none ∷ es) s a =
      events-tokens_of es (apply_event env (end_of_query none) s) a
  events-tokens_of (end_of_query (some cid) ∷ es) s a =
      events-tokens_of es (apply_event env (end_of_query (some cid)) s) a

  row-change_id :
      (ty : ChangeType) (r : Option ServerRow) (s : Applying U R)
      → (apply_row env ty r s).set.change_id ≡ s.set.change_id
  unfolding apply_row apply_insert apply_update apply_delete
  row-change_id ty none s = refl
  row-change_id insert (some r) s = refl
  row-change_id update (some r) s = ground arith
  row-change_id delete (some r) s = ground arith

  events-change_id :
      (es : List Event) (s : Applying U R)
      → (apply_events env es s).set.change_id ≡ highest es s.set.change_id
  unfolding apply_events apply_event
  events-change_id [] s = refl
  events-change_id (stream_error ∷ es) s = events-change_id es (apply_event env stream_error s)
  events-change_id (other ∷ es) s = events-change_id es (apply_event env other s)
  events-change_id (change ty r cid ∷ es) s =
      let s' = with_change_id env cid (record s { total_events = suc s.total_events }) in
      events-change_id es (apply_event env (change ty r cid) s)
      ∙ ap (highest es) (row-change_id ty r s')
  events-change_id (row r ∷ es) s =
      let s' : Applying U R = record s { total_events = suc s.total_events } in
      events-change_id es (apply_event env (row r) s) ∙ ap (highest es) (row-change_id insert r s')
  events-change_id (end_of_query none ∷ es) s =
      events-change_id es (apply_event env (end_of_query none) s)
  events-change_id (end_of_query (some cid) ∷ es) s =
      events-change_id es (apply_event env (end_of_query (some cid)) s)

  -- However the events come, the set refines the replay of them: every address has the tokens that the
  -- last row about it gives, or none when that row is deleted, and what it had when there is no row;
  -- and the set's change id is the highest that it had or was given.
  pub corrosion_apply-replay :
      (events : List Event) (set : EndpointSet U R) (token_map : TokenAddressMap)
      (subm : SubMetrics)
      → (let set' = (corrosion_apply env events set token_map subm).0 in
          ((a : EndpointAddress)
            → tokens_of (Maps.get a set'.endpoints)
              ≡ replay events a (tokens_of (Maps.get a set.endpoints)))
          × (set'.change_id ≡ highest events set.change_id))
  unfolding corrosion_apply
  corrosion_apply-replay events set token_map subm =
      let s : Applying U R = record {
        set = set;
        global = token_map;
        total_events = subm.total_events;
        successful = 0;
      } in
      (events-tokens_of events s, events-change_id events s)
