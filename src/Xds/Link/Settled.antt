-- ===== src/Xds/Link/Settled.antt =====
-- The versions that the server will have for a client once it has read what is on its way to it
-- (crates/xds/src/config.rs).
use quilkin.Common.{
  ℕ, suc, ◌≡◌, refl, ap, ◌∙◌, inl, inr, Bool, Option, none, some, List, [], ◌∷◌, ◌++◌, any,
  if◌then◌else◌, Bool-cases, arith,
}
use quilkin.Common.Order.{same, same→eq, ℕ_ord}
use quilkin.Common.Maps
use quilkin.Common.Maps.{Map, get-insert, get-remove}
use quilkin.Common.Maps.Sorted.{IsSorted, Above-IsSorted, get-head, insert-IsSorted}
use quilkin.Common.Sets
use quilkin.Common.Sets.{Set}
use quilkin.Net.Address.{Bytes, bytes_ord}
use quilkin.Xds.{
  VersionMap, DeltaDiscoveryRequest, DeltaDiscoveryResponse, ClientState, is_empty_map,
}
use quilkin.Xds.Tracker.{AwaitingAck, ClientTracker, extend, remove_all, acked}
use quilkin.Xds.Client.{remove_names}
use quilkin.Xds.Link.Flight.{ack_of, InFlight}
use quilkin.Xds.Link.Moves.{Keeps, InFlight-le}

module _ (k : Bytes) where
  abbrev or_else : Option Bytes → Option Bytes → Option Bytes
  or_else x y = elim x [ some v ↦ some v | none ↦ y ]

  abbrev pub listed : List Bytes → Bool
  listed names = any (λ name. same k name) names

  -- The last value of the name in a list of pairs.
  unfoldable pub last : List (Bytes × Bytes) → Option Bytes → Option Bytes
  last [] x = x
  last ((j, v) ∷ kvs) x = last kvs (if same k j then some v else x)

  pub last-or_else :
      (kvs : List (Bytes × Bytes)) (x : Option Bytes) → last kvs x ≡ or_else (last kvs none) x
  unfolding last
  last-or_else [] x = refl
  last-or_else ((j, v) ∷ kvs) x = ground (
    arith,
    last-or_else kvs x,
    last-or_else kvs (if same k j then some v else x),
    last-or_else kvs (if same k j then some v else none),
  )

  pub get-extend :
      (kvs : List (Bytes × Bytes)) (m : VersionMap)
      → Maps.get k (extend kvs m) ≡ last kvs (Maps.get k m)
  unfolding extend last
  get-extend [] m = refl
  get-extend ((j, v) ∷ kvs) m =
      get-extend kvs (Maps.insert j v m) ∙ ap (last kvs) (get-insert k j v m)

  last-IsSorted :
      (m : VersionMap) (x : Option Bytes) → IsSorted m → last m x ≡ or_else (Maps.get k m) x
  unfolding last Maps.get
  last-IsSorted [] x s = refl
  last-IsSorted ((j, v) ∷ m) x s = elim (Bool-cases (same k j)) [
    | inl e ↦
        ground
          (arith, e, same→eq k j e, get-head j m s, last-IsSorted m (some v) (Above-IsSorted j m s))
    | inr e ↦ ground (arith, e, last-IsSorted m x (Above-IsSorted j m s))
  ]

  get-remove_names :
      (names : List Bytes) (m : VersionMap)
      → Maps.get k (remove_names names m) ≡ (if listed names then none else Maps.get k m)
  unfolding remove_names
  get-remove_names [] m = refl
  get-remove_names (name ∷ names) m =
      ground (arith, get-remove_names names (Maps.remove name m), get-remove k name m)

  get-remove_all :
      (removed : Set Bytes) (cs : ClientState)
      → Maps.get k (remove_all removed cs).versions
        ≡ (if listed (Sets.elements removed) then none else Maps.get k cs.versions)
  unfolding remove_all
  get-remove_all [] cs = refl
  get-remove_all ((name, u) ∷ removed) cs = ground (
    arith,
    get-remove_all removed (record cs {
      subscribed = Sets.remove name cs.subscribed;
      versions = Maps.remove name cs.versions;
    }),
    get-remove k name cs.versions,
  )

  -- A name's version after an acknowledgement, from its version before.
  abbrev acked_get : AwaitingAck → Option Bytes → Option Bytes
  acked_get a x =
      or_else (Maps.get k a.versions) (if listed (Sets.elements a.removed) then none else x)

  pub get-acked :
      (a : AwaitingAck) (cs : ClientState)
      → IsSorted a.versions
      → Maps.get k (acked a cs).versions ≡ acked_get a (Maps.get k cs.versions)
  unfolding acked
  get-acked a cs s =
      let cs' = remove_all a.removed cs in
      get-extend a.versions cs'.versions
      ∙ last-IsSorted a.versions (Maps.get k cs'.versions) s
      ∙ ap (or_else (Maps.get k a.versions)) (get-remove_all a.removed cs)

  -- The client's versions after a response that the server waits for with `a`.
  pub get-handled :
      (a : AwaitingAck) (kvs : List (Bytes × Bytes)) (removed : List Bytes) (m : VersionMap)
      → a.versions ≡ extend kvs []
      → Sets.elements a.removed ≡ removed
      → Maps.get k (extend kvs (remove_names removed m)) ≡ acked_get a (Maps.get k m)
  unfolding Maps.get
  get-handled a kvs removed m e r =
      let x = if listed removed then none else Maps.get k m in
      get-extend kvs (remove_names removed m)
      ∙ ap (last kvs) (get-remove_names removed m)
      ∙ last-or_else kvs x
      ∙ ground (arith, e, r, get-extend kvs [])

pub extend-IsSorted :
    (kvs : List (Bytes × Bytes)) (m : VersionMap) → IsSorted m → IsSorted (extend kvs m)
unfolding extend
extend-IsSorted [] m s = s
extend-IsSorted ((j, v) ∷ kvs) m s =
    extend-IsSorted kvs (Maps.insert j v m) (insert-IsSorted j v m s)

module _ (ty k : Bytes) where
  -- What one request makes of the version of a name of the type.
  abbrev pub effect : Map ℕ AwaitingAck → DeltaDiscoveryRequest → Option Bytes → Option Bytes
  effect ack_map q x = elim (ack_of q) [
    | some n ↦ elim (Maps.get n ack_map) [
      | none ↦ x
      | some a ↦ if same a.type_url ty then acked_get k a x else x
    ]
    | none ↦
        if same q.type_url ty
        then (if is_empty_map q.initial_resource_versions
            then x
            else Maps.get k q.initial_resource_versions)
        else x
  ]

  abbrev pub settle : Map ℕ AwaitingAck → List DeltaDiscoveryRequest → Option Bytes → Option Bytes
  settle ack_map [] x = x
  settle ack_map (q ∷ qs) x = settle ack_map qs (effect ack_map q x)

  pub settle-snoc :
      (m : Map ℕ AwaitingAck) (qs : List DeltaDiscoveryRequest) (q : DeltaDiscoveryRequest)
      (x : Option Bytes)
      → settle m (qs ++ q ∷ []) x ≡ effect m q (settle m qs x)
  settle-snoc m [] q x = refl
  settle-snoc m (r ∷ qs) q x = settle-snoc m qs q (effect m r x)

  -- Requests on the way have the same effect with any tracker that still awaits them.
  pub settle_kept :
      {P : Type 0} (uuid : ℕ → ℕ) (t t' : ClientTracker) (top lo : ℕ)
      (qs : List DeltaDiscoveryRequest) (rs : List (DeltaDiscoveryResponse P)) (x : Option Bytes)
      → Keeps uuid lo top t t'
      → InFlight uuid t top lo qs rs
      → settle t'.ack_map qs x ≡ settle t.ack_map qs x
  settle_kept uuid t t' top lo [] rs x keeps h = refl
  settle_kept uuid t t' top lo (q ∷ qs) rs x keeps (inl (p, h)) =
      let same_effect : effect t'.ack_map q x ≡ effect t.ack_map q x = ground (arith, p.nonce) in
      ap (settle t'.ack_map qs) same_effect
      ∙ settle_kept uuid t t' top lo qs rs (effect t.ack_map q x) keeps h
  settle_kept uuid t t' top lo (q ∷ qs) rs x keeps (inr (i, a, l, c, h)) =
      let after = keeps i a l (InFlight-le uuid t top (suc i) qs rs h) c.awaits in
      let same_effect : effect t'.ack_map q x ≡ effect t.ack_map q x =
        ground (arith, c.nonce, c.awaits.0, after.0) in
      ap (settle t'.ack_map qs) same_effect
      ∙ settle_kept uuid t t' top (suc i) qs rs (effect t.ack_map q x)
          (λ j b n. keeps j b (omega (arith, l, n))) h
