-- ===== src/Xds/Link/Flight.antt =====
-- What is on its way in a link is what the server waits for (crates/xds/src/config.rs,
-- `ClientTracker`).
use quilkin.Common.{ℕ, suc, ◌≡◌, ◌≢◌, ◌≤◌, ◌⊎◌, true, Option, none, some, List, [], ◌∷◌, is_some}
use quilkin.Common.Order.{ℕ_ord}
use quilkin.Common.Maps
use quilkin.Common.Maps.{Map, get-insert, get-remove}
use quilkin.Common.Maps.Sorted.{IsSorted}
use quilkin.Common.Sets
use quilkin.Net.Address.{bytes_ord}
use quilkin.Xds.{DeltaDiscoveryRequest, DeltaDiscoveryResponse}
use quilkin.Xds.Tracker.{AwaitingAck, ClientTracker, get_state, extend}
use quilkin.Xds.Server.{ignore_me, versions_of}

-- The nonce that a request acknowledges.
abbrev pub ack_of : DeltaDiscoveryRequest → Option ℕ
ack_of req = elim req.error_detail [ some e ↦ none | none ↦ req.response_nonce ]

-- A request that acknowledges nothing and names no resource.
pub record IsPlain (req : DeltaDiscoveryRequest) : Type 0 where
  pub kind : req.type_url ≢ ignore_me
  pub nonce : ack_of req ≡ none
  pub subscribe : req.resource_names_subscribe ≡ []
  pub unsubscribe : req.resource_names_unsubscribe ≡ []

abbrev pub Awaits : ClientTracker → ℕ → AwaitingAck → Type 0
Awaits t n a =
    (Maps.get n t.ack_map ≡ some a)
    × (is_some (get_state a.type_url t) ≡ true)
    × IsSorted a.versions

-- A request that acknowledges `n`.
pub record Confirms (t : ClientTracker) (n : ℕ) (a : AwaitingAck) (req : DeltaDiscoveryRequest)
    : Type 0 where
  pub kind : req.type_url ≢ ignore_me
  pub nonce : ack_of req ≡ some n
  pub awaits : Awaits t n a

module _ {P : Type 0} where
  -- A response that waits for `n`.
  pub record Offers (t : ClientTracker) (n : ℕ) (a : AwaitingAck) (r : DeltaDiscoveryResponse P)
      : Type 0 where
    pub nonce : r.nonce ≡ some n
    pub awaits : Awaits t n a
    pub kind : a.type_url ≡ r.type_url
    pub versions : a.versions ≡ extend (versions_of r.resources) []
    pub removed : Sets.elements a.removed ≡ r.removed_resources

  pub record IsBlank (r : DeltaDiscoveryResponse P) : Type 0 where
    pub nonce : r.nonce ≡ none
    pub resources : r.resources ≡ []
    pub removed : r.removed_resources ≡ []

  module _ (uuid : ℕ → ℕ) (t : ClientTracker) (top : ℕ) where
    -- The UUIDs on the way rise, from `lo` to below `top`.
    abbrev pub Responses : ℕ → List (DeltaDiscoveryResponse P) → Type 0
    Responses lo [] = lo ≤ top
    Responses lo (r ∷ rs) =
        (IsBlank r × Responses lo rs)
        ⊎ ((i : ℕ) × (a : AwaitingAck) × (lo ≤ i) × Offers t (uuid i) a r × Responses (suc i) rs)

    abbrev pub InFlight : ℕ → List DeltaDiscoveryRequest → List (DeltaDiscoveryResponse P) → Type 0
    InFlight lo [] rs = Responses lo rs
    InFlight lo (q ∷ qs) rs =
        (IsPlain q × InFlight lo qs rs)
        ⊎ ((i : ℕ) × (a : AwaitingAck) × (lo ≤ i)
            × Confirms t (uuid i) a q
            × InFlight (suc i) qs rs)
