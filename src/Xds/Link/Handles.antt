-- ===== src/Xds/Link/Handles.antt =====
-- What the client does with a response, and the requests of a refresh (crates/xds/src/config.rs,
-- crates/xds/src/client.rs).
use quilkin.Common.{
  ℕ, suc, ◌≡◌, ◌≢◌, ◌⊎◌, refl, subst, inl, inr, Option, none, some, List, [], ◌∷◌, All,
  if◌then◌else◌, Option-cases, Bool-cases, arith,
}
use quilkin.Common.Order.{same, same_self, same→eq, same-ne}
use quilkin.Common.Maps
use quilkin.Net.Address.{Bytes, IpAddr, bytes_ord}
use quilkin.Xds.{VersionMap, DeltaDiscoveryRequest, DeltaDiscoveryResponse}
use quilkin.Xds.Tracker.{AwaitingAck, ClientTracker, extend}
use quilkin.Xds.Server.{Configuration, ignore_me, versions_of}
use quilkin.Xds.Client.{
  LocalVersions, new_local, get_local, put_local, remove_names, replied, reply,
  handle_delta_discovery_response, refresh,
}
use quilkin.Xds.Link.{IsWildcard}
use quilkin.Xds.Link.Flight.{IsPlain, Offers, IsBlank, InFlight}

pub get-put_local :
    (ty t : Bytes) (v' : VersionMap) (local : LocalVersions)
    → get_local ty (put_local t v' local) ≡ (
        if same t ty
        then elim (get_local t local) [ none ↦ none | some v ↦ some v' ]
        else get_local ty local)
unfolding get_local put_local
get-put_local ty t v' [] = ground arith
get-put_local ty t v' ((s, v) ∷ local) = ground (
  arith,
  get-put_local ty t v' local,
  same→eq s t,
  same→eq s ty,
  same→eq t ty,
  same_self t,
  same_self ty,
)

pub get-new_local :
    (types : List Bytes) (ty k : Bytes) (v : VersionMap)
    → get_local ty (new_local types) ≡ some v
    → Maps.get k v ≡ none
unfolding get_local new_local Maps.get
get-new_local [] ty k v e = absurd (ground (arith, e))
get-new_local (t ∷ types) ty k v e = elim (Bool-cases (same t ty)) [
  | inl f ↦ let empty : [] ≡ v = ground (arith, e, f) in subst (λ m. Maps.get k m ≡ none) empty refl
  | inr f ↦ get-new_local types ty k v (ground (arith, e, f))
]

-- The first response on the way has nothing in it, or is awaited.
pub first-response :
    {P : Type 0} (uuid : ℕ → ℕ) (t : ClientTracker) (top lo : ℕ) (qs : List DeltaDiscoveryRequest)
    (r : DeltaDiscoveryResponse P) (rs : List (DeltaDiscoveryResponse P))
    → InFlight uuid t top lo qs (r ∷ rs)
    → IsBlank r ⊎ ((n : ℕ) × (a : AwaitingAck) × Offers t n a r)
first-response uuid t top lo [] r rs (inl (b, h)) = inl b
first-response uuid t top lo [] r rs (inr (i, a, l, o, h)) = inr (uuid i, a, o)
first-response uuid t top lo (q ∷ qs) r rs (inl (p, h)) = first-response uuid t top lo qs r rs h
first-response uuid t top lo (q ∷ qs) r rs (inr (i, a, l, c, h)) =
    first-response uuid t top (suc i) qs r rs h

module _ {D P : Type 0} (cfg : Configuration D P) (addr : Option IpAddr) (failure : Bytes) where
  -- A response is applied and acknowledged, or refused and nothing changes.
  pub handled-cases :
      (r : DeltaDiscoveryResponse P) (config d : D) (local local' : LocalVersions)
      (req : DeltaDiscoveryRequest)
      → handle_delta_discovery_response cfg addr failure r config local ≡ replied req d local'
      → (r.type_url ≢ ignore_me)
        × (((v : VersionMap) × (get_local r.type_url local ≡ some v)
              × (req ≡ reply none r)
              × (local'
                  ≡ put_local r.type_url
                      (extend (versions_of r.resources) (remove_names r.removed_resources v))
                      local))
            ⊎ ((req ≡ reply (some failure) r) × (local' ≡ local)))
  unfolding handle_delta_discovery_response
  handled-cases r config d local local' req e = elim (Bool-cases (same r.type_url ignore_me)) [
    | inl f ↦ absurd (ground (arith, e, f))
    | inr f ↦ (
      same-ne r.type_url ignore_me f,
      elim (Bool-cases (cfg.apply_delta r.type_url r.resources r.removed_resources addr config).0) [
        | inr n ↦ inr (ground (arith, e, f, n), ground (arith, e, f, n))
        | inl o ↦ elim (Option-cases (get_local r.type_url local)) [
          | inl g ↦ absurd (ground (arith, e, f, o, g))
          | inr (v, g) ↦ inl (v, g, ground (arith, e, f, o, g), ground (arith, e, f, o, g))
        ]
      ],
    )
  ]

-- A request of a refresh names no resource, and has the local versions of its type.
abbrev pub IsRefresh : LocalVersions → DeltaDiscoveryRequest → Type 0
IsRefresh local q = IsPlain q × (get_local q.type_url local ≡ some q.initial_resource_versions)

pub refresh-IsRefresh :
    (identifier : Bytes) (subs : List (Bytes × List Bytes)) (local : LocalVersions)
    (requests : List DeltaDiscoveryRequest)
    → All IsWildcard subs
    → refresh identifier subs local ≡ some requests
    → All (IsRefresh local) requests
unfolding refresh
refresh-IsRefresh identifier [] local requests w e =
    let none_left : [] ≡ requests = ground (arith, e) in subst (All (IsRefresh local)) none_left tt
refresh-IsRefresh identifier ((rt, names) ∷ subs) local requests ((kind, no_names), w) e =
    elim (Option-cases (get_local rt local)) [
      | inl g ↦ absurd (ground (arith, e, g))
      | inr (versions, g) ↦ elim (Option-cases (refresh identifier subs local)) [
        | inl f ↦ absurd (ground (arith, e, f, g))
        | inr (rest, f) ↦
            let q : DeltaDiscoveryRequest = record {
              node = some identifier;
              type_url = rt;
              resource_names_subscribe = names;
              resource_names_unsubscribe = [];
              initial_resource_versions = versions;
              response_nonce = none;
              error_detail = none;
            } in
            let listed : q ∷ rest ≡ requests = ground (arith, e, f, g) in
            subst (All (IsRefresh local)) listed (
              (record { kind = kind; nonce = refl; subscribe = no_names; unsubscribe = refl }, g),
              refresh-IsRefresh identifier subs local rest w f,
            )
      ]
    ]
