-- ===== src/Net/Pipeline/Gated.antt =====
-- A chain that routes by a token, with a gate behind it, and destinations that are left over
-- (src/filters/chain.rs, src/filters/token_router.rs).
use mathlib.Core.List.{append-nil}
use quilkin.Common.{
  List-cases, ℕ, ◌≡◌, ◌≢◌, refl, ap, ◌∙◌, inl, inr, Option-cases, true, some, List, [], ◌∷◌, ◌++◌,
  length, ◌==◌, if◌then◌else◌, arith,
}
use quilkin.Common.Maps
use quilkin.Common.Maps.{Map, get-insert_self}
use quilkin.Common.Order.{ℕ_ord}
use quilkin.Common.Sets
use quilkin.Net.Address.{Bytes, EndpointAddress, bytes_ord, address_ord}
use quilkin.Net.Cluster.Clusters.{ClusterMap, addresses_for_token}
use quilkin.Filters.{
  Value, ReadContext, Filter, token_router, no_endpoint_match, Verdict, passed, failed,
  new_read_context,
}
use quilkin.Filters.Capture.{present_suffix}
use quilkin.Filters.Capture.Affix.{capture_read-suffix}
use quilkin.Filters.Routing.{token_router_read}
use quilkin.Filters.Chain.{read_all, chain_read, all_endpoints}
use quilkin.Filters.Chain.Order.{then_run, read_all-append}
use quilkin.Filters.Chain.Route.{route_by_token}

-- What the chain by token makes of a packet that comes with a list of destinations.
abbrev pub routed_context :
    {U R : Type 0}
    → Bytes
    → ClusterMap U R
    → EndpointAddress
    → Bytes
    → Bytes
    → List EndpointAddress
    → ReadContext U R
routed_context key cm source body token destinations = record {
  endpoints = cm;
  destinations = destinations;
  source = source;
  contents = body;
  metadata =
      Maps.insert key (Value.bytes token)
        (Maps.insert (key ++ present_suffix) (Value.bool true) []);
}

gate_lem :
    {U R S : Type 0} (gate : Filter U R S) (verdict : Verdict) (ctx : ReadContext U R) (s s' : S)
    → gate.read ctx s ≡ some (verdict, ctx, s')
    → read_all (gate ∷ []) ctx s ≡ some (verdict, ctx, s')
unfolding read_all
gate_lem gate verdict ctx s s' e = ground (arith, e)

-- With a destination chosen, the chain leaves what its filters leave.
chain_read-read_all :
    {U R S : Type 0} (filters : List (Filter U R S)) (ctx ctx' : ReadContext U R) (s s' : S)
    (verdict : Verdict)
    → read_all filters ctx s ≡ some (verdict, ctx', s')
    → length ctx'.destinations ≢ 0
    → chain_read filters ctx s ≡ some (verdict, ctx', s')
unfolding chain_read all_endpoints
chain_read-read_all filters ctx ctx' s s' passed e n = ground (arith, e, n)
chain_read-read_all filters ctx ctx' s s' (failed f) e n = ground (arith, e)

pub missing_keeps :
    {U R : Type 0} (token : ℕ) (cm : ClusterMap U R) (left : List EndpointAddress)
    → length (addresses_for_token token cm []) ≡ 0
    → addresses_for_token token cm left ≡ left
unfolding addresses_for_token
missing_keeps token cm left e = elim (Option-cases (Maps.get token cm.token_map)) [
  | inl f ↦ ground (arith, f)
  | inr (addrs, f) ↦ elim (List-cases (Sets.elements addrs)) [
    | inl g ↦ rw (f, addresses_for_token) (rw g (append-nil left))
    | inr (x, rest, g) ↦ absurd (ground (arith, e, f, g))
  ]
]

module _ {U R S : Type 0} (hash_token : Bytes → ℕ) (key : Bytes) (cm : ClusterMap U R) where
  -- It refuses a packet only when there is no destination at all, its own or one left over.
  read_all-left :
      (body token : Bytes) (source : EndpointAddress) (left : List EndpointAddress) (s : S)
      → (let routed = addresses_for_token (hash_token token) cm left in
          read_all
            (route_by_token {U = U} {R = R} {S = S} hash_token (length token) key)
            (new_read_context cm source (body ++ token) left)
            s
          ≡ some (
            if length routed == 0 then failed (token_router (no_endpoint_match token)) else passed,
            routed_context key cm source body token routed,
            s,
          ))
  unfolding read_all token_router_read new_read_context
  read_all-left body token source left s =
      let ctx = new_read_context cm source (body ++ token) left in
      ground (
        arith,
        capture_read-suffix key body token ctx refl,
        get-insert_self key (Value.bytes token)
            (Maps.insert (key ++ present_suffix) (Value.bool true) []),
      )

  -- With a gate behind it, that lets the packet that is routed through or not.
  pub chain_read-gated :
      (gate : Filter U R S) (verdict : Verdict) (body token : Bytes) (source : EndpointAddress)
      (left : List EndpointAddress) (s s' : S)
      → (let ctx =
            routed_context key cm source body token
              (addresses_for_token (hash_token token) cm left) in
          gate.read ctx s ≡ some (verdict, ctx, s'))
      → length (addresses_for_token (hash_token token) cm left) ≢ 0
      → chain_read
          (route_by_token hash_token (length token) key ++ gate ∷ [])
          (new_read_context cm source (body ++ token) left)
          s
        ≡ some (
          verdict,
          routed_context key cm source body token (addresses_for_token (hash_token token) cm left),
          s',
        )
  chain_read-gated gate verdict body token source left s s' g found =
      let routed = addresses_for_token (hash_token token) cm left in
      let ctx = new_read_context cm source (body ++ token) left in
      let ctx' = routed_context key cm source body token routed in
      chain_read-read_all (route_by_token hash_token (length token) key ++ gate ∷ []) ctx ctx' s s'
        verdict
        (read_all-append (route_by_token hash_token (length token) key) (gate ∷ []) ctx s
          ∙ ap (λ o. then_run o (read_all (gate ∷ []))) (read_all-left body token source left s)
          ∙ ground (arith, found, gate_lem gate verdict ctx' s s' g))
        found
