-- ===== src/Filters/Chain.antt =====
-- Chains of filters (src/filters/chain.rs), and the filters that always answer the same
-- (src/filters/drop.rs, src/filters/pass.rs). Timers and traces are left out.
pub mod Order
pub mod Route
use quilkin.Common.{
  ℕ, Bool, true, false, Option, none, some, List, [], ◌∷◌, ◌++◌, map, length, ◌==◌, if◌then◌else◌,
}
use quilkin.Net.Address.{EndpointAddress}
use quilkin.Net.Cluster.{Endpoint}
use quilkin.Net.Cluster.Clusters.{ClusterMap, endpoints}
use quilkin.Filters.{
  ReadContext, WriteContext, Filter, FilterError, dropped, Verdict, passed, failed,
}

-- With no destination chosen, all endpoints are.
unfoldable pub all_endpoints : {U R : Type 0} → ReadContext U R → ReadContext U R
unfolding endpoints
all_endpoints ctx =
    if length ctx.destinations == 0
    then record ctx {
      destinations = ctx.destinations ++ map (λ ep. ep.address) (endpoints ctx.endpoints.map);
    }
    else ctx

module _ {U R S : Type 0} where
  -- The loop of `read` over the filters.
  unfoldable pub read_all :
      List (Filter U R S) → ReadContext U R → S → Option (Verdict × ReadContext U R × S)
  read_all [] ctx s = some (passed, ctx, s)
  read_all (filter ∷ filters) ctx s = elim (filter.read ctx s) [
    | none ↦ none
    | some (verdict, ctx', s') ↦ elim verdict [
      | failed e ↦ some (failed e, ctx', s')
      | passed ↦ read_all filters ctx' s'
    ]
  ]

  unfoldable pub chain_read :
      List (Filter U R S) → ReadContext U R → S → Option (Verdict × ReadContext U R × S)
  unfolding read_all all_endpoints
  chain_read filters ctx s = elim (read_all filters ctx s) [
    | none ↦ none
    | some (verdict, ctx', s') ↦ elim verdict [
      | failed e ↦ some (failed e, ctx', s')
      | passed ↦ some (passed, all_endpoints ctx', s')
    ]
  ]

  -- The loop of `write`, over the filters in the order that it is given.
  unfoldable pub write_all :
      List (Filter U R S) → WriteContext → S → Option (Verdict × WriteContext × S)
  write_all [] ctx s = some (passed, ctx, s)
  write_all (filter ∷ filters) ctx s = elim (filter.write ctx s) [
    | none ↦ none
    | some (verdict, ctx', s') ↦ elim verdict [
      | failed e ↦ some (failed e, ctx', s')
      | passed ↦ write_all filters ctx' s'
    ]
  ]

  abbrev pub rev : List (Filter U R S) → List (Filter U R S)
  rev [] = []
  rev (filter ∷ filters) = rev filters ++ filter ∷ []

  unfoldable pub chain_write :
      List (Filter U R S) → WriteContext → S → Option (Verdict × WriteContext × S)
  unfolding write_all
  chain_write filters ctx s = write_all (rev filters) ctx s

  abbrev pub drop_filter : Filter U R S
  drop_filter = record {
    read = λ ctx s. some (failed dropped, ctx, s);
    write = λ ctx s. some (failed dropped, ctx, s);
  }

  abbrev pub pass_filter : Filter U R S
  pass_filter = record {
    read = λ ctx s. some (passed, ctx, s);
    write = λ ctx s. some (passed, ctx, s);
  }
