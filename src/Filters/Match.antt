-- ===== src/Filters/Match.antt =====
-- The match filter (src/filters/match.rs): a value of the metadata chooses the filter to run.
use quilkin.Common.{Option, none, some, List, [], ◌∷◌, if◌then◌else◌}
use quilkin.Common.Maps
use quilkin.Net.Address.{Bytes, bytes_ord}
use quilkin.Filters.{
  Value, value_eq, DynamicMetadata, Filter, match_no_metadata, Verdict, passed, failed,
}

pub record ConfigInstance (F : Type 0) : Type 0 where
  pub metadata_key : Bytes
  pub branches : List (Value × F)
  pub fallthrough : F

-- `branches.iter().find(...)`, with the fallthrough for none.
unfoldable pub find_branch : {F : Type 0} → List (Value × F) → Value → F → F
find_branch [] value fallthrough = fallthrough
find_branch ((key, instance') ∷ branches) value fallthrough =
    if value_eq key value then instance' else find_branch branches value fallthrough

module _ {F C S : Type 0} where
  -- The filter that is chosen runs by `and_then`.
  unfoldable pub match_filter :
      Option (ConfigInstance F)
      → (C → DynamicMetadata)
      → (C → F → S → Option (Verdict × C × S))
      → C
      → S
      → Option (Verdict × C × S)
  unfolding find_branch
  match_filter none get_metadata and_then ctx s = some (passed, ctx, s)
  match_filter (some config) get_metadata and_then ctx s =
      elim (Maps.get config.metadata_key (get_metadata ctx)) [
        | none ↦ some (failed match_no_metadata, ctx, s)
        | some value ↦ and_then ctx (find_branch config.branches value config.fallthrough) s
      ]

pub record Match (U R S : Type 0) : Type 0 where
  pub on_read_filters : Option (ConfigInstance (Filter U R S))
  pub on_write_filters : Option (ConfigInstance (Filter U R S))

module _ {U R S : Type 0} where
  unfoldable pub match_as_filter : Match U R S → Filter U R S
  unfolding match_filter
  match_as_filter m = record {
    read =
        λ ctx s. match_filter m.on_read_filters (λ c. c.metadata) (λ c filter. filter.read c) ctx s;
    write = λ ctx s.
        match_filter m.on_write_filters (λ c. c.metadata) (λ c filter. filter.write c) ctx s;
  }
