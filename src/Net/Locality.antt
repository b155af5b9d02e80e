-- ===== src/Net/Locality.antt =====
-- Localities as text (crates/xds/src/locality.rs), byte by byte. A slice out of range panics: it is
-- none.
pub mod Parts
use quilkin.Common.{
  ℕ, ◌+◌, ◌-◌, Bool, true, false, ◌&&◌, Option, none, some, List, [], ◌∷◌, ◌++◌, length, take, drop,
  ltb, leb, ◌==◌, if◌then◌else◌,
}
use quilkin.Net.Address.{Bytes, Locality}

-- ':'
abbrev pub sep : ℕ
sep = 58

abbrev pub is_empty : Bytes → Bool
is_empty [] = true
is_empty (b ∷ bs) = false

-- `&s[start..end]`.
unfoldable pub slice : ℕ → ℕ → Bytes → Option Bytes
slice start end s =
    if leb start end && leb end (length s) then some (take (end - start) (drop start s)) else none

-- The parts of a locality in a message.
pub record ProtoLocality : Type 0 where
  pub region : Bytes
  pub zone : Bytes
  pub sub_zone : Bytes

unfoldable pub new : Bytes → Bytes → Bytes → Locality
new region zone sub_zone =
    if is_empty zone
    then record { buffer = region; region = length region; zone = none }
    else record {
      buffer = region ++ sep ∷ (zone ++ (if is_empty sub_zone then [] else sep ∷ sub_zone));
      region = length region;
      zone = some (length region + 1 + length zone);
    }

unfoldable with_region : Bytes → Locality
with_region region = record { buffer = region; region = length region; zone = none }

abbrev pub colon_separated_string : Locality → Bytes
colon_separated_string l = l.buffer

unfoldable pub region_of : Locality → Option Bytes
unfolding slice
region_of l = slice 0 l.region l.buffer

unfoldable pub zone_of : Locality → Option (Option Bytes)
unfolding slice
zone_of l = elim l.zone [
  | none ↦ some none
  | some z ↦ elim (slice (l.region + 1) z l.buffer) [ none ↦ none | some s ↦ some (some s) ]
]

unfoldable pub sub_zone_of : Locality → Option Bytes
sub_zone_of l = elim l.zone [
  | none ↦ none
  | some z ↦ if ltb (z + 1) (length l.buffer) then some (drop (z + 1) l.buffer) else none
]

pub data ParseError : Type 0 where
  region_not_specified : ParseError
  too_many_components : Bytes → ParseError

pub data Parsed : Type 0 where
  ok : Locality → Parsed
  err : ParseError → Parsed

abbrev prepend : ℕ → List Bytes → List Bytes
prepend c [] = (c ∷ []) ∷ []
prepend c (w ∷ ws) = (c ∷ w) ∷ ws

-- `split(':')`.
unfoldable pub split : Bytes → List Bytes
split [] = [] ∷ []
split (c ∷ cs) = let rest = split cs in if c == sep then [] ∷ rest else prepend c rest

-- The end of the zone, given the second component.
abbrev zone_end : ℕ → List Bytes → Option ℕ
zone_end region [] = none
zone_end region ([] ∷ rest) = none
zone_end region ((c ∷ cs) ∷ rest) = some (region + 1 + length (c ∷ cs))

-- The component after the third.
abbrev pub invalid : List Bytes → Option Bytes
invalid (zone ∷ sub_zone ∷ w ∷ rest) = some w
invalid _ = none

-- The components after the region.
abbrev pub parse_components : Bytes → Bytes → List Bytes → Parsed
parse_components input region rest = elim (invalid rest) [
  | some w ↦ err (too_many_components w)
  | none ↦
      ok (record { buffer = input; region = length region; zone = zone_end (length region) rest })
]

unfoldable pub from_str : Bytes → Parsed
unfolding split
from_str input = if is_empty input then err region_not_specified else elim (split input) [
  | [] ↦ err region_not_specified
  | region ∷ rest ↦
      if is_empty region then err region_not_specified else parse_components input region rest
]

unfoldable pub from_proto : ProtoLocality → Locality
unfolding new
from_proto value = new value.region value.zone value.sub_zone

abbrev pub unwrap_or_default : Option Bytes → Bytes
unwrap_or_default none = []
unwrap_or_default (some s) = s

unfoldable pub to_proto : Locality → Option ProtoLocality
unfolding region_of zone_of sub_zone_of
to_proto value = elim (region_of value) [
  | none ↦ none
  | some region ↦ elim (zone_of value) [
    | none ↦ none
    | some zone ↦ some (record {
      region = region;
      zone = unwrap_or_default zone;
      sub_zone = unwrap_or_default (sub_zone_of value);
    })
  ]
]
