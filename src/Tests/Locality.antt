-- ===== src/Tests/Locality.antt =====
-- Localities at concrete inputs.
use quilkin.Common.{◌≡◌, ◌≤◌, refl, false, none, List, [], ◌∷◌, length}
use quilkin.Net.Address.{Bytes, Locality}
use quilkin.Net.Locality.{new, from_str, split, ok, colon_separated_string, is_empty, ProtoLocality}
use quilkin.Net.Locality.Parts.{from_str-new, from_str-colon_separated_string}

-- "eu", "de" and "a".
abbrev eu : Bytes
eu = 101 ∷ 117 ∷ []

abbrev de : Bytes
de = 100 ∷ 101 ∷ []

abbrev place : ProtoLocality
place = record { region = eu; zone = de; sub_zone = 97 ∷ [] }

-- "eu::a".
abbrev unzoned : Locality
unzoned = record { buffer = 101 ∷ 117 ∷ 58 ∷ 58 ∷ 97 ∷ []; region = 2; zone = none }

unzoned_parsed : from_str (101 ∷ 117 ∷ 58 ∷ 58 ∷ 97 ∷ []) ≡ ok unzoned
unfolding from_str split
unzoned_parsed = refl

from_str-new_example :
    from_str (colon_separated_string (new eu de (97 ∷ []))) ≡ ok (new eu de (97 ∷ []))
from_str-new_example = from_str-new eu de (97 ∷ []) refl refl refl refl

from_str-colon_separated_string_example :
    (colon_separated_string unzoned ≡ 101 ∷ 117 ∷ 58 ∷ 58 ∷ 97 ∷ [])
    × ((region : Bytes) × (rest : List Bytes) × (split (101 ∷ 117 ∷ 58 ∷ 58 ∷ 97 ∷ [])
          ≡ region ∷ rest)
        × (is_empty region ≡ false)
        × (unzoned.region ≡ length region)
        × (length rest ≤ 2))
from_str-colon_separated_string_example =
    from_str-colon_separated_string (101 ∷ 117 ∷ 58 ∷ 58 ∷ 97 ∷ []) unzoned unzoned_parsed
