-- ===== src/Net/Locality/Parts.antt =====
-- Localities: their parts, printed and parsed (crates/xds/src/locality.rs).
use mathlib.Core.List.{append-nil}
use quilkin.Common.{
  List-cases, ℕ, suc, ◌+◌, ◌-◌, ◌≡◌, ◌≤◌, refl, sym, subst, inl, inr, Bool-cases, Option-cases,
  Bool, false, none, some, List, [], ◌∷◌, ◌++◌, length, length-append, drop, any, ◌==◌,
  if◌then◌else◌, arith,
}
use quilkin.Net.Address.{Bytes, Locality}
use quilkin.Filters.Capture.Affix.{take-append}
use quilkin.Net.Locality.{
  sep, is_empty, slice, ProtoLocality, new, colon_separated_string, region_of, zone_of, sub_zone_of,
  ok, split, invalid, parse_components, from_str, from_proto, unwrap_or_default, to_proto,
}

slice_first : (xs ys : Bytes) → slice 0 (length xs) (xs ++ ys) ≡ some xs
unfolding slice
slice_first xs ys = ground (arith, take-append xs ys, length-append xs ys)

drop_past : (c : ℕ) (xs ys : Bytes) → drop (length xs + 1) (xs ++ c ∷ ys) ≡ ys
drop_past c [] ys = refl
drop_past c (x ∷ xs) ys = ground (arith, drop_past c xs ys)

slice_second :
    (c : ℕ) (xs ys zs : Bytes)
    → slice (length xs + 1) (length xs + 1 + length ys) (xs ++ c ∷ (ys ++ zs)) ≡ some ys
unfolding slice
slice_second c xs ys zs =
    let n : length xs + 1 + length ys - (length xs + 1) ≡ length ys = omega arith in
    ground (
      arith,
      n,
      drop_past c xs (ys ++ zs),
      take-append ys zs,
      length-append xs (c ∷ (ys ++ zs)),
      length-append ys zs,
    )

drop_second :
    (c d : ℕ) (xs ys zs : Bytes)
    → drop (length xs + 1 + length ys + 1) (xs ++ c ∷ (ys ++ d ∷ zs)) ≡ zs
drop_second c d [] ys zs =
    let n : 0 + 1 + length ys + 1 ≡ suc (length ys + 1) = omega arith in
    subst (λ k. drop k (c ∷ (ys ++ d ∷ zs)) ≡ zs) (sym n) (drop_past d ys zs)
drop_second c d (x ∷ xs) ys zs =
    let n : suc (length xs) + 1 + length ys + 1 ≡ suc (length xs + 1 + length ys + 1) =
      omega arith in
    subst (λ k. drop k (x ∷ (xs ++ c ∷ (ys ++ d ∷ zs))) ≡ zs) (sym n) (drop_second c d xs ys zs)

region_of-new : (region zone sub_zone : Bytes) → region_of (new region zone sub_zone) ≡ some region
unfolding region_of new
region_of-new region [] sub_zone =
    subst (λ s. slice 0 (length region) s ≡ some region) (append-nil region) (slice_first region [])
region_of-new region (c ∷ zone) sub_zone =
    slice_first region (sep ∷ (c ∷ zone ++ (if is_empty sub_zone then [] else sep ∷ sub_zone)))

zone_of-new :
    (region zone sub_zone : Bytes)
    → zone_of (new region zone sub_zone) ≡ some (if is_empty zone then none else some zone)
unfolding zone_of new
zone_of-new region [] sub_zone = refl
zone_of-new region (c ∷ zone) sub_zone =
    let rest : Bytes = if is_empty sub_zone then [] else sep ∷ sub_zone in
    ground (arith, slice_second sep region (c ∷ zone) rest)

sub_zone_of-new :
    (region zone sub_zone : Bytes)
    → unwrap_or_default (sub_zone_of (new region zone sub_zone))
      ≡ (if is_empty zone then [] else sub_zone)
unfolding sub_zone_of new
sub_zone_of-new region [] sub_zone = refl
sub_zone_of-new region (c ∷ zone) [] =
    ground (arith, length-append region (sep ∷ (c ∷ zone ++ [])), length-append zone [])
sub_zone_of-new region (c ∷ zone) (d ∷ sub_zone) = ground (
  arith,
  drop_second sep sep region (c ∷ zone) (d ∷ sub_zone),
  length-append region (sep ∷ (c ∷ zone ++ sep ∷ d ∷ sub_zone)),
  length-append zone (sep ∷ d ∷ sub_zone),
)

-- The parts of a locality in a message are those that it was made of; without a zone there is no zone
-- below it.
to_proto-from_proto :
    (p : ProtoLocality)
    → to_proto (from_proto p)
      ≡ some (if is_empty p.zone then record { region = p.region; zone = []; sub_zone = [] } else p)
unfolding to_proto from_proto
to_proto-from_proto p = ground (
  arith,
  region_of-new p.region p.zone p.sub_zone,
  zone_of-new p.region p.zone p.sub_zone,
  sub_zone_of-new p.region p.zone p.sub_zone,
)

-- Whether a text has a separator in it.
abbrev has_sep : Bytes → Bool
has_sep s = any (λ c. c == sep) s

split_word : (xs : Bytes) → has_sep xs ≡ false → split xs ≡ xs ∷ []
unfolding split
split_word [] e = refl
split_word (x ∷ xs) e = ground (arith, split_word xs, e)

split-append : (xs ys : Bytes) → has_sep xs ≡ false → split (xs ++ sep ∷ ys) ≡ xs ∷ split ys
unfolding split
split-append [] ys e = refl
split-append (x ∷ xs) ys e = ground (arith, split-append xs ys, e)

-- A locality whose parts have no separator, and whose region is not empty, is what its own text is
-- parsed to.
pub from_str-new :
    (region zone sub_zone : Bytes)
    → has_sep region ≡ false
    → has_sep zone ≡ false
    → has_sep sub_zone ≡ false
    → is_empty region ≡ false
    → from_str (colon_separated_string (new region zone sub_zone)) ≡ ok (new region zone sub_zone)
unfolding from_str new
from_str-new [] zone sub_zone r z s e = absurd (cc e)
from_str-new (x ∷ region) [] sub_zone r z s e = ground (arith, split_word (x ∷ region) r)
from_str-new (x ∷ region) (c ∷ zone) [] r z s e = ground (
  arith,
  split-append (x ∷ region) (c ∷ zone ++ []) r,
  append-nil (c ∷ zone),
  split_word (c ∷ zone) z,
)
from_str-new (x ∷ region) (c ∷ zone) (d ∷ sub_zone) r z s e = ground (
  arith,
  split-append (x ∷ region) (c ∷ zone ++ sep ∷ d ∷ sub_zone) r,
  split-append (c ∷ zone) (d ∷ sub_zone) z,
  split_word (d ∷ sub_zone) s,
)

few : (rest : List Bytes) → invalid rest ≡ none → length rest ≤ 2
few [] e = omega arith
few (x ∷ []) e = omega arith
few (x ∷ y ∷ []) e = omega arith
few (x ∷ y ∷ w ∷ rest) e = absurd (cc e)

parse_components_lem :
    (input region : Bytes) (rest : List Bytes) (l : Locality)
    → parse_components input region rest ≡ ok l
    → (l.buffer ≡ input) × (l.region ≡ length region) × (invalid rest ≡ none)
parse_components_lem input region rest l e = elim (Option-cases (invalid rest)) [
  | inl f ↦ ground (arith, e, f)
  | inr (w, f) ↦ absurd (ground (arith, e, f))
]

-- What is parsed prints as the text that it was parsed from, its region is that text's first
-- component, which is not empty, and there are at most three components.
pub from_str-colon_separated_string :
    (input : Bytes) (l : Locality)
    → from_str input ≡ ok l
    → (colon_separated_string l ≡ input)
      × ((region : Bytes) × (rest : List Bytes) × (split input ≡ region ∷ rest)
          × (is_empty region ≡ false)
          × (l.region ≡ length region)
          × (length rest ≤ 2))
unfolding from_str
from_str-colon_separated_string input l e = elim (Bool-cases (is_empty input)) [
  | inl f ↦ absurd (ground (arith, e, f))
  | inr f ↦ elim (List-cases (split input)) [
    | inl g ↦ absurd (ground (arith, e, f, g))
    | inr (region, rest, g) ↦ elim (Bool-cases (is_empty region)) [
      | inl h ↦ absurd (ground (arith, e, f, g, h))
      | inr h ↦
          let (b, r, n) = parse_components_lem input region rest l (ground (arith, e, f, g, h)) in
          (b, (region, rest, g, h, r, few rest n))
    ]
  ]
]
