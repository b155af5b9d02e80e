-- ===== src/Filters/Capture.antt =====
-- Capture (src/filters/capture.rs, src/filters/capture/affix.rs) and concatenation
-- (src/filters/concatenate.rs). The other strategies of a capture are a parameter.
pub mod Affix
use quilkin.Common.{
  ℕ, zero, suc, ◌-◌, Bool, true, false, Option, none, some, List, [], ◌∷◌, ◌++◌, length, take, drop,
  leb, if◌then◌else◌, is_some,
}
use quilkin.Common.Maps
use quilkin.Net.Address.{Bytes, bytes_ord}
use quilkin.Filters.{
  Value, ReadContext, WriteContext, FilterError, no_value_captured, Verdict, passed, failed,
}
use quilkin.Filters.Packet.{remove_head, remove_tail, extend_head, extend_tail}

-- An `isize`; `negsuc n` is -(n + 1).
pub data ℤ : Type 0 where
  pos : ℕ → ℤ
  negsuc : ℕ → ℤ

abbrev pub negate : ℕ → ℤ
negate zero = pos 0
negate (suc n) = negsuc n

-- `CaptureStrategy::capture`: what it captures, and how much of which end to remove.
abbrev pub CaptureStrategy : Type 0
CaptureStrategy = Bytes → Option (Value × ℤ)

abbrev is_valid_size : Bytes → ℕ → Bool
is_valid_size contents size = leb size (length contents)

unfoldable pub prefix : Bool → ℕ → CaptureStrategy
prefix remove size contents =
    if is_valid_size contents size
    then some (Value.bytes (take size contents), if remove then negate size else pos 0)
    else none

unfoldable pub suffix : Bool → ℕ → CaptureStrategy
suffix remove size contents =
    if is_valid_size contents size
    then some
        (Value.bytes (drop (length contents - size) contents), if remove then pos size else pos 0)
    else none

pub record Capture : Type 0 where
  pub capture : CaptureStrategy
  pub metadata_key : Bytes
  pub is_present_key : Bytes

-- `{metadata_key}/is_present`
abbrev pub present_suffix : Bytes
present_suffix = 0x2f ∷ 0x69 ∷ 0x73 ∷ 0x5f ∷ 0x70 ∷ 0x72 ∷ 0x65 ∷ 0x73 ∷ 0x65 ∷ 0x6e ∷ 0x74 ∷ []

unfoldable pub new_capture : CaptureStrategy → Bytes → Capture
new_capture strategy key = record {
  capture = strategy;
  metadata_key = key;
  is_present_key = key ++ present_suffix;
}

-- Less than nothing is removed from the head, more from the tail.
unfoldable pub remove_captured : ℤ → Bytes → Option Bytes
remove_captured (pos zero) contents = some contents
remove_captured (pos (suc n)) contents = some (remove_tail (suc n) contents)
remove_captured (negsuc n) contents = remove_head (suc n) contents

module _ {U R : Type 0} where
  unfoldable pub capture_read : Capture → ReadContext U R → Option (Verdict × ReadContext U R)
  unfolding remove_captured remove_head
  capture_read c ctx =
      let captured = c.capture ctx.contents in
      let metadata = Maps.insert c.is_present_key (Value.bool (is_some captured)) ctx.metadata in
      elim captured [
        | none ↦ some (failed no_value_captured, record ctx { metadata = metadata })
        | some (value, remove) ↦ elim (remove_captured remove ctx.contents) [
          | none ↦ none
          | some contents ↦ some (
            passed,
            record ctx {
              metadata = Maps.insert c.metadata_key value metadata;
              contents = contents;
            },
          )
        ]
      ]

pub data Strategy : Type 0 where
  append prepend do_nothing : Strategy

pub record Concatenate : Type 0 where
  pub on_read : Strategy
  pub on_write : Strategy
  pub bytes : Bytes

unfoldable pub concatenate : Strategy → Bytes → Bytes → Bytes
concatenate append bytes contents = extend_tail bytes contents
concatenate prepend bytes contents = extend_head bytes contents
concatenate do_nothing bytes contents = contents

unfoldable pub concatenate_read :
    {U R : Type 0} → Concatenate → ReadContext U R → Verdict × ReadContext U R
unfolding concatenate
concatenate_read c ctx =
    (passed, record ctx { contents = concatenate c.on_read c.bytes ctx.contents })

unfoldable pub concatenate_write : Concatenate → WriteContext → Verdict × WriteContext
unfolding concatenate
concatenate_write c ctx =
    (passed, record ctx { contents = concatenate c.on_write c.bytes ctx.contents })
