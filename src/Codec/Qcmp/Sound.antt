-- ===== src/Codec/Qcmp/Sound.antt =====
-- The bytes that `parse` accepts (src/codec/qcmp.rs).
use quilkin.Common.{
  ℕ, zero, suc, ◌<◌, ◌≡◌, ◌∙◌, some, [], ◌∷◌, length, take, drop, arith, take-append-drop,
}
use quilkin.Common.Order.{same→eq}
use quilkin.Net.Address.{Bytes, bytes_ord}
use quilkin.Codec.Bytes.{from_be, read_slice, read, AllBytes}
use quilkin.Codec.Qcmp.{
  Protocol, ok, payload_length, parse, parse_versioned, parse_sized, deref, encode, discriminant,
  discriminant_length, magic_number,
}
use quilkin.Codec.Qcmp.RoundTrip.{payload, deref-encode}
use quilkin.Codec.Qcmp.Errors.{parse_payload_sound, drop-AllBytes}

abbrev sized : Protocol → Bytes
sized p = 0 ∷ discriminant_length p ∷ payload p

parse_sized_sound :
    (code size n : ℕ) (pp : Bytes) (p : Protocol)
    → AllBytes pp
    → code < 2
    → parse_sized code size n pp ≡ some (ok (some p))
    → (discriminant p ≡ code) × (sized p ≡ pp)
unfolding parse_sized read_slice payload_length from_be discriminant discriminant_length
parse_sized_sound code size n [] p b k e = absurd (ground arith)
parse_sized_sound code size n (x ∷ []) p b k e = absurd (ground arith)
parse_sized_sound zero size n (x ∷ y ∷ pp) p b k e =
    ground (arith, parse_payload_sound 0 pp p b.1.1)
parse_sized_sound (suc zero) size n (x ∷ y ∷ pp) p b k e =
    ground (arith, parse_payload_sound 1 pp p b.1.1)
parse_sized_sound (suc (suc code)) size n (x ∷ y ∷ pp) p b k e = absurd (omega arith)

parse_versioned_sound :
    (n : ℕ) (pp : Bytes) (p : Protocol)
    → AllBytes pp
    → parse_versioned n pp ≡ some (ok (some p))
    → 0 ∷ discriminant p ∷ sized p ≡ pp
unfolding parse_versioned read
parse_versioned_sound n [] p b e = absurd (ground arith)
parse_versioned_sound n (v ∷ []) p b e = absurd (ground arith)
parse_versioned_sound n (v ∷ c ∷ pp) p b e =
    ground (arith, parse_sized_sound c 17 n pp p b.1.1, parse_sized_sound c 33 n pp p b.1.1)

-- Bytes, each below 256, that parse to a message are exactly the encoding of that message.
pub encode-parse :
    (input : Bytes) (p : Protocol)
    → AllBytes input
    → parse input ≡ some (ok (some p))
    → deref (encode p) ≡ input
unfolding parse read_slice
encode-parse input p b e =
    deref-encode p
    ∙ ground (
      arith,
      take-append-drop 4 input,
      same→eq (take 4 input) magic_number,
      parse_versioned_sound (length input) (drop 4 input) p (drop-AllBytes 4 input b),
    )
