-- ===== src/Codec/Qcmp/RoundTrip.antt =====
-- The bytes that `encode` writes (src/codec/qcmp.rs), and how `parse` reads them.
use quilkin.Common.{ℕ, ◌^◌, ◌<◌, ◌≡◌, refl, ◌∙◌, some, [], ◌∷◌, ◌++◌, arith}
use quilkin.Common.Order.Derive.{list_ord}
use quilkin.Net.Address.{Bytes, bytes_ord}
use quilkin.Codec.Bytes.{
  be_bytes, from_be, read_slice, read, length-be_bytes, from_be-be_bytes, read_slice-append,
}
use quilkin.Codec.Qcmp.{
  Protocol, ping, ping_reply, ok, deref, encode, discriminant_length, discriminant, nonce, parse,
  parse_payload,
}

-- What is sent: the header, then the payload.
abbrev pub frame : ℕ → ℕ → Bytes → Bytes
frame code len payload = 0x51 ∷ 0x4c ∷ 0x4b ∷ 0x4e ∷ 0 ∷ code ∷ 0 ∷ len ∷ payload

-- The numbers of a message fit their fields.
abbrev pub InRange : Protocol → Type 0
InRange (ping c n) = (n < 256) × (c < 2 ^ 64)
InRange (ping_reply c n s t) = (n < 256) × (c < 2 ^ 64) × (s < 2 ^ 64) × (t < 2 ^ 64)

abbrev pub payload : Protocol → Bytes
payload (ping c n) = n ∷ be_bytes 8 c ++ []
payload (ping_reply c n s t) = n ∷ be_bytes 8 c ++ (be_bytes 8 s ++ (be_bytes 8 t ++ []))

pub deref-encode :
    (p : Protocol) → deref (encode p) ≡ frame (discriminant p) (discriminant_length p) (payload p)
unfolding encode discriminant_length be_bytes nonce
deref-encode (ping c n) = refl
deref-encode (ping_reply c n s t) = refl

next : (x : ℕ) (rest : Bytes) → read_slice 8 (be_bytes 8 x ++ rest) ≡ some (be_bytes 8 x, rest)
next x rest = read_slice-append 8 (be_bytes 8 x) rest (length-be_bytes 8 x)

value : (x : ℕ) → x < 2 ^ 64 → from_be (be_bytes 8 x) ≡ x
value x h = from_be-be_bytes 8 x (omega arith)

parse_payload-payload :
    (p : Protocol) → InRange p → parse_payload (discriminant p) (payload p) ≡ some (ok (some p))
unfolding parse_payload discriminant read
parse_payload-payload (ping c n) h = ground (arith, next c [], value c h.1)
parse_payload-payload (ping_reply c n s t) h = ground (
  arith,
  next c (be_bytes 8 s ++ (be_bytes 8 t ++ [])),
  next s (be_bytes 8 t ++ []),
  next t [],
  value c h.1,
  value s h.2,
  value t h.3,
)

pub parse-header :
    (p : Protocol) → parse (deref (encode p)) ≡ parse_payload (discriminant p) (payload p)
unfolding parse encode discriminant read read_slice from_be be_bytes bytes_ord list_ord
parse-header (ping c n) = refl
parse-header (ping_reply c n s t) = refl

-- A message whose numbers fit their fields, encoded and parsed, is the same message.
pub parse-encode : (p : Protocol) → InRange p → parse (deref (encode p)) ≡ some (ok (some p))
parse-encode p h = parse-header p ∙ parse_payload-payload p h
