-- ===== src/Codec/Qcmp.antt =====
-- The control messages of src/codec/qcmp.rs: packets, their encoding and their parsing. A timestamp is
-- the 64 bits of its nanoseconds, and arithmetic on it wraps.
pub mod RoundTrip
pub mod Errors
pub mod Sound
pub mod Delay
pub mod Nonces
use quilkin.Common.{
  ℕ, zero, suc, ◌+◌, ◌-◌, ◌*◌, ◌%◌, ◌^◌, Bool, true, false, not, Option, none, some, List, [], ◌∷◌,
  ◌++◌, if◌then◌else◌, length, take, ltb, ◌==◌,
}
use quilkin.Common.Order.{Ord, same}
use quilkin.Net.Address.{Bytes, bytes_ord}
use quilkin.Codec.Bytes.{be_bytes, from_be, read_slice, read}

abbrev pub magic_number : Bytes
magic_number = 0x51 ∷ 0x4c ∷ 0x4b ∷ 0x4e ∷ []

abbrev pub current_version : ℕ
current_version = 0

abbrev pub min_qcmp_packet_len : ℕ
min_qcmp_packet_len = 4 + 1 + 1 + 1 + 2 + 8

abbrev pub max_qcmp_packet_len : ℕ
max_qcmp_packet_len = min_qcmp_packet_len + 8 * 2

abbrev pub ping_code : ℕ
ping_code = 0

abbrev pub pong_code : ℕ
pong_code = 1

pub record QcmpPacket : Type 0 where
  pub buf : Bytes
  pub len : ℕ

abbrev pub deref : QcmpPacket → Bytes
deref packet = take packet.len packet.buf

-- The bytes of the buffer before the builder's offset; what stands after them is zero at the end.
abbrev pub PacketBuilder : Type 0
PacketBuilder = Bytes

abbrev pub zeros : ℕ → Bytes
zeros zero = []
zeros (suc n) = 0 ∷ zeros n

abbrev push : PacketBuilder → ℕ → PacketBuilder
push pb val = pb ++ val ∷ []

abbrev push_slice : PacketBuilder → Bytes → PacketBuilder
push_slice pb slice = pb ++ slice

unfoldable pub finalize : PacketBuilder → QcmpPacket
finalize pb = record { buf = pb ++ zeros (max_qcmp_packet_len - length pb); len = length pb }

pub data Protocol : Type 0 where
  ping : (client_timestamp nonce : ℕ) → Protocol
  ping_reply :
      (client_timestamp nonce server_start_timestamp server_transmit_timestamp : ℕ) → Protocol

pub data Error : Type 0 where
  unknown_version : ℕ → Error
  length_mismatch : ℕ → ℕ → Error
  invalid_command : ℕ → Error

pub data Result (A : Type 0) : Type 0 where
  ok : A → Result A
  err : Error → Result A

unfoldable pub nonce : Protocol → ℕ
nonce (ping client_timestamp n) = n
nonce (ping_reply client_timestamp n server_start server_transmit) = n

unfoldable pub discriminant : Protocol → ℕ
discriminant (ping client_timestamp n) = ping_code
discriminant (ping_reply client_timestamp n server_start server_transmit) = pong_code

unfoldable pub payload_length : ℕ → Result ℕ
payload_length code =
    if code == ping_code
    then ok ((1 + 8 * 1) % 2 ^ 16)
    else if code == pong_code
    then ok ((1 + 8 * 3) % 2 ^ 16)
    else err (invalid_command code)

-- `unwrap`: `payload_length` knows every discriminant that a message has.
unfoldable pub discriminant_length : Protocol → ℕ
unfolding payload_length discriminant
discriminant_length p = elim (payload_length (discriminant p)) [ ok n ↦ n | err e ↦ 0 ]

unfoldable pub encode_payload : Protocol → PacketBuilder → PacketBuilder
unfolding nonce
encode_payload (ping client_timestamp n) pb =
    push_slice (push pb (nonce (ping client_timestamp n))) (be_bytes 8 client_timestamp)
encode_payload (ping_reply client_timestamp n server_start server_transmit) pb =
    let pb1 = push pb (nonce (ping_reply client_timestamp n server_start server_transmit)) in
    let pb2 = push_slice pb1 (be_bytes 8 client_timestamp) in
    let pb3 = push_slice pb2 (be_bytes 8 server_start) in
    push_slice pb3 (be_bytes 8 server_transmit)

unfoldable pub encode : Protocol → QcmpPacket
unfolding encode_payload discriminant discriminant_length finalize
encode p =
    let pb1 = push_slice [] magic_number in
    let pb2 = push pb1 current_version in
    let pb3 = push pb2 (discriminant p) in
    let pb4 = push_slice pb3 (be_bytes 2 (discriminant_length p)) in finalize (encode_payload p pb4)

-- A parse that may read past the end: `none`. The state is what is left of the packet.
abbrev pub Parser : Type 0 → Type 0
Parser A = Option (Result (Option A))

infixl 5 ◌>>=◌
abbrev ◌>>=◌ : {A B : Type 0} → Option (A × Bytes) → (A × Bytes → Parser B) → Parser B
none >>= f = none
some r >>= f = f r

abbrev parse_timestamp : Bytes → Option (ℕ × Bytes)
parse_timestamp pp = elim (read_slice 8 pp) [ none ↦ none | some (s, r) ↦ some (from_be s, r) ]

-- The payload once the discriminant and the lengths are checked.
unfoldable pub parse_payload : ℕ → Bytes → Parser Protocol
parse_payload code pp = do
  (n, pp1) ← read pp
  (client_timestamp, pp2) ← parse_timestamp pp1
  if code == ping_code then some (ok (some (ping client_timestamp n))) else (do
    (server_start, pp3) ← parse_timestamp pp2
    (server_transmit, pp4) ← parse_timestamp pp3
    some (ok (some (ping_reply client_timestamp n server_start server_transmit))))

-- From the length field on, given the size that the discriminant asks for.
unfoldable pub parse_sized : ℕ → ℕ → ℕ → Bytes → Parser Protocol
unfolding parse_payload payload_length
parse_sized code size packet_len pp =
    if ltb packet_len size then some (err (length_mismatch size packet_len)) else (do
      (s, pp1) ← read_slice 2 pp
      elim (payload_length code) [
        | err e ↦ some (err e)
        | ok expected ↦
            if not (from_be s == expected)
            then some (err (length_mismatch (from_be s) expected))
            else if not (from_be s == length pp1)
            then some (err (length_mismatch (from_be s) (length pp1)))
            else parse_payload code pp1
      ])

-- From the version on.
unfoldable pub parse_versioned : ℕ → Bytes → Parser Protocol
unfolding parse_sized
parse_versioned packet_len pp = do
  (version, pp1) ← read pp
  if not (version == current_version) then some (err (unknown_version version)) else (do
    (code, pp2) ← read pp1
    if code == ping_code
        then parse_sized code min_qcmp_packet_len packet_len pp2
        else if code == pong_code
        then parse_sized code max_qcmp_packet_len packet_len pp2
        else some (err (invalid_command code)))

unfoldable pub parse : Bytes → Parser Protocol
unfolding parse_versioned
parse input =
    if ltb (length input) min_qcmp_packet_len
    then some (err (length_mismatch min_qcmp_packet_len (length input)))
    else (do
      (magic, pp) ← read_slice 4 input
      if not (same magic magic_number) then some (ok none) else parse_versioned (length input) pp)

-- `round_trip_delay` and `distance`, on 64 bits.
abbrev pub sub64 : ℕ → ℕ → ℕ
sub64 a b = (a + (2 ^ 64 - b % 2 ^ 64)) % 2 ^ 64

unfoldable pub round_trip_delay : Protocol → ℕ → Option ℕ
round_trip_delay (ping client_timestamp n) response = none
round_trip_delay (ping_reply client_timestamp n server_start server_transmit) response =
    some (sub64 (sub64 response client_timestamp) (sub64 server_transmit server_start))

pub record DistanceMeasure : Type 0 where
  pub incoming : ℕ
  pub outgoing : ℕ

unfoldable pub distance : Protocol → ℕ → Option DistanceMeasure
distance (ping client_timestamp n) response = none
distance (ping_reply client_timestamp n server_start server_transmit) response = some (record {
  incoming = sub64 server_start client_timestamp;
  outgoing = sub64 response server_transmit;
})
