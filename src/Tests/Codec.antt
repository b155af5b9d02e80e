-- ===== src/Tests/Codec.antt =====
-- The control messages at concrete inputs; the two packets are those of the program's own tests.
use quilkin.Common.{◌+◌, ◌<◌, ◌≡◌, refl, some, [], ◌∷◌, ◌++◌, length, ltb, if◌then◌else◌, arith}
use quilkin.Common.Order.Derive.{list_ord}
use quilkin.Net.Address.{Bytes, bytes_ord}
use quilkin.Codec.Bytes.{read, read_slice, from_be, be_bytes}
use quilkin.Codec.Qcmp.{ping, ping_reply, ok, parse, encode, deref}
use quilkin.Codec.Qcmp.RoundTrip.{parse-encode}
use quilkin.Codec.Qcmp.Sound.{encode-parse}
use quilkin.Codec.Qcmp.Nonces.{new_pool, lease, Reaches, count, u8_max, nonce_held_once}

abbrev stamp : Bytes
stamp = 0 ∷ 0 ∷ 0 ∷ 0 ∷ 0x63 ∷ 0xb6 ∷ 0xe9 ∷ 0x57 ∷ []

abbrev ping_packet : Bytes
ping_packet = 0x51 ∷ 0x4c ∷ 0x4b ∷ 0x4e ∷ 0 ∷ 0 ∷ 0 ∷ 9 ∷ 0xBF ∷ stamp

abbrev reply_packet : Bytes
reply_packet = 0x51 ∷ 0x4c ∷ 0x4b ∷ 0x4e ∷ 0 ∷ 1 ∷ 0 ∷ 25 ∷ 0xBF ∷ stamp ++ (stamp ++ stamp)

parses_ping : parse ping_packet ≡ some (ok (some (ping 0x63b6e957 0xBF)))
unfolding parse read read_slice from_be bytes_ord list_ord
parses_ping = refl

parses_reply :
    parse reply_packet ≡ some (ok (some (ping_reply 0x63b6e957 0xBF 0x63b6e957 0x63b6e957)))
unfolding parse read read_slice from_be bytes_ord list_ord
parses_reply = refl

encodes_ping : deref (encode (ping 0x63b6e957 0xBF)) ≡ ping_packet
unfolding encode be_bytes
encodes_ping = refl

parse-encode_example :
    parse (deref (encode (ping_reply 5 7 6 8))) ≡ some (ok (some (ping_reply 5 7 6 8)))
parse-encode_example = parse-encode (ping_reply 5 7 6 8) (omega arith)

encode-parse_example : deref (encode (ping 0x63b6e957 0xBF)) ≡ ping_packet
encode-parse_example = encode-parse ping_packet (ping 0x63b6e957 0xBF) (omega arith) parses_ping

nonce_held_once_example :
    count 4 (lease 4 new_pool).1.nonces + count 4 (lease 4 new_pool).1.leased
    ≡ (if ltb 4 u8_max then 1 else 0)
nonce_held_once_example =
    nonce_held_once (lease 4 new_pool).1 4 (Reaches.leases new_pool 4 Reaches.here)

pool_filled : 254 < length new_pool.nonces
unfolding new_pool
pool_filled = omega arith
