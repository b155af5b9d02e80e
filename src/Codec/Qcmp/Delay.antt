-- ===== src/Codec/Qcmp/Delay.antt =====
-- The round trip delay and the two distances of src/codec/qcmp.rs.
use quilkin.Common.{ℕ, ◌+◌, ◌%◌, ◌^◌, ◌≡◌, none, some, arith}
use quilkin.Codec.Qcmp.{Protocol, ping, ping_reply, round_trip_delay, distance}

-- Whatever the server's clock is off by, and however long it takes to answer, the delay is the time
-- that the two messages were under way, on 64 bits.
pub delay-ignores-offset :
    (client n up work down offset : ℕ)
    → (let start = (client + up + offset) % 2 ^ 64 in
        let transmit = (client + up + work + offset) % 2 ^ 64 in
        let response = (client + up + work + down) % 2 ^ 64 in
        round_trip_delay (ping_reply client n start transmit) response
        ≡ some ((up + down) % 2 ^ 64))
unfolding round_trip_delay
delay-ignores-offset client n up work down offset = ground arith

-- The delay is the sum of the two distances, on 64 bits; a ping has neither.
pub delay-eq-distances :
    (p : Protocol) (response : ℕ)
    → round_trip_delay p response ≡ (elim (distance p response) [
      | none ↦ none
      | some m ↦ some ((m.incoming + m.outgoing) % 2 ^ 64)
    ])
unfolding round_trip_delay distance
delay-eq-distances (ping c n) response = ground arith
delay-eq-distances (ping_reply c n s t) response = ground arith
