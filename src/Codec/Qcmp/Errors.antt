-- ===== src/Codec/Qcmp/Errors.antt =====
-- The reads and the answers of `parse` (src/codec/qcmp.rs).
use quilkin.Common.{
  ℕ, zero, suc, ◌≤◌, ◌<◌, ◌≡◌, ◌≢◌, ◌↔◌, refl, ap, sym, ◌∙◌, none, some, [], ◌∷◌, ◌++◌,
  if◌then◌else◌, length, take, drop, ◌==◌, arith, length-drop, length-take, take-append-drop, subst,
}
use quilkin.Common.Order.{same, same→eq, same_self}
use quilkin.Net.Address.{Bytes, bytes_ord}
use quilkin.Codec.Bytes.{be_bytes, from_be, read_slice, read, be_bytes-from_be, AllBytes}
use quilkin.Codec.Qcmp.{
  Protocol, ping, ping_reply, ok, payload_length, parse, parse_sized, parse_payload,
  parse_versioned, magic_number, discriminant,
}
use quilkin.Codec.Qcmp.RoundTrip.{payload}

pub drop-AllBytes : (n : ℕ) (bs : Bytes) → AllBytes bs → AllBytes (drop n bs)
drop-AllBytes zero bs b = b
drop-AllBytes (suc n) [] b = tt
drop-AllBytes (suc n) (x ∷ bs) b = drop-AllBytes n bs b.1

take-AllBytes : (n : ℕ) (bs : Bytes) → AllBytes bs → AllBytes (take n bs)
take-AllBytes zero bs b = tt
take-AllBytes (suc n) [] b = tt
take-AllBytes (suc n) (x ∷ bs) b = (b.0, take-AllBytes n bs b.1)

-- The field at the head of the bytes, decoded and encoded again.
again :
    (k : ℕ) (bs : Bytes)
    → AllBytes bs
    → k ≤ length bs
    → be_bytes k (from_be (take k bs)) ++ drop k bs ≡ bs
again k bs b h =
    let encoded = be_bytes-from_be (take k bs) (take-AllBytes k bs b) in
    ap (λ n. be_bytes n (from_be (take k bs)) ++ drop k bs) (sym (length-take k bs h))
    ∙ ap (λ s. s ++ drop k bs) encoded
    ∙ take-append-drop k bs

no_rest : (k : ℕ) (bs : Bytes) → length bs ≡ k → drop k bs ≡ []
no_rest zero [] h = refl
no_rest zero (b ∷ bs) h = absurd (omega arith)
no_rest (suc k) [] h = refl
no_rest (suc k) (b ∷ bs) h = no_rest k bs (omega arith)

abbrev ping_of : Bytes → ℕ → Protocol
ping_of bs n = ping (from_be (take 8 bs)) n

abbrev reply_of : Bytes → ℕ → Protocol
reply_of bs n =
    ping_reply (from_be (take 8 bs)) n (from_be (take 8 (drop 8 bs)))
      (from_be (take 8 (drop 8 (drop 8 bs))))

payload-ping_of :
    (bs : Bytes) (n : ℕ) → AllBytes bs → length bs ≡ 8 → payload (ping_of bs n) ≡ n ∷ bs
payload-ping_of bs n b l =
    ap (λ r. n ∷ be_bytes 8 (from_be (take 8 bs)) ++ r) (sym (no_rest 8 bs l))
    ∙ ap (λ r. n ∷ r) (again 8 bs b (omega arith))

payload-reply_of :
    (bs : Bytes) (n : ℕ) → AllBytes bs → length bs ≡ 24 → payload (reply_of bs n) ≡ n ∷ bs
payload-reply_of bs n b l =
    let (r, r') : Bytes × Bytes = (drop 8 bs, drop 8 (drop 8 bs)) in
    let last : length r' ≡ 8 = omega (arith, length-drop 8 bs, length-drop 8 r) in
    rw (sym (no_rest 8 r' last)) (
      rw (
        again 8 r' (drop-AllBytes 8 r (drop-AllBytes 8 bs b)) (omega arith),
        again 8 r (drop-AllBytes 8 bs b) (omega (arith, length-drop 8 bs)),
        again 8 bs b (omega arith),
      ))

-- A payload that is read in full is the payload of the message.
pub parse_payload_sound :
    (code : ℕ) (pp : Bytes) (p : Protocol)
    → AllBytes pp
    → length pp ≡ (if code == 0 then 9 else 25)
    → code < 2
    → parse_payload code pp ≡ some (ok (some p))
    → (discriminant p ≡ code) × (payload p ≡ pp)
unfolding parse_payload read read_slice discriminant
parse_payload_sound code [] p b l k e = absurd (ground arith)
parse_payload_sound zero (n ∷ pp) p b l k e =
    let same : ping_of pp n ≡ p = ground (arith) in
    subst (λ q. (discriminant q ≡ 0) × (payload q ≡ n ∷ pp)) same
      (refl, payload-ping_of pp n b.1 (omega arith))
parse_payload_sound (suc zero) (n ∷ pp) p b l k e =
    let same : reply_of pp n ≡ p = ground (arith, length-drop 8 pp, length-drop 8 (drop 8 pp)) in
    subst (λ q. (discriminant q ≡ 1) × (payload q ≡ n ∷ pp)) same
      (refl, payload-reply_of pp n b.1 (omega arith))
parse_payload_sound (suc (suc code)) (n ∷ pp) p b l k e = absurd (omega arith)

payload_decided : (code : ℕ) (pp : Bytes) → parse_payload code pp ≢ some (ok none)
unfolding parse_payload read read_slice
payload_decided code pp h = ground arith

sized_decided : (code size n : ℕ) (pp : Bytes) → parse_sized code size n pp ≢ some (ok none)
unfolding parse_sized read_slice payload_length
sized_decided code size n pp h = ground (arith, payload_decided code (drop 2 pp))

versioned_decided : (n : ℕ) (pp : Bytes) → parse_versioned n pp ≢ some (ok none)
unfolding parse_versioned read
versioned_decided n [] h = cc
versioned_decided n (v ∷ []) h = ground arith
versioned_decided n (v ∷ c ∷ pp) h =
    ground (arith, sized_decided c 17 n pp, sized_decided c 33 n pp)

-- A packet is passed over as not a control message exactly when it is long enough for one and does
-- not start with the magic number.
pub parse_foreign_iff :
    (input : Bytes)
    → (parse input ≡ some (ok none)) ↔ ((17 ≤ length input) × (take 4 input ≢ magic_number))
unfolding parse read_slice
parse_foreign_iff input = (
  λ e. (
    ground (arith, versioned_decided (length input) (drop 4 input)),
    λ h. ground (
      arith,
      versioned_decided (length input) (drop 4 input),
      ap (λ m. same m magic_number) h ∙ same_self magic_number,
    ),
  ),
  λ h. ground (arith, same→eq (take 4 input) magic_number),
)
