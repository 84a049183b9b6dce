-- ===== src/Gateway/Codec/RoundTrip.antt =====
-- What is built parses back: packets, acknowledgements.
use orange_pi_stm32_for_rov.Prelude.{
  ℕ, zero, suc, ◌+◌, ◌^◌, ◌<◌, true, ◌≡◌, refl, sym, ap, ◌∙◌, List, [], ◌∷◌, ◌++◌, length,
  length-append, drop, All, ◌==◌, if◌then◌else◌, arith,
}
use orange_pi_stm32_for_rov.Gateway.Bytes.{IsByte, le_bytes}
use orange_pi_stm32_for_rov.Gateway.Crc32c.{crc32c}
use orange_pi_stm32_for_rov.Gateway.Crc32c.Reference.{crc32c-lt}
use orange_pi_stm32_for_rov.Gateway.Protocol.{
  PacketHeader, IsInRange, AckCode, ack_code_value, MsgType, msg_type_value, encode_header,
  decode_header, header_zero_crc, calc_header_crc, header_basic_valid, msg_type_known, msg_type_of,
  decode_header-encode_header, length-encode_header, encode_header-IsByte,
}
use orange_pi_stm32_for_rov.Gateway.Codec.{
  parsed, make_header, stamp_crc, build_packet, check_crc, parse_and_validate, ack_payload,
  ack_header, build_ack,
}

drop-append : (xs ys : List ℕ) (n : ℕ) → length xs ≡ n → drop n (xs ++ ys) ≡ ys
drop-append [] ys zero h = refl
drop-append [] ys (suc n) h = absurd (omega arith)
drop-append (x ∷ xs) ys zero h = absurd (omega arith)
drop-append (x ∷ xs) ys (suc n) h = drop-append xs ys n (omega arith)

calc_header_crc-lt : (h : PacketHeader) → calc_header_crc h < 2 ^ 32
unfolding calc_header_crc
calc_header_crc-lt h = crc32c-lt _ (encode_header-IsByte (header_zero_crc h))

-- The header checksum does not depend on the checksum fields.
calc_header_crc-stamp_crc :
    (h : PacketHeader) (p : List ℕ)
    → calc_header_crc (stamp_crc h p) ≡ (stamp_crc h p).header_crc32c
unfolding calc_header_crc header_zero_crc stamp_crc
calc_header_crc-stamp_crc h p = refl

stamp_crc-IsInRange :
    (h : PacketHeader) (p : List ℕ) → IsInRange h → All IsByte p → IsInRange (stamp_crc h p)
unfolding stamp_crc
stamp_crc-IsInRange h p r b = ground (
  arith,
  crc32c-lt p b,
  calc_header_crc-lt (record h { payload_crc32c = if h.payload_len == 0 then 0 else crc32c p }),
)

decode_header-build_packet :
    (h : PacketHeader) (p : List ℕ)
    → IsInRange h
    → All IsByte p
    → decode_header (build_packet h p) ≡ stamp_crc h p
unfolding build_packet
decode_header-build_packet h p r b =
    decode_header-encode_header (stamp_crc h p) p (stamp_crc-IsInRange h p r b)

length-build_packet : (h : PacketHeader) (p : List ℕ) → length (build_packet h p) ≡ 48 + length p
unfolding build_packet
length-build_packet h p =
    omega
      (arith, length-append (encode_header (stamp_crc h p)) p, length-encode_header (stamp_crc h p))

drop-build_packet : (h : PacketHeader) (p : List ℕ) → drop 48 (build_packet h p) ≡ p
unfolding build_packet
drop-build_packet h p = drop-append (encode_header (stamp_crc h p)) p 48 (length-encode_header _)

header_basic_valid-stamp_crc :
    (h : PacketHeader) (p : List ℕ) → header_basic_valid (stamp_crc h p) ≡ header_basic_valid h
unfolding header_basic_valid stamp_crc
header_basic_valid-stamp_crc h p = refl

stamp_crc_fields :
    (h : PacketHeader) (p : List ℕ)
    → ((stamp_crc h p).payload_len ≡ h.payload_len)
      × ((stamp_crc h p).payload_crc32c ≡ (if h.payload_len == 0 then 0 else crc32c p))
unfolding stamp_crc
stamp_crc_fields h p = (refl, refl)

check_crc-stamp_crc :
    (h : PacketHeader) (p : List ℕ) → check_crc (stamp_crc h p) p ≡ parsed (stamp_crc h p) p
unfolding check_crc
check_crc-stamp_crc h p = ground (arith, calc_header_crc-stamp_crc h p, stamp_crc_fields h p)

-- A packet that build_packet makes from a valid header, whose fields fit their types and whose length
-- field is the length of the payload, parses back to that header, with both checksums filled in, and
-- to that payload.
pub parse_and_validate-build_packet :
    (h : PacketHeader) (p : List ℕ)
    → IsInRange h
    → All IsByte p
    → header_basic_valid h ≡ true
    → h.payload_len ≡ length p
    → parse_and_validate (build_packet h p) ≡ parsed (stamp_crc h p) p
unfolding parse_and_validate
parse_and_validate-build_packet h p r b v l =
    rw (decode_header-build_packet h p r b, drop-build_packet h p)
      (ground (
        arith,
        length-build_packet h p,
        header_basic_valid-stamp_crc h p,
        stamp_crc_fields h p,
        check_crc-stamp_crc h p,
      ))

ack_payload_lem : (code : AckCode) → ack_payload code ≡ ack_code_value code ∷ 0 ∷ 0 ∷ 0 ∷ []
unfolding ack_payload le_bytes
ack_payload_lem code = ground arith

ack_bytes : (code : AckCode) → All IsByte (ack_code_value code ∷ 0 ∷ 0 ∷ 0 ∷ [])
ack_bytes code = ground arith

ack_header-IsInRange :
    (tx_seq session_id ack_seq : ℕ)
    → tx_seq < 2 ^ 32
    → session_id < 2 ^ 64
    → ack_seq < 2 ^ 32
    → IsInRange (ack_header tx_seq session_id ack_seq)
unfolding ack_header make_header
ack_header-IsInRange tx_seq session_id ack_seq t s a = ground arith

ack_header_fields :
    (tx_seq session_id ack_seq : ℕ)
    → (header_basic_valid (ack_header tx_seq session_id ack_seq) ≡ true)
      × ((ack_header tx_seq session_id ack_seq).payload_len ≡ 4)
unfolding ack_header make_header header_basic_valid msg_type_known msg_type_of
ack_header_fields tx_seq session_id ack_seq = (refl, refl)

stamped_ack :
    (tx_seq session_id ack_seq : ℕ) (p : List ℕ)
    → let h = stamp_crc (ack_header tx_seq session_id ack_seq) p in
      (h.msg_type ≡ msg_type_value MsgType.ack)
      × (h.seq ≡ tx_seq)
      × (h.session_id ≡ session_id)
      × (h.ack_seq ≡ ack_seq)
      × (h.flags ≡ 2)
unfolding stamp_crc ack_header make_header
stamped_ack tx_seq session_id ack_seq p = (refl, refl, refl, refl, refl)

-- An acknowledgement parses to a header of type ACK that carries the session, the sequence number of
-- the sender and the number that it acknowledges, with the ACK flag, and to a payload of four bytes
-- that starts with the code.
pub parse_and_validate-build_ack :
    (tx_seq session_id ack_seq : ℕ) (code : AckCode)
    → tx_seq < 2 ^ 32
    → session_id < 2 ^ 64
    → ack_seq < 2 ^ 32
    → (h : PacketHeader) × (parse_and_validate (build_ack tx_seq session_id ack_seq code)
        ≡ parsed h (ack_code_value code ∷ 0 ∷ 0 ∷ 0 ∷ []))
      × (h.msg_type ≡ msg_type_value MsgType.ack)
      × (h.seq ≡ tx_seq)
      × (h.session_id ≡ session_id)
      × (h.ack_seq ≡ ack_seq)
      × (h.flags ≡ 2)
unfolding build_ack
parse_and_validate-build_ack tx_seq session_id ack_seq code t s a =
    let h = ack_header tx_seq session_id ack_seq in
    let p = ack_payload code in
    let e = ack_payload_lem code in
    let f = ack_header_fields tx_seq session_id ack_seq in
    let x = stamped_ack tx_seq session_id ack_seq p in
    let parses =
      parse_and_validate-build_packet h p (ack_header-IsInRange tx_seq session_id ack_seq t s a)
        (rw e (ack_bytes code)) f.0 (f.1 ∙ sym (ap length e)) in
    (stamp_crc h p, parses ∙ ap (parsed (stamp_crc h p)) e, x.0, x.1, x.2, x.3, x.4)
