-- ===== src/Gateway/Codec/Reject.antt =====
-- What parsing accepts, and that it refuses the rest with the right code.
use mathlib.Core.Path.{ap₂}
use orange_pi_stm32_for_rov.Prelude.{
  ℕ, ◌+◌, ◌≤◌, Bool, true, not, ◌&&◌, ◌≡◌, ◌≢◌, ◌↔◌, ◌⊎◌, sym, ap, ◌∙◌, List, length, drop, ltb,
  ◌==◌, if◌then◌else◌, Bool-cases, inl, inr, arith,
}
use orange_pi_stm32_for_rov.Gateway.Crc32c.{crc32c}
use orange_pi_stm32_for_rov.Gateway.Protocol.{
  PacketHeader, AckCode, bad_format, crc_fail, k_magic, k_proto_version, k_max_payload_bytes,
  decode_header, calc_header_crc, header_basic_valid, msg_type_known,
}
use orange_pi_stm32_for_rov.Gateway.Codec.{
  parsed, refused, check_crc, parse_and_validate, PacketViewError, view, failed, make_packet_view,
}

-- The shape that both parsers ask for.
pub record IsShaped (bytes : List ℕ) (h : PacketHeader) (p : List ℕ) : Type 0 where
  pub header : h ≡ decode_header bytes
  pub payload : p ≡ drop 48 bytes
  pub long_enough : 48 ≤ length bytes
  pub magic : h.magic ≡ k_magic
  pub version : h.version ≡ k_proto_version
  pub known : msg_type_known h.msg_type ≡ true
  pub bounded : h.payload_len ≤ k_max_payload_bytes
  pub size : length bytes ≡ 48 + h.payload_len

-- The checksums that parse_and_validate asks for.
pub record IsChecked (h : PacketHeader) (p : List ℕ) : Type 0 where
  pub header_crc : h.header_crc32c ≡ calc_header_crc h
  pub empty_crc : (h.payload_len ≢ 0) ⊎ (h.payload_crc32c ≡ 0)
  pub payload_crc : (h.payload_len ≡ 0) ⊎ (h.payload_crc32c ≡ crc32c p)

header_valid_parts :
    (h : PacketHeader)
    → header_basic_valid h ≡ true
    → (h.magic ≡ k_magic)
      × (h.version ≡ k_proto_version)
      × (msg_type_known h.msg_type ≡ true)
      × (h.payload_len ≤ k_max_payload_bytes)
unfolding header_basic_valid
header_valid_parts h e = ground arith

header_valid_of_parts :
    (h : PacketHeader)
    → h.magic ≡ k_magic
    → h.version ≡ k_proto_version
    → msg_type_known h.msg_type ≡ true
    → h.payload_len ≤ k_max_payload_bytes
    → header_basic_valid h ≡ true
unfolding header_basic_valid
header_valid_of_parts h m v k l = ground arith

-- The tests of shape and of checksums, as one test each.
shape_test : List ℕ → PacketHeader → Bool
shape_test bytes h =
    not (ltb (length bytes) 48) && header_basic_valid h && length bytes == 48 + h.payload_len

crc_test : PacketHeader → List ℕ → Bool
crc_test h p =
    calc_header_crc h == h.header_crc32c
    && (if h.payload_len == 0 then h.payload_crc32c == 0 else crc32c p == h.payload_crc32c)

shape_test-IsShaped :
    (bytes : List ℕ)
    → shape_test bytes (decode_header bytes) ≡ true
    → IsShaped bytes (decode_header bytes) (drop 48 bytes)
unfolding shape_test
shape_test-IsShaped bytes e = ground (arith, header_valid_parts (decode_header bytes))

IsShaped-shape_test :
    (bytes : List ℕ) (h : PacketHeader) (p : List ℕ)
    → IsShaped bytes h p
    → shape_test bytes h ≡ true
unfolding shape_test
IsShaped-shape_test bytes h p s =
    ground (arith, header_valid_of_parts h s.magic s.version s.known s.bounded)

crc_test-IsChecked : (h : PacketHeader) (p : List ℕ) → crc_test h p ≡ true → IsChecked h p
unfolding crc_test
crc_test-IsChecked h p e = ground arith

IsChecked-crc_test : (h : PacketHeader) (p : List ℕ) → IsChecked h p → crc_test h p ≡ true
unfolding crc_test
IsChecked-crc_test h p c = ground arith

check_crc_lem :
    (h : PacketHeader) (p : List ℕ)
    → check_crc h p ≡ (if crc_test h p then parsed h p else refused crc_fail)
unfolding check_crc crc_test
check_crc_lem h p = ground arith

parse_lem :
    (bytes : List ℕ)
    → parse_and_validate bytes ≡ (
        if shape_test bytes (decode_header bytes)
        then check_crc (decode_header bytes) (drop 48 bytes)
        else refused bad_format)
unfolding parse_and_validate shape_test
parse_lem bytes = ground arith

make_packet_view_lem :
    (bytes : List ℕ)
    → shape_test bytes (decode_header bytes) ≡ true
    → make_packet_view bytes ≡ view (decode_header bytes) (drop 48 bytes)
unfolding make_packet_view shape_test
make_packet_view_lem bytes e = ground (arith, header_valid_parts (decode_header bytes))

view_sound :
    (bytes : List ℕ) (h : PacketHeader) (p : List ℕ)
    → make_packet_view bytes ≡ view h p
    → (shape_test bytes (decode_header bytes) ≡ true)
      × (h ≡ decode_header bytes)
      × (p ≡ drop 48 bytes)
unfolding make_packet_view shape_test
view_sound bytes h p e = ground arith

not_too_large :
    (bytes : List ℕ) → make_packet_view bytes ≢ failed PacketViewError.payload_len_too_large
unfolding make_packet_view
not_too_large bytes e = ground (arith, header_valid_parts (decode_header bytes))

parsed_sound :
    (bytes : List ℕ) (h : PacketHeader) (p : List ℕ)
    → parse_and_validate bytes ≡ parsed h p
    → IsShaped bytes h p × IsChecked h p
parsed_sound bytes h p e =
    let d = decode_header bytes in
    let q = drop 48 bytes in
    elim (Bool-cases (shape_test bytes d)) [
      | inr f ↦ absurd (ground (arith, parse_lem bytes))
      | inl f ↦ elim (Bool-cases (crc_test d q)) [
        | inr g ↦ absurd (ground (arith, parse_lem bytes, check_crc_lem d q))
        | inl g ↦ ground (
          arith,
          parse_lem bytes,
          check_crc_lem d q,
          shape_test-IsShaped bytes f,
          crc_test-IsChecked d q g,
        )
      ]
    ]

parsed_complete :
    (bytes : List ℕ) (h : PacketHeader) (p : List ℕ)
    → IsShaped bytes h p
    → IsChecked h p
    → parse_and_validate bytes ≡ parsed h p
parsed_complete bytes h p s c = ground (
  arith,
  parse_lem bytes,
  check_crc_lem h p,
  IsShaped-shape_test bytes h p s,
  IsChecked-crc_test h p c,
  s.header,
  s.payload,
)

-- A packet is accepted exactly if it has a whole header of the right magic, version, known type and a
-- payload length of at most 1024, is as long as the header says, and both checksums agree (for an
-- empty payload its checksum field is 0). What is returned is the decoded header and the bytes after
-- it.
pub parsed_iff :
    (bytes : List ℕ) (h : PacketHeader) (p : List ℕ)
    → (parse_and_validate bytes ≡ parsed h p) ↔ (IsShaped bytes h p × IsChecked h p)
parsed_iff bytes h p = (parsed_sound bytes h p, λ s. parsed_complete bytes h p s.0 s.1)

-- A refusal says BAD_FORMAT for a packet of the wrong shape, and CRC_FAIL for a packet of the right
-- shape whose checksums disagree; it says nothing else.
pub refused_codes :
    (bytes : List ℕ) (c : AckCode)
    → parse_and_validate bytes ≡ refused c
    → ((c ≡ bad_format) × (¬ IsShaped bytes (decode_header bytes) (drop 48 bytes)))
      ⊎ ((c ≡ crc_fail)
          × IsShaped bytes (decode_header bytes) (drop 48 bytes)
          × (¬ IsChecked (decode_header bytes) (drop 48 bytes)))
refused_codes bytes c e =
    let d = decode_header bytes in
    let q = drop 48 bytes in
    elim (Bool-cases (shape_test bytes d)) [
      | inr f ↦ inl (
        ground (arith, parse_lem bytes),
        λ s. absurd (ground (arith, IsShaped-shape_test bytes d q s)),
      )
      | inl f ↦ elim (Bool-cases (crc_test d q)) [
        | inl g ↦ absurd (ground (arith, parse_lem bytes, check_crc_lem d q))
        | inr g ↦ inr (
          ground (arith, parse_lem bytes, check_crc_lem d q),
          shape_test-IsShaped bytes f,
          λ k. absurd (ground (arith, IsChecked-crc_test d q k)),
        )
      ]
    ]

-- The packet view accepts exactly the packets of the right shape, and never reports a payload that is
-- too large: the header test before it has refused those already.
pub make_packet_view_iff :
    (bytes : List ℕ) (h : PacketHeader) (p : List ℕ)
    → ((make_packet_view bytes ≡ view h p) ↔ IsShaped bytes h p)
      × (make_packet_view bytes ≢ failed PacketViewError.payload_len_too_large)
make_packet_view_iff bytes h p =
    let sound : make_packet_view bytes ≡ view h p → IsShaped bytes h p =
      λ e. let (f, a, b) = view_sound bytes h p e in rw (a, b) (shape_test-IsShaped bytes f) in
    let complete : IsShaped bytes h p → make_packet_view bytes ≡ view h p = λ s.
      make_packet_view_lem bytes
        (ap (shape_test bytes) (sym s.header) ∙ IsShaped-shape_test bytes h p s)
      ∙ ap₂ view (sym s.header) (sym s.payload) in
    ((sound, complete), not_too_large bytes)
