-- ===== src/Gateway/Examples.antt =====
-- The codec and the checksum on concrete bytes.
use orange_pi_stm32_for_rov.Prelude.{ℕ, true, ◌≡◌, ◌↔◌, refl, List, [], ◌∷◌, arith}
use orange_pi_stm32_for_rov.Gateway.Crc32c.{
  crc32c, crc32c_sw, crc_loop, table, fill_table, crc_bits, crc_bit,
}
use orange_pi_stm32_for_rov.Gateway.Crc32c.Reference.{crc32c_serial, crc32c-serial}
use orange_pi_stm32_for_rov.Gateway.Protocol.{
  PacketHeader, heartbeat, msg_type_value, bad_format, header_basic_valid, IsInRange,
  msg_type_known, msg_type_of,
}
use orange_pi_stm32_for_rov.Gateway.Codec.{
  make_header, stamp_crc, build_packet, parsed, refused, parse_and_validate,
}
use orange_pi_stm32_for_rov.Gateway.Codec.RoundTrip.{parse_and_validate-build_packet}
use orange_pi_stm32_for_rov.Gateway.Codec.Reject.{IsShaped, IsChecked, parsed_iff}

-- The digits 1 to 9.
abbrev digits : List ℕ
digits = 49 ∷ 50 ∷ 51 ∷ 52 ∷ 53 ∷ 54 ∷ 55 ∷ 56 ∷ 57 ∷ []

digits_checksum : crc32c digits ≡ 3808858755
unfolding crc32c crc32c_sw crc_loop table fill_table crc_bits crc_bit
digits_checksum = refl

abbrev hello : PacketHeader
hello = make_header (msg_type_value heartbeat) 7 9 1 4

crc32c-serial_example : crc32c digits ≡ crc32c_serial digits
crc32c-serial_example = crc32c-serial digits (ground arith)

hello-IsInRange : IsInRange hello
unfolding make_header
hello-IsInRange = ground arith

hello-valid : header_basic_valid hello ≡ true
unfolding header_basic_valid msg_type_known msg_type_of make_header
hello-valid = refl

hello-payload_len : hello.payload_len ≡ 4
unfolding make_header
hello-payload_len = refl

abbrev greeting : List ℕ
greeting = 1 ∷ 2 ∷ 3 ∷ 255 ∷ []

parse_and_validate-build_packet_example :
    parse_and_validate (build_packet hello greeting) ≡ parsed (stamp_crc hello greeting) greeting
parse_and_validate-build_packet_example =
    parse_and_validate-build_packet hello greeting hello-IsInRange (ground arith) hello-valid
      hello-payload_len

abbrev packet : List ℕ
packet = build_packet hello greeting

parsed_iff_example : (parse_and_validate packet ≡ parsed (stamp_crc hello greeting) greeting) ↔ (
    IsShaped packet (stamp_crc hello greeting) greeting
    × IsChecked (stamp_crc hello greeting) greeting)
parsed_iff_example = parsed_iff packet (stamp_crc hello greeting) greeting

too_short : parse_and_validate digits ≡ refused bad_format
unfolding parse_and_validate
too_short = refl
