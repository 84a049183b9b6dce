-- ===== src/Pwm/Frame/Fields.antt =====
-- The fields of a frame of protocol v1 at their offsets, and their bounds.
use mathlib.Core.List.{append_assoc}
use orange_pi_stm32_for_rov.Prelude.{
  ℕ, zero, suc, ◌+◌, ◌<◌, ◌≡◌, ap, ◌∙◌, List, [], ◌∷◌, ◌++◌, length, get_or, take, drop, All, arith,
  length-append,
}
use orange_pi_stm32_for_rov.Gateway.Bytes.{IsByte}
use orange_pi_stm32_for_rov.Pwm.Crc16.{crc16_ccitt}
use orange_pi_stm32_for_rov.Pwm.Crc16.Reference.{crc16_ccitt-lt}
use orange_pi_stm32_for_rov.Pwm.Bytes.{
  be16, be16-value, be32-value, read_u16_be, read_u32_be, get_or-append, take-append,
}
use orange_pi_stm32_for_rov.Pwm.Frame.Wire.{v1_body, v1_frame, v1_body-IsByte}

-- The fields of a frame, read back at their offsets; `rest` follows the frame.
module _ (msg seq ticks : ℕ) (payload rest : List ℕ) where
  abbrev pub followed : List ℕ
  followed = v1_frame msg seq ticks payload ++ rest

  abbrev pub body : List ℕ
  body = v1_body msg seq ticks payload

  abbrev pub crc : List ℕ
  crc = be16 (crc16_ccitt body)

  pub length-followed : length followed ≡ 14 + length payload + length rest
  unfolding v1_frame
  length-followed = omega (arith, length-append (payload ++ crc) rest, length-append payload crc)

  pub len_field : length payload < 0x10000 → read_u16_be followed 10 ≡ length payload
  unfolding v1_frame
  len_field h = be16-value (length payload) h

  pub seq_field : seq < 0x10000 → read_u16_be followed 4 ≡ seq
  unfolding v1_frame
  seq_field h = be16-value seq h

  pub ticks_field : ticks < 0x100000000 → read_u32_be followed 6 ≡ ticks
  unfolding v1_frame
  ticks_field h = be32-value ticks h

  pub covered : take (10 + length payload) (drop 2 followed) ≡ body
  unfolding v1_frame
  covered =
      ap (λ (n : ℕ). take n (drop 2 followed))
        (let e : 10 + length payload ≡ length body = omega arith in e)
      ∙ ap (take (length body)) (append_assoc body crc rest)
      ∙ take-append body (crc ++ rest)

  pub payload_field : take (length payload) (drop 12 followed) ≡ payload
  unfolding v1_frame
  payload_field =
      ap (take (length payload)) (append_assoc payload crc rest) ∙ take-append payload (crc ++ rest)

  -- The bytes of the checksum, behind everything that it covers.
  crc_byte : (i : ℕ) → get_or followed (12 + length payload + i) 0 ≡ get_or (crc ++ rest) i 0
  unfolding v1_frame
  crc_byte i =
      ap (λ xs. get_or (0xAA ∷ 0x55 ∷ xs) (12 + length payload + i) 0) (append_assoc body crc rest)
      ∙ ap (λ (n : ℕ). get_or ((0xAA ∷ 0x55 ∷ body) ++ (crc ++ rest)) n 0)
          (let e : 12 + length payload + i ≡ length (0xAA ∷ 0x55 ∷ body) + i = omega arith in e)
      ∙ get_or-append (0xAA ∷ 0x55 ∷ body) (crc ++ rest) i 0

  pub crc_field :
      msg < 256 → All IsByte payload → read_u16_be followed (12 + length payload) ≡ crc16_ccitt body
  crc_field h hs = omega (
    arith,
    ap (λ (n : ℕ). get_or followed n 0)
        (let e : 12 + length payload ≡ 12 + length payload + 0 = omega arith in e),
    ap (λ (n : ℕ). get_or followed n 0)
        (let e : 1 + (12 + length payload) ≡ 12 + length payload + 1 = omega arith in e),
    crc_byte 0,
    crc_byte 1,
    crc16_ccitt-lt body (v1_body-IsByte msg seq ticks payload h hs),
  )

pub get_or-IsByte : (xs : List ℕ) (i : ℕ) → All IsByte xs → get_or xs i 0 < 256
get_or-IsByte [] i h = omega arith
get_or-IsByte (x ∷ xs) zero (h, hs) = h
get_or-IsByte (x ∷ xs) (suc i) (h, hs) = get_or-IsByte xs i hs

pub read_u16_be-lt : (xs : List ℕ) (i : ℕ) → All IsByte xs → read_u16_be xs i < 0x10000
read_u16_be-lt xs i h = omega (arith, get_or-IsByte xs i h, get_or-IsByte xs (1 + i) h)

pub read_u32_be-lt : (xs : List ℕ) (i : ℕ) → All IsByte xs → read_u32_be xs i < 0x100000000
read_u32_be-lt xs i h = omega (
  arith,
  get_or-IsByte xs i h,
  get_or-IsByte xs (1 + i) h,
  get_or-IsByte xs (2 + i) h,
  get_or-IsByte xs (3 + i) h,
)
