-- ===== src/Pwm/Frame/Wire.antt =====
-- The frame format of protocol v1 as one expression, and that PwmFrameBuilder builds and accepts it.
use mathlib.Core.List.{append_assoc, append-nil}
use orange_pi_stm32_for_rov.Prelude.{
  ℕ, ◌*◌, ◌<◌, ◌≡◌, refl, sym, ap, ◌∙◌, List, [], ◌∷◌, ◌++◌, length, All, arith,
}
use orange_pi_stm32_for_rov.Gateway.Bytes.{IsByte, All-append}
use orange_pi_stm32_for_rov.Pwm.Crc16.{compute, crc16_ccitt}
use orange_pi_stm32_for_rov.Pwm.Crc16.Reference.{compute-crc16_ccitt}
use orange_pi_stm32_for_rov.Pwm.Bytes.{be16, be32, be16-IsByte, be32-IsByte}
use orange_pi_stm32_for_rov.Pwm.Frame.{
  pwm_cmd, begin_frame, clamp_pwm, append_channels, build_pwm_cmd_frame_v1,
  build_heartbeat_frame_v1,
}

-- From VER to the end of the payload.
abbrev pub v1_body : ℕ → ℕ → ℕ → List ℕ → List ℕ
v1_body msg seq ticks payload =
    0x01 ∷ msg ∷ be16 seq ++ be32 ticks ++ be16 (length payload) ++ payload

unfoldable pub v1_frame : ℕ → ℕ → ℕ → List ℕ → List ℕ
v1_frame msg seq ticks payload =
    let body = v1_body msg seq ticks payload in 0xAA ∷ 0x55 ∷ body ++ be16 (crc16_ccitt body)

-- The payload of a PWM frame.
abbrev pub channels : List ℕ → List ℕ
channels [] = []
channels (v ∷ vs) = be16 (clamp_pwm v) ++ channels vs

append_channels_lem : (buf vs : List ℕ) → append_channels buf vs ≡ buf ++ channels vs
unfolding append_channels
append_channels_lem buf [] = sym (append-nil buf)
append_channels_lem buf (v ∷ vs) =
    append_channels_lem (buf ++ be16 (clamp_pwm v)) vs
    ∙ append_assoc buf (be16 (clamp_pwm v)) (channels vs)

pub length-channels : (vs : List ℕ) → length (channels vs) ≡ length vs * 2
length-channels [] = refl
length-channels (v ∷ vs) = omega (arith, length-channels vs)

pub channels-IsByte : (vs : List ℕ) → All IsByte (channels vs)
channels-IsByte [] = tt
channels-IsByte (v ∷ vs) =
    All-append (be16 (clamp_pwm v)) (channels vs) (be16-IsByte (clamp_pwm v)) (channels-IsByte vs)

pub v1_body-IsByte :
    (msg seq ticks : ℕ) (payload : List ℕ)
    → msg < 256
    → All IsByte payload
    → All IsByte (v1_body msg seq ticks payload)
v1_body-IsByte msg seq ticks payload h hs =
    let len = be16 (length payload) in
    let tail = All-append len payload (be16-IsByte (length payload)) hs in
    let tail = All-append (be32 ticks) (len ++ payload) (be32-IsByte ticks) tail in
    let tail = All-append (be16 seq) (be32 ticks ++ len ++ payload) (be16-IsByte seq) tail in
    (omega arith, (h, tail))

-- What the C++ builder's last step appends to a body.
close_frame :
    (msg seq ticks : ℕ) (payload : List ℕ)
    → msg < 256
    → All IsByte payload
    → 0xAA ∷ 0x55 ∷ v1_body msg seq ticks payload ++ be16 (compute (v1_body msg seq ticks payload))
      ≡ v1_frame msg seq ticks payload
unfolding v1_frame
close_frame msg seq ticks payload h hs =
    ap (λ c. 0xAA ∷ 0x55 ∷ v1_body msg seq ticks payload ++ be16 c)
      (compute-crc16_ccitt (v1_body msg seq ticks payload)
        (v1_body-IsByte msg seq ticks payload h hs)).0

pub build_pwm_cmd_frame_v1-v1_frame :
    (vs : List ℕ) (seq ticks : ℕ)
    → length vs ≡ 8
    → build_pwm_cmd_frame_v1 vs seq ticks ≡ v1_frame 0x01 seq ticks (channels vs)
unfolding build_pwm_cmd_frame_v1
build_pwm_cmd_frame_v1-v1_frame vs seq ticks h =
    let len : length (channels vs) ≡ 16 = omega (arith, length-channels vs) in
    rw
      (
        append_channels_lem (begin_frame pwm_cmd seq ticks 16) vs,
        ← close_frame 0x01 seq ticks (channels vs) (omega arith) (channels-IsByte vs),
        len,
      )
      refl

pub build_heartbeat_frame_v1-v1_frame :
    (seq ticks : ℕ) → build_heartbeat_frame_v1 seq ticks ≡ v1_frame 0x10 seq ticks []
unfolding build_heartbeat_frame_v1
build_heartbeat_frame_v1-v1_frame seq ticks = close_frame 0x10 seq ticks [] (omega arith) tt
