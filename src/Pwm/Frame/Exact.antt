-- ===== src/Pwm/Frame/Exact.antt =====
-- The two parsers of PwmFrameBuilder against the frame format.
use mathlib.Core.Path.{subst}
use mathlib.Core.Option.{some-injective}
use mathlib.Core.List.{append-nil}
use orange_pi_stm32_for_rov.Prelude.{
  ℕ, ◌<◌, ◌≡◌, ◌↔◌, refl, sym, ap, ◌∙◌, some, Option-cases, inl, inr, List, [], ◌∷◌, ◌++◌, length,
  All, arith,
}
use orange_pi_stm32_for_rov.Gateway.Bytes.{IsByte}
use orange_pi_stm32_for_rov.Pwm.Bytes.{be16, read_u16_be, read_u32_be}
use orange_pi_stm32_for_rov.Pwm.Crc16.{crc16_ccitt}
use orange_pi_stm32_for_rov.Pwm.Frame.{
  heartbeat_ack, status, checked_len, parse_heartbeat_ack_v1, parse_status_v1,
}
use orange_pi_stm32_for_rov.Pwm.Frame.Wire.{v1_body, v1_frame}
use orange_pi_stm32_for_rov.Pwm.Frame.Fields.{
  followed, seq_field, ticks_field, payload_field, read_u16_be-lt, read_u32_be-lt,
}
use orange_pi_stm32_for_rov.Pwm.Frame.Accept.{payload_of, checked_len_sound, checked_len_complete}

-- The bytes are a whole frame of protocol v1 with these fields.
abbrev pub IsFrame : ℕ → ℕ → ℕ → List ℕ → List ℕ → Type 0
IsFrame msg seq ticks payload frame =
    (frame ≡ v1_frame msg seq ticks payload)
    × (seq < 0x10000)
    × (ticks < 0x100000000)
    × (length payload < 0x10000)

pub append-IsByte : (xs ys : List ℕ) → All IsByte (xs ++ ys) → All IsByte xs
append-IsByte [] ys h = tt
append-IsByte (x ∷ xs) ys (h, hs) = (h, append-IsByte xs ys hs)

-- Payload bytes of a frame of bytes.
pub v1_frame-payload :
    (msg seq ticks : ℕ) (payload : List ℕ)
    → All IsByte (v1_frame msg seq ticks payload)
    → All IsByte payload
unfolding v1_frame
v1_frame-payload msg seq ticks payload
      (_, (_, (_, (_, (_, (_, (_, (_, (_, (_, (_, (_, h)))))))))))) =
    append-IsByte payload (be16 (crc16_ccitt (v1_body msg seq ticks payload))) h

heartbeat_ack_fields :
    (frame : List ℕ) (len : ℕ)
    → checked_len heartbeat_ack frame ≡ some len
    → parse_heartbeat_ack_v1 frame ≡ some (read_u16_be frame 4, read_u32_be frame 6)
unfolding parse_heartbeat_ack_v1
heartbeat_ack_fields frame len e = rw (parse_heartbeat_ack_v1, e) refl

status_payload :
    (frame : List ℕ) (len : ℕ)
    → checked_len status frame ≡ some len
    → parse_status_v1 frame ≡ some (payload_of frame len)
unfolding parse_status_v1
status_payload frame len e = rw (parse_status_v1, e) refl

heartbeat_ack_sound :
    (frame : List ℕ) (seq ticks : ℕ)
    → All IsByte frame
    → parse_heartbeat_ack_v1 frame ≡ some (seq, ticks)
    → (payload : List ℕ) × IsFrame 0x11 seq ticks payload frame
unfolding parse_heartbeat_ack_v1
heartbeat_ack_sound frame seq ticks hs h = elim (Option-cases (checked_len heartbeat_ack frame)) [
  | inl e ↦ absurd (ground arith)
  | inr (len, e) ↦
      let r : (read_u16_be frame 4, read_u32_be frame 6) ≡ (seq, ticks) =
        some-injective (read_u16_be frame 4, read_u32_be frame 6) (seq, ticks)
          (sym (heartbeat_ack_fields frame len e) ∙ h) in
      let s : read_u16_be frame 4 ≡ seq = ap (λ (p : ℕ × ℕ). p.0) r in
      let t : read_u32_be frame 6 ≡ ticks = ap (λ (p : ℕ × ℕ). p.1) r in
      let (whole, size) = checked_len_sound heartbeat_ack frame len hs e in
      (
        payload_of frame len,
        (
          whole ∙ rw (s, t) refl,
          subst (λ (x : ℕ). x < 0x10000) s (read_u16_be-lt frame 4 hs),
          subst (λ (x : ℕ). x < 0x100000000) t (read_u32_be-lt frame 6 hs),
          size,
        ),
      )
]

heartbeat_ack_complete :
    (frame : List ℕ) (seq ticks : ℕ) (payload : List ℕ)
    → All IsByte frame
    → IsFrame 0x11 seq ticks payload frame
    → parse_heartbeat_ack_v1 frame ≡ some (seq, ticks)
heartbeat_ack_complete frame seq ticks payload hs (e, s, t, l) =
    let whole : frame ≡ followed 0x11 seq ticks payload [] =
      e ∙ sym (append-nil (v1_frame 0x11 seq ticks payload)) in
    let bytes = v1_frame-payload 0x11 seq ticks payload (subst (λ f. All IsByte f) e hs) in
    let passed =
      ap (checked_len heartbeat_ack) whole
      ∙ checked_len_complete heartbeat_ack seq ticks payload bytes l in
    let s4 : read_u16_be frame 4 ≡ seq =
      ap (λ f. read_u16_be f 4) whole ∙ seq_field 0x11 seq ticks payload [] s in
    let t6 : read_u32_be frame 6 ≡ ticks =
      ap (λ f. read_u32_be f 6) whole ∙ ticks_field 0x11 seq ticks payload [] t in
    heartbeat_ack_fields frame (length payload) passed
    ∙ ap (λ (x : ℕ). some (x, read_u32_be frame 6)) s4
    ∙ ap (λ (x : ℕ). some (seq, x)) t6

status_sound :
    (frame payload : List ℕ)
    → All IsByte frame
    → parse_status_v1 frame ≡ some payload
    → (seq : ℕ) × (ticks : ℕ) × IsFrame 0x20 seq ticks payload frame
unfolding parse_status_v1
status_sound frame payload hs h = elim (Option-cases (checked_len status frame)) [
  | inl e ↦ absurd (ground arith)
  | inr (len, e) ↦
      let p : payload_of frame len ≡ payload =
        some-injective (payload_of frame len) payload (ground arith) in
      let (whole, size) = checked_len_sound status frame len hs e in
      (
        read_u16_be frame 4,
        read_u32_be frame 6,
        (
          whole ∙ ap (v1_frame 0x20 (read_u16_be frame 4) (read_u32_be frame 6)) p,
          read_u16_be-lt frame 4 hs,
          read_u32_be-lt frame 6 hs,
          subst (λ xs. length xs < 0x10000) p size,
        ),
      )
]

status_complete :
    (frame : List ℕ) (seq ticks : ℕ) (payload : List ℕ)
    → All IsByte frame
    → IsFrame 0x20 seq ticks payload frame
    → parse_status_v1 frame ≡ some payload
status_complete frame seq ticks payload hs (e, s, t, l) =
    let whole : frame ≡ followed 0x20 seq ticks payload [] =
      e ∙ sym (append-nil (v1_frame 0x20 seq ticks payload)) in
    let bytes = v1_frame-payload 0x20 seq ticks payload (subst (λ f. All IsByte f) e hs) in
    let passed =
      ap (checked_len status) whole ∙ checked_len_complete status seq ticks payload bytes l in
    status_payload frame (length payload) passed
    ∙ ap (λ f. some (payload_of f (length payload))) whole
    ∙ ap some (payload_field 0x20 seq ticks payload [])

-- On any bytes, parseHeartbeatAckV1 returns a sequence number and ticks exactly when the bytes are a
-- whole heartbeat acknowledgement with them (any payload), and parseStatusV1 returns a payload
-- exactly when the bytes are a whole status frame with it: start of frame, version, message,
-- length and bitwise CRC-16 all right, nothing missing and nothing behind.
pub parsers_exact :
    (frame : List ℕ)
    → All IsByte frame
    → ((seq ticks : ℕ)
        → (parse_heartbeat_ack_v1 frame ≡ some (seq, ticks))
          ↔ ((payload : List ℕ) × IsFrame 0x11 seq ticks payload frame))
      × ((payload : List ℕ)
          → (parse_status_v1 frame ≡ some payload)
            ↔ ((seq : ℕ) × (ticks : ℕ) × IsFrame 0x20 seq ticks payload frame))
parsers_exact frame hs = (
  λ seq ticks. (
    heartbeat_ack_sound frame seq ticks hs,
    λ (p, h). heartbeat_ack_complete frame seq ticks p hs h,
  ),
  λ payload. (
    status_sound frame payload hs,
    λ (seq, ticks, h). status_complete frame seq ticks payload hs h,
  ),
)
