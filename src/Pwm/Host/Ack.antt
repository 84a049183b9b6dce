-- ===== src/Pwm/Host/Ack.antt =====
-- What v1_try_parse_hb_ack accepts.
use mathlib.Core.Path.{subst}
use mathlib.Core.Option.{none-ne-some, some-injective}
use orange_pi_stm32_for_rov.Prelude.{
  ℕ, ◌+◌, ◌-◌, ◌≤◌, ◌<◌, ◌≡◌, ◌↔◌, refl, sym, ap, ◌∙◌, Bool, true, false, ◌&&◌, ltb, ◌==◌, ==_iff,
  if◌then◌else◌, Option, none, some, List, ◌++◌, length, get_or, take, drop, u16, All, arith,
}
use orange_pi_stm32_for_rov.Gateway.Bytes.{IsByte}
use orange_pi_stm32_for_rov.Pwm.Crc16.{crc16_ccitt, crc16_ccitt_false}
use orange_pi_stm32_for_rov.Pwm.Bytes.{read_u16_be, read_u32_be, length-take, length-drop}
use orange_pi_stm32_for_rov.Pwm.Frame.Wire.{v1_frame}
use orange_pi_stm32_for_rov.Pwm.Frame.Parse.{framed}
use orange_pi_stm32_for_rov.Pwm.Frame.Fields.{
  followed, length-followed, len_field, seq_field, ticks_field, covered, crc_field, read_u16_be-lt,
  read_u32_be-lt,
}
use orange_pi_stm32_for_rov.Pwm.Frame.Accept.{test_passed, pass_test}
use orange_pi_stm32_for_rov.Pwm.Frame.Exact.{append-IsByte, v1_frame-payload}
use orange_pi_stm32_for_rov.Pwm.Host.{rx_buf_size, v1_try_parse_hb_ack}

test_failed :
    {A : Type 0} (b : Bool) (x : Option A) (a : A)
    → (if b then none else x) ≡ some a
    → (b ≡ false) × (x ≡ some a)
test_failed true x a h = absurd (none-ne-some a h)
test_failed false x a h = (refl, h)

fail_test : {A : Type 0} (b : Bool) (x : Option A) → b ≡ false → (if b then none else x) ≡ x
fail_test true x h = absurd (ground arith)
fail_test false x h = refl

both_true : (a b : Bool) → (a && b) ≡ true → (a ≡ true) × (b ≡ true)
both_true true b h = (refl, h)
both_true false b h = absurd (ground arith)

abbrev Parts : List ℕ → ℕ → ℕ → ℕ → Type 0
Parts buf seq ticks used =
    let len = read_u16_be buf 10 in
    (14 ≤ length buf)
    × (get_or buf 0 0 ≡ 0xAA)
    × (get_or buf 1 0 ≡ 0x55)
    × (get_or buf 2 0 ≡ 0x01)
    × (get_or buf 3 0 ≡ 0x11)
    × (12 + len + 2 ≤ length buf)
    × (read_u16_be buf (12 + len + 2 - 2) ≡ crc16_ccitt_false (take (u16 (10 + len)) (drop 2 buf)))
    × (read_u16_be buf 4 ≡ seq)
    × (read_u32_be buf 6 ≡ ticks)
    × (12 + len + 2 ≡ used)

-- The tests pass, one by one.
parse-Parts :
    (buf : List ℕ) (seq ticks used : ℕ)
    → v1_try_parse_hb_ack buf ≡ some (seq, ticks, used)
    → Parts buf seq ticks used
unfolding v1_try_parse_hb_ack
parse-Parts buf seq ticks used h =
    let r : ℕ × ℕ × ℕ = (seq, ticks, used) in
    let len = read_u16_be buf 10 in
    let end = 12 + len + 2 in
    let (long, h) = test_failed (ltb (length buf) 14) _ r h in
    let (sof, h) = test_passed (get_or buf 0 0 == 0xAA && get_or buf 1 0 == 0x55) _ r h in
    let (id, h) = test_passed (get_or buf 2 0 == 0x01 && get_or buf 3 0 == 0x11) _ r h in
    let (whole, h) = test_failed (ltb (length buf) end) _ r h in
    let (crc, h) =
      test_passed
        (read_u16_be buf (end - 2) == crc16_ccitt_false (take (u16 (10 + len)) (drop 2 buf))) _ r
        h in
    let (s0, s1) = both_true (get_or buf 0 0 == 0xAA) _ sof in
    let (ver, msg) = both_true (get_or buf 2 0 == 0x01) _ id in
    let e : (read_u16_be buf 4, read_u32_be buf 6, end) ≡ r =
      some-injective (read_u16_be buf 4, read_u32_be buf 6, end) r h in
    (
      ground arith,
      (==_iff _ _).0 s0,
      (==_iff _ _).0 s1,
      (==_iff _ _).0 ver,
      (==_iff _ _).0 msg,
      ground arith,
      (==_iff _ _).0 crc,
      ap (λ (x : ℕ × ℕ × ℕ). x.0) e,
      ap (λ (x : ℕ × ℕ × ℕ). x.1) e,
      ap (λ (x : ℕ × ℕ × ℕ). x.2) e,
    )

-- The buffer begins with a whole acknowledgement.
abbrev pub IsAck : List ℕ → ℕ → ℕ → ℕ → Type 0
IsAck buf seq ticks used =
    (payload : List ℕ) × (rest : List ℕ) × (buf ≡ v1_frame 0x11 seq ticks payload ++ rest)
    × (seq < 0x10000)
    × (ticks < 0x100000000)
    × (length payload < 0x10000)
    × (used ≡ 14 + length payload)

pub hb-IsAck_sound :
    (buf : List ℕ) (seq ticks used : ℕ)
    → All IsByte buf
    → length buf ≤ rx_buf_size
    → v1_try_parse_hb_ack buf ≡ some (seq, ticks, used)
    → IsAck buf seq ticks used
unfolding crc16_ccitt crc16_ccitt_false
hb-IsAck_sound buf seq ticks used hs small h =
    let len = read_u16_be buf 10 in
    let (long, s0, s1, ver, msg, whole, crc, s, t, u) = parse-Parts buf seq ticks used h in
    let payload = take len (drop 12 buf) in
    let index : 12 + len + 2 - 2 ≡ 12 + len = omega arith in
    let size : u16 (10 + len) ≡ 10 + len = omega arith in
    let sum : crc16_ccitt (take (10 + len) (drop 2 buf)) ≡ read_u16_be buf (12 + len) =
      ap (λ (n : ℕ). crc16_ccitt (take n (drop 2 buf))) (sym size)
      ∙ sym crc
      ∙ ap (read_u16_be buf) index in
    let e = framed 0x11 buf len (omega arith) hs (omega arith) (omega arith) ver msg refl sum in
    let l : length payload ≡ len =
      length-take len (drop 12 buf) (omega (arith, length-drop 12 buf)) in
    (
      payload,
      drop (14 + len) buf,
      sym e
          ∙ ap (λ (x : ℕ). v1_frame 0x11 x (read_u32_be buf 6) payload ++ drop (14 + len) buf) s
          ∙ ap (λ (x : ℕ). v1_frame 0x11 seq x payload ++ drop (14 + len) buf) t,
      subst (λ (x : ℕ). x < 0x10000) s (read_u16_be-lt buf 4 hs),
      subst (λ (x : ℕ). x < 0x100000000) t (read_u32_be-lt buf 6 hs),
      omega (arith, l),
      omega (arith, l, u),
    )

followed_complete :
    (seq ticks : ℕ) (payload rest : List ℕ)
    → All IsByte (followed 0x11 seq ticks payload rest)
    → length (followed 0x11 seq ticks payload rest) ≤ rx_buf_size
    → seq < 0x10000
    → ticks < 0x100000000
    → length payload < 0x10000
    → v1_try_parse_hb_ack (followed 0x11 seq ticks payload rest)
      ≡ some (seq, ticks, 14 + length payload)
unfolding v1_try_parse_hb_ack v1_frame crc16_ccitt crc16_ccitt_false
followed_complete seq ticks payload rest hs small s t l =
    let buf = followed 0x11 seq ticks payload rest in
    let len = read_u16_be buf 10 in
    let size = length-followed 0x11 seq ticks payload rest in
    let n : len ≡ length payload = len_field 0x11 seq ticks payload rest l in
    let end = 12 + len + 2 in
    let bytes =
      v1_frame-payload 0x11 seq ticks payload
        (append-IsByte (v1_frame 0x11 seq ticks payload) rest hs) in
    let index : end - 2 ≡ 12 + length payload = omega arith in
    let fits : u16 (10 + len) ≡ 10 + length payload = omega arith in
    let crc : read_u16_be buf (end - 2) ≡ crc16_ccitt_false (take (u16 (10 + len)) (drop 2 buf)) =
      ap (read_u16_be buf) index
      ∙ crc_field 0x11 seq ticks payload rest (omega arith) bytes
      ∙ ap crc16_ccitt (sym (covered 0x11 seq ticks payload rest))
      ∙ ap (λ (k : ℕ). crc16_ccitt (take k (drop 2 buf))) (sym fits) in
    fail_test (ltb (length buf) 14) _ (ground arith)
    ∙ fail_test (ltb (length buf) end) _ (ground arith)
    ∙ pass_test
        (read_u16_be buf (end - 2) == crc16_ccitt_false (take (u16 (10 + len)) (drop 2 buf))) _
        ((==_iff _ _).1 crc)
    ∙ ap (λ (x : ℕ). some (x, read_u32_be buf 6, end)) (seq_field 0x11 seq ticks payload rest s)
    ∙ ap (λ (x : ℕ). some (seq, x, end)) (ticks_field 0x11 seq ticks payload rest t)
    ∙ ap (λ (x : ℕ). some (seq, ticks, x)) (omega arith)

-- A datagram that fits the receive buffer is taken for a heartbeat acknowledgement exactly when it
-- begins with a whole acknowledgement frame of protocol v1, and what is returned is the frame's
-- sequence number, its ticks and its length. Bytes behind the frame are allowed here, as
-- parseHeartbeatAckV1 does not.
pub v1_try_parse_hb_ack_iff :
    (buf : List ℕ) (seq ticks used : ℕ)
    → All IsByte buf
    → length buf ≤ rx_buf_size
    → (v1_try_parse_hb_ack buf ≡ some (seq, ticks, used)) ↔ IsAck buf seq ticks used
v1_try_parse_hb_ack_iff buf seq ticks used hs small = (
  hb-IsAck_sound buf seq ticks used hs small,
  λ (payload, rest, e, s, t, l, u).
      ap v1_try_parse_hb_ack e
      ∙ followed_complete seq ticks payload rest (subst (λ b. All IsByte b) e hs)
          (subst (λ b. length b ≤ rx_buf_size) e small) s t l
      ∙ ap (λ (x : ℕ). some (seq, ticks, x)) (sym u),
)
