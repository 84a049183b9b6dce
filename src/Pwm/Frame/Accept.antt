-- ===== src/Pwm/Frame/Accept.antt =====
-- What PwmFrameBuilder's parsers accept.
use mathlib.Core.Path.{subst}
use mathlib.Core.Option.{none-ne-some, some-injective}
use mathlib.Core.List.{append-nil}
use orange_pi_stm32_for_rov.Prelude.{
  ℕ, zero, suc, ◌+◌, ◌<◌, ◌≤◌, ◌≡◌, refl, sym, ap, ◌∙◌, Option, none, some, List, [], ◌∷◌, length,
  get_or, take, drop, All, arith, Bool, not, true, false, ◌==◌, leb, ==_iff, if◌then◌else◌,
}
use orange_pi_stm32_for_rov.Gateway.Bytes.{IsByte}
use orange_pi_stm32_for_rov.Pwm.Crc16.{compute}
use orange_pi_stm32_for_rov.Pwm.Crc16.Reference.{compute-crc16_ccitt}
use orange_pi_stm32_for_rov.Pwm.Bytes.{
  read_u16_be, read_u32_be, length-drop, length-take, drop-IsByte, take-IsByte,
}
use orange_pi_stm32_for_rov.Pwm.Frame.{
  MsgId, msg_id_value, pwm_cmd, heartbeat, heartbeat_ack, status, checked_len,
}
use orange_pi_stm32_for_rov.Pwm.Frame.Wire.{v1_body, v1_frame, v1_body-IsByte}
use orange_pi_stm32_for_rov.Pwm.Frame.Parse.{framed}
use orange_pi_stm32_for_rov.Pwm.Frame.Fields.{
  followed, length-followed, len_field, covered, crc_field, read_u16_be-lt,
}

pub msg_id_value-lt : (msg : MsgId) → msg_id_value msg < 256
msg_id_value-lt pwm_cmd = omega arith
msg_id_value-lt heartbeat = omega arith
msg_id_value-lt heartbeat_ack = omega arith
msg_id_value-lt status = omega arith

pub drop_all : (n : ℕ) (xs : List ℕ) → length xs ≤ n → drop n xs ≡ []
drop_all zero [] h = refl
drop_all zero (x ∷ xs) h = absurd (omega arith)
drop_all (suc n) [] h = refl
drop_all (suc n) (x ∷ xs) h = drop_all n xs (omega arith)

-- A test that fails gives none.
pub test_passed {ℓ} :
    {A : Type ℓ} (b : Bool) (x : Option A) (a : A)
    → (if not b then none else x) ≡ some a
    → (b ≡ true) × (x ≡ some a)
test_passed true x a h = (refl, h)
test_passed false x a h = absurd (none-ne-some a h)

pub pass_test {ℓ} :
    {A : Type ℓ} (b : Bool) (x : Option A) → b ≡ true → (if not b then none else x) ≡ x
pass_test true x h = refl
pass_test false x h = absurd (ground arith)

checked_facts :
    (msg : MsgId) (frame : List ℕ) (len : ℕ)
    → checked_len msg frame ≡ some len
    → (length frame ≡ 14 + len)
      × (read_u16_be frame 0 ≡ 0xAA55)
      × (get_or frame 2 0 ≡ 1)
      × (get_or frame 3 0 ≡ msg_id_value msg)
      × (read_u16_be frame 10 ≡ len)
      × (compute (take (10 + len) (drop 2 frame)) ≡ read_u16_be frame (12 + len))
unfolding checked_len
checked_facts msg frame len h =
    let n = read_u16_be frame 10 in
    let (long, h) = test_passed (leb 14 (length frame)) _ len h in
    let (sof, h) = test_passed (read_u16_be frame 0 == 0xAA55) _ len h in
    let (ver, h) = test_passed (get_or frame 2 0 == 1) _ len h in
    let (id, h) = test_passed (get_or frame 3 0 == msg_id_value msg) _ len h in
    let (whole, h) = test_passed (length frame == 14 + n) _ len h in
    let (crc, h) =
      test_passed (compute (take (10 + n) (drop 2 frame)) == read_u16_be frame (12 + n)) _ len h in
    let l : n ≡ len = some-injective n len h in
    let crc_eq = (==_iff _ _).0 crc in
    (
      (==_iff _ _).0 whole ∙ ap (λ (k : ℕ). 14 + k) l,
      (==_iff _ _).0 sof,
      (==_iff _ _).0 ver,
      (==_iff _ _).0 id,
      l,
      subst (λ (k : ℕ). compute (take (10 + k) (drop 2 frame)) ≡ read_u16_be frame (12 + k)) l
          crc_eq,
    )

-- The payload that a frame with that LEN field carries.
abbrev pub payload_of : List ℕ → ℕ → List ℕ
payload_of frame len = take len (drop 12 frame)

pub checked_len_sound :
    (msg : MsgId) (frame : List ℕ) (len : ℕ)
    → All IsByte frame
    → checked_len msg frame ≡ some len
    → (frame
        ≡ v1_frame
            (msg_id_value msg)
            (read_u16_be frame 4)
            (read_u32_be frame 6)
            (payload_of frame len))
      × (length (payload_of frame len) < 0x10000)
checked_len_sound msg frame len hs h =
    let (whole, sof, ver, id, l, crc) = checked_facts msg frame len h in
    let body = take (10 + len) (drop 2 frame) in
    let body_bytes : All IsByte body =
      take-IsByte (10 + len) (drop 2 frame) (drop-IsByte 2 frame hs) in
    let e =
      framed (msg_id_value msg) frame len (omega arith) hs (omega arith) sof ver id l
        (sym (compute-crc16_ccitt body body_bytes).0 ∙ crc) in
    let at_end : drop (14 + len) frame ≡ [] = drop_all (14 + len) frame (omega arith) in
    let size : length (payload_of frame len) ≡ len =
      length-take len (drop 12 frame) (omega (arith, length-drop 12 frame)) in
    (sym e ∙ rw at_end (append-nil _), omega (arith, size, l, read_u16_be-lt frame 10 hs))

pub checked_len_complete :
    (msg : MsgId) (seq ticks : ℕ) (payload : List ℕ)
    → All IsByte payload
    → length payload < 0x10000
    → checked_len msg (followed (msg_id_value msg) seq ticks payload []) ≡ some (length payload)
unfolding checked_len v1_frame
checked_len_complete msg seq ticks payload hs h =
    let v = msg_id_value msg in
    let frame = followed v seq ticks payload [] in
    let n = read_u16_be frame 10 in
    let l : n ≡ length payload = len_field v seq ticks payload [] h in
    let size = length-followed v seq ticks payload [] in
    let crc : compute (take (10 + n) (drop 2 frame)) ≡ read_u16_be frame (12 + n) = rw l (
      ap compute (covered v seq ticks payload [])
      ∙ (compute-crc16_ccitt (v1_body v seq ticks payload)
          (v1_body-IsByte v seq ticks payload (msg_id_value-lt msg) hs)).0
      ∙ sym (crc_field v seq ticks payload [] (msg_id_value-lt msg) hs)) in
    pass_test (leb 14 (length frame)) _ (ground arith)
    ∙ pass_test (v == v) _ ((==_iff v v).1 refl)
    ∙ pass_test (length frame == 14 + n) _ ((==_iff _ _).1 (omega arith))
    ∙ pass_test (compute (take (10 + n) (drop 2 frame)) == read_u16_be frame (12 + n)) _
        ((==_iff _ _).1 crc)
    ∙ ap some l
