-- ===== src/Pwm/Frame/Parse.antt =====
-- PwmFrameBuilder's parsers accept exactly the frames of protocol v1.
use mathlib.Core.List.{append_assoc}
use mathlib.Core.Path.{subst}
use orange_pi_stm32_for_rov.Prelude.{
  ℕ, ◌+◌, ◌*◌, ◌≤◌, ◌≡◌, refl, sym, ap, ◌∙◌, List, [], ◌∷◌, ◌++◌, length, get_or, take, drop, All,
  arith,
}
use orange_pi_stm32_for_rov.Gateway.Bytes.{IsByte}
use orange_pi_stm32_for_rov.Pwm.Crc16.{crc16_ccitt}
use orange_pi_stm32_for_rov.Pwm.Bytes.{
  be16, be32, be16-pair, be32-four, read_u16_be, read_u32_be, take-drop, take_add, drop_add,
  get_or-drop, length-drop, length-take, first_four, first_two, drop-IsByte,
}
use orange_pi_stm32_for_rov.Pwm.Frame.Wire.{v1_body, v1_frame}

-- Bytes that read as a header, a payload of that length and its checksum are the frame.
frame_of_bytes :
    (msg s0 s1 t0 t1 t2 t3 l0 l1 c0 c1 : ℕ) (payload : List ℕ)
    → All IsByte (s0 ∷ s1 ∷ t0 ∷ t1 ∷ t2 ∷ t3 ∷ l0 ∷ l1 ∷ c0 ∷ c1 ∷ [])
    → length payload ≡ l0 * 0x100 + l1
    → crc16_ccitt (1 ∷ msg ∷ s0 ∷ s1 ∷ t0 ∷ t1 ∷ t2 ∷ t3 ∷ l0 ∷ l1 ∷ payload) ≡ c0 * 0x100 + c1
    → v1_frame msg (s0 * 0x100 + s1) (t0 * 0x1000000 + t1 * 0x10000 + t2 * 0x100 + t3) payload
      ≡ 0xAA ∷ 0x55 ∷ 1 ∷ msg ∷ s0 ∷ s1 ∷ t0 ∷ t1 ∷ t2 ∷ t3 ∷ l0 ∷ l1 ∷ payload ++ c0 ∷ c1 ∷ []
unfolding v1_frame
frame_of_bytes msg s0 s1 t0 t1 t2 t3 l0 l1 c0 c1 payload
      (hs0, (hs1, (ht0, (ht1, (ht2, (ht3, (hl0, (hl1, (hc0, (hc1, _)))))))))) len crc =
    let body : v1_body msg (s0 * 0x100 + s1) (t0 * 0x1000000 + t1 * 0x10000 + t2 * 0x100 + t3)
          payload
        ≡ 1 ∷ msg ∷ s0 ∷ s1 ∷ t0 ∷ t1 ∷ t2 ∷ t3 ∷ l0 ∷ l1 ∷ payload =
      ap
        (λ b.
          1 ∷ msg ∷ b
          ++ be32 (t0 * 0x1000000 + t1 * 0x10000 + t2 * 0x100 + t3)
          ++ be16 (length payload)
          ++ payload)
        (be16-pair s0 s1 hs0 hs1)
      ∙ ap (λ b. 1 ∷ msg ∷ s0 ∷ s1 ∷ b ++ be16 (length payload) ++ payload)
          (be32-four t0 t1 t2 t3 ht0 ht1 ht2 ht3)
      ∙ ap (λ b. 1 ∷ msg ∷ s0 ∷ s1 ∷ t0 ∷ t1 ∷ t2 ∷ t3 ∷ b ++ payload)
          (ap be16 len ∙ be16-pair l0 l1 hl0 hl1) in
    ap (λ b. 0xAA ∷ 0x55 ∷ b ++ be16 (crc16_ccitt b)) body
    ∙ ap (λ c. 0xAA ∷ 0x55 ∷ 1 ∷ msg ∷ s0 ∷ s1 ∷ t0 ∷ t1 ∷ t2 ∷ t3 ∷ l0 ∷ l1 ∷ payload ++ c)
        (ap be16 crc ∙ be16-pair c0 c1 hc0 hc1)

-- A frame whose header, length and checksum pass is the frame of its fields and what follows it.
abbrev pub Framed : ℕ → List ℕ → ℕ → Type 0
Framed msg frame len =
    All IsByte frame
    → 14 + len ≤ length frame
    → read_u16_be frame 0 ≡ 0xAA55
    → get_or frame 2 0 ≡ 1
    → get_or frame 3 0 ≡ msg
    → read_u16_be frame 10 ≡ len
    → crc16_ccitt (take (10 + len) (drop 2 frame)) ≡ read_u16_be frame (12 + len)
    → v1_frame msg (read_u16_be frame 4) (read_u32_be frame 6) (take len (drop 12 frame))
        ++ drop (14 + len) frame
      ≡ frame

abbrev header : ℕ → ℕ → ℕ → ℕ → ℕ → ℕ → ℕ → ℕ → ℕ → ℕ → ℕ → ℕ → List ℕ → List ℕ
header b0 b1 b2 b3 b4 b5 b6 b7 b8 b9 b10 b11 rest =
    b0 ∷ b1 ∷ b2 ∷ b3 ∷ b4 ∷ b5 ∷ b6 ∷ b7 ∷ b8 ∷ b9 ∷ b10 ∷ b11 ∷ rest

Framed-bytes :
    (msg b0 b1 b2 b3 b4 b5 b6 b7 b8 b9 b10 b11 : ℕ) (rest : List ℕ) (len : ℕ)
    → Framed msg (header b0 b1 b2 b3 b4 b5 b6 b7 b8 b9 b10 b11 rest) len
Framed-bytes msg b0 b1 b2 b3 b4 b5 b6 b7 b8 b9 b10 b11 rest len
      (h0, (h1, (h2, (h3, (h4, (h5, (h6, (h7, (h8, (h9, (h10, (h11, hs)))))))))))) n sof ver m l
      crc =
    let frame = header b0 b1 b2 b3 b4 b5 b6 b7 b8 b9 b10 b11 rest in
    let payload = take len rest in
    let (c0, c1, more, tail) = first_two (drop len rest) (omega (arith, length-drop len rest)) in
    let read0 : get_or frame (12 + len) 0 ≡ c0 =
      get_or-drop 12 len frame 0
      ∙ ap (λ (j : ℕ). get_or rest j 0) (let e : len ≡ len + 0 = omega arith in e)
      ∙ get_or-drop len 0 rest 0
      ∙ ap (λ xs. get_or xs 0 0) tail in
    let read1 : get_or frame (1 + (12 + len)) 0 ≡ c1 =
      ap (λ (j : ℕ). get_or frame j 0) (let e : 1 + (12 + len) ≡ 12 + (len + 1) = omega arith in e)
      ∙ get_or-drop 12 (len + 1) frame 0
      ∙ get_or-drop len 1 rest 0
      ∙ ap (λ xs. get_or xs 1 0) tail in
    let dropped : drop (14 + len) frame ≡ more =
      ap (λ (j : ℕ). drop j frame) (let e : 14 + len ≡ 12 + (len + 2) = omega arith in e)
      ∙ drop_add 12 (len + 2) frame
      ∙ drop_add len 2 rest
      ∙ ap (drop 2) tail in
    let (hc0, (hc1, _)) : All IsByte (c0 ∷ c1 ∷ more) =
      subst (λ xs. All IsByte xs) tail (drop-IsByte len rest hs) in
    let covered : crc16_ccitt (1 ∷ msg ∷ b4 ∷ b5 ∷ b6 ∷ b7 ∷ b8 ∷ b9 ∷ b10 ∷ b11 ∷ payload)
        ≡ c0 * 0x100 + c1 =
      ap (λ (x : ℕ). crc16_ccitt (x ∷ msg ∷ b4 ∷ b5 ∷ b6 ∷ b7 ∷ b8 ∷ b9 ∷ b10 ∷ b11 ∷ payload))
        (sym ver)
      ∙ ap (λ (x : ℕ). crc16_ccitt (b2 ∷ x ∷ b4 ∷ b5 ∷ b6 ∷ b7 ∷ b8 ∷ b9 ∷ b10 ∷ b11 ∷ payload))
          (sym m)
      ∙ ap crc16_ccitt (sym (take_add 10 len (drop 2 frame)))
      ∙ crc
      ∙ rw (read0, read1) refl in
    let built =
      frame_of_bytes msg b4 b5 b6 b7 b8 b9 b10 b11 c0 c1 payload
        (h4, (h5, (h6, (h7, (h8, (h9, (h10, (h11, (hc0, (hc1, tt))))))))))
        (length-take len rest (omega arith) ∙ sym l) covered in
    let whole : payload ++ c0 ∷ c1 ∷ more ≡ rest =
      ap (λ t. payload ++ t) (sym tail) ∙ take-drop len rest in
    let first : b0 ≡ 0xAA = omega arith in
    let second : b1 ≡ 0x55 = omega arith in
    rw (dropped, built, first, second, ver, m)
      (ap (λ t. 0xAA ∷ 0x55 ∷ 1 ∷ msg ∷ b4 ∷ b5 ∷ b6 ∷ b7 ∷ b8 ∷ b9 ∷ b10 ∷ b11 ∷ t)
        (append_assoc payload (c0 ∷ c1 ∷ []) more ∙ whole))

pub framed : (msg : ℕ) (frame : List ℕ) (len : ℕ) → 12 ≤ length frame → Framed msg frame len
framed msg frame len h =
    let (b0, b1, b2, b3, r, e) = first_four frame (omega arith) in
    let (b4, b5, b6, b7, r1, e1) = first_four r (omega (arith, ap length e)) in
    let (b8, b9, b10, b11, rest, e2) = first_four r1 (omega (arith, ap length e, ap length e1)) in
    let whole : frame ≡ header b0 b1 b2 b3 b4 b5 b6 b7 b8 b9 b10 b11 rest =
      e ∙ ap (λ t. b0 ∷ b1 ∷ b2 ∷ b3 ∷ t) (e1 ∙ ap (λ t. b4 ∷ b5 ∷ b6 ∷ b7 ∷ t) e2) in
    rw whole (Framed-bytes msg b0 b1 b2 b3 b4 b5 b6 b7 b8 b9 b10 b11 rest len)
