-- ===== src/Transport/Device/Frame.antt =====
-- qedl-transport/src/device.rs: the frames of the DIAG protocol.
use Prim.Native.Nat.{bit_and, bit_xor}
use qedl_rs.Prelude.{
  ℕ, zero, suc, ◌/◌, ◌%◌, ◌≡◌, refl, ap, ◌∙◌, arith, Bool, true, false, Option, none, some, [], ◌∷◌,
  ◌++◌, append_assoc, ◌==◌, Bool-cases, inl, inr, if◌then◌else◌,
}
use qedl_rs.Prelude.Bytes.{Bytes}

-- One of the eight rounds for a byte.
unfoldable crc16_shift : ℕ → ℕ
crc16_shift crc = if bit_and crc 1 == 0 then crc / 2 else bit_xor (crc / 2) 0x8408

unfoldable crc16_rounds : ℕ → ℕ → ℕ
crc16_rounds zero crc = crc
crc16_rounds (suc n) crc = crc16_rounds n (crc16_shift crc)

unfoldable crc16_update : ℕ → Bytes → ℕ
crc16_update crc [] = crc
crc16_update crc (b ∷ bs) = crc16_update (crc16_rounds 8 (bit_xor crc b)) bs

unfoldable pub crc16_ccitt : Bytes → ℕ
unfolding crc16_shift crc16_rounds crc16_update
crc16_ccitt bytes = bit_xor (crc16_update 0xFFFF bytes) 0xFFFF

-- The check value of CRC-16/X-25: the text "123456789".
crc16_check :
    crc16_ccitt (0x31 ∷ 0x32 ∷ 0x33 ∷ 0x34 ∷ 0x35 ∷ 0x36 ∷ 0x37 ∷ 0x38 ∷ 0x39 ∷ []) ≡ 0x906E
unfolding crc16_ccitt
crc16_check = refl

unfoldable pub hdlc_escape : Bytes → Bytes
hdlc_escape [] = []
hdlc_escape (b ∷ bs) =
    let rest = hdlc_escape bs in
    if b == 0x7E then 0x7D ∷ 0x5E ∷ rest else if b == 0x7D then 0x7D ∷ 0x5D ∷ rest else b ∷ rest

-- A command with its payload and their checksum, before the escape.
unfoldable pub diag_packet : ℕ → Bytes → Bytes
diag_packet cmd payload =
    let crc = crc16_ccitt (cmd ∷ payload) in (cmd ∷ payload) ++ (crc % 256 ∷ crc / 256 ∷ [])

unfoldable pub diag_frame : ℕ → Bytes → Bytes
unfolding diag_packet
diag_frame cmd payload = 0x7E ∷ (hdlc_escape (diag_packet cmd payload) ++ (0x7E ∷ []))

-- What the receiver does: the first flag ends a frame, and the byte after an escape has its bit 5
-- the other way around. `none` is a text that ends before the flag.
abbrev pub push_byte : ℕ → Option (Bytes × Bytes) → Option (Bytes × Bytes)
push_byte b none = none
push_byte b (some (packet, rest)) = some (b ∷ packet, rest)

unfoldable pub receive : Bool → Bytes → Option (Bytes × Bytes)
receive escaped [] = none
receive true (b ∷ bs) = push_byte (bit_xor b 0x20) (receive false bs)
receive false (b ∷ bs) =
    let rest = receive (b == 0x7D) bs in
    if b == 0x7E then some ([], bs) else if b == 0x7D then rest else push_byte b rest

receive-hdlc_escape :
    (packet rest : Bytes)
    → receive false (hdlc_escape packet ++ (0x7E ∷ rest)) ≡ some (packet, rest)
unfolding receive hdlc_escape
receive-hdlc_escape [] rest = refl
receive-hdlc_escape (b ∷ bs) rest = elim (Bool-cases (b == 0x7E)) [
  | inl flag ↦ rw flag (
      ap (push_byte 126) (receive-hdlc_escape bs rest)
      ∙ ap (λ z. some (z ∷ bs, rest)) {x = 126} {y = b} (ground (arith, flag)))
  | inr other ↦ elim (Bool-cases (b == 0x7D)) [
    | inl escape ↦ rw other (
        rw escape (
          ap (push_byte 125) (receive-hdlc_escape bs rest)
          ∙ ap (λ z. some (z ∷ bs, rest)) {x = 125} {y = b} (ground (arith, escape))))
    | inr plain ↦
        rw other (rw plain (rw other (rw plain (ap (push_byte b) (receive-hdlc_escape bs rest)))))
  ]
]

-- A receiver that skips the first flag of a frame gets the command, its payload and their checksum
-- as they were, whatever bytes they are, and stops exactly at the end of the frame.
pub receive-diag_frame :
    (cmd : ℕ) (payload rest : Bytes)
    → (frame : Bytes) × (diag_frame cmd payload ≡ 0x7E ∷ frame)
      × (receive false (frame ++ rest) ≡ some (diag_packet cmd payload, rest))
unfolding diag_frame
receive-diag_frame cmd payload rest =
    let escaped = hdlc_escape (diag_packet cmd payload) in
    (
      escaped ++ (0x7E ∷ []),
      refl,
      ap (receive false) (append_assoc escaped (0x7E ∷ []) rest)
          ∙ receive-hdlc_escape (diag_packet cmd payload) rest,
    )
