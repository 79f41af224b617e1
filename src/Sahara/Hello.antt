-- ===== src/Sahara/Hello.antt =====
-- qedl-sahara/src/session.rs: the Hello packets, written and read.
use qedl_rs.Prelude.{ℕ, ◌+◌, ◌*◌, ◌/◌, ◌%◌, ◌^◌, ◌<◌, ◌≡◌, refl, arith, [], ◌∷◌, ok}
use qedl_rs.Prelude.Bytes.{le_4}
use qedl_rs.Sahara.Protocol.{
  hello, SaharaCommand, SaharaMode, mode_code, mode_of_u32, image_transfer, image_transfer_complete,
  memory_debug_mode, command_mode, HelloPacket, reserved_at, parse_hello, reserved_bytes,
  hello_packet_bytes,
}

mode_bytes :
    (m : SaharaMode)
    → mode_of_u32 (
        mode_code m % 256
        + 256
          * (mode_code m / 256 % 256
              + 256
                * (mode_code m / 256 / 256 % 256
                    + 256 * (mode_code m / 256 / 256 / 256 % 256 + 256 * 0))))
      ≡ m
unfolding mode_of_u32 mode_code
mode_bytes image_transfer = refl
mode_bytes image_transfer_complete = refl
mode_bytes memory_debug_mode = refl
mode_bytes command_mode = refl

-- `parse_hello` reads every field of a packet that `send_hello_response_raw` wrote, the six
-- reserved words included, where each is a 32-bit number; the command is taken to be Hello.
pub parse_hello-hello_packet_bytes :
    (c : SaharaCommand) (size version low max : ℕ) (m : SaharaMode) (r0 r1 r2 r3 r4 r5 : ℕ)
    → size < 2 ^ 32
    → version < 2 ^ 32
    → low < 2 ^ 32
    → max < 2 ^ 32
    → r0 < 2 ^ 32
    → r1 < 2 ^ 32
    → r2 < 2 ^ 32
    → r3 < 2 ^ 32
    → r4 < 2 ^ 32
    → r5 < 2 ^ 32
    → let packet : SaharaCommand → HelloPacket = λ d. record {
      command = d;
      packet_length = size;
      version = version;
      version_min = low;
      max_command_length = max;
      mode = m;
      reserved = r0 ∷ r1 ∷ r2 ∷ r3 ∷ r4 ∷ r5 ∷ [];
    } in
      parse_hello (hello_packet_bytes (packet c)) ≡ ok (packet hello)
unfolding parse_hello hello_packet_bytes reserved_bytes reserved_at
parse_hello-hello_packet_bytes c size version low max m r0 r1 r2 r3 r4 r5 h1 h2 h3 h4 h5 h6 h7 h8 h9
      h10 =
    ground (
      arith,
      le_4 size,
      le_4 version,
      le_4 low,
      le_4 max,
      mode_bytes m,
      le_4 r0,
      le_4 r1,
      le_4 r2,
      le_4 r3,
      le_4 r4,
      le_4 r5,
    )
