-- ===== src/Sahara/Protocol.antt =====
-- qedl-core/src/protocol/sahara.rs and qedl-sahara/src/protocol.rs: commands, modes and packets.
use qedl_rs.Prelude.{
  ℕ, ◌+◌, Option, none, some, List, [], ◌∷◌, ◌++◌, leb, ◌==◌, length, Outcome, ok, ◌>>◌, guard,
  if◌then◌else◌,
}
use qedl_rs.Prelude.Bytes.{Bytes, to_le_bytes, le_at}

pub data SaharaCommand : Type 0 where
  hello hello_response read_data end_transfer done_request done_response : SaharaCommand
  reset_request reset_response memory_debug memory_read cmd_ready switch_mode : SaharaCommand
  execute_request execute_response execute_data : SaharaCommand
  memory_debug64 memory_read64 read_data64 : SaharaCommand

-- `command as u32`
unfoldable pub command_code : SaharaCommand → ℕ
command_code hello = 0x01
command_code hello_response = 0x02
command_code read_data = 0x03
command_code end_transfer = 0x04
command_code done_request = 0x05
command_code done_response = 0x06
command_code reset_request = 0x07
command_code reset_response = 0x08
command_code memory_debug = 0x09
command_code memory_read = 0x0A
command_code cmd_ready = 0x0B
command_code switch_mode = 0x0C
command_code execute_request = 0x0D
command_code execute_response = 0x0E
command_code execute_data = 0x0F
command_code memory_debug64 = 0x10
command_code memory_read64 = 0x11
command_code read_data64 = 0x12

unfoldable pub SaharaCommand_from_u32 : ℕ → Option SaharaCommand
SaharaCommand_from_u32 v =
    if v == 0x01
    then some hello
    else if v == 0x02
    then some hello_response
    else if v == 0x03
    then some read_data
    else if v == 0x04
    then some end_transfer
    else if v == 0x05
    then some done_request
    else if v == 0x06
    then some done_response
    else if v == 0x07
    then some reset_request
    else if v == 0x08
    then some reset_response
    else if v == 0x09
    then some memory_debug
    else if v == 0x0A
    then some memory_read
    else if v == 0x0B
    then some cmd_ready
    else if v == 0x0C
    then some switch_mode
    else if v == 0x0D
    then some execute_request
    else if v == 0x0E
    then some execute_response
    else if v == 0x0F
    then some execute_data
    else if v == 0x10
    then some memory_debug64
    else if v == 0x11
    then some memory_read64
    else if v == 0x12
    then some read_data64
    else none

pub data SaharaMode : Type 0 where
  image_transfer image_transfer_complete memory_debug_mode command_mode : SaharaMode

-- `mode as u32`
unfoldable pub mode_code : SaharaMode → ℕ
mode_code image_transfer = 0x00
mode_code image_transfer_complete = 0x01
mode_code memory_debug_mode = 0x02
mode_code command_mode = 0x03

-- The `match` of `parse_hello`, its wildcard included.
unfoldable pub mode_of_u32 : ℕ → SaharaMode
mode_of_u32 v =
    if v == 0
    then image_transfer
    else if v == 1
    then image_transfer_complete
    else if v == 2
    then memory_debug_mode
    else if v == 3
    then command_mode
    else image_transfer

abbrev pub hello_packet_size : ℕ
hello_packet_size = 48

-- `PROTOCOL_VERSION` and `PROTOCOL_VERSION_MIN`
abbrev pub protocol_version_const : ℕ
protocol_version_const = 2

abbrev pub protocol_version_min : ℕ
protocol_version_min = 2

-- `SaharaHello` and `SaharaHelloResponse`, which have the same fields; `reserved` has six words.
pub record HelloPacket : Type 0 where
  pub command : SaharaCommand
  pub packet_length : ℕ
  pub version : ℕ
  pub version_min : ℕ
  pub max_command_length : ℕ
  pub mode : SaharaMode
  pub reserved : List ℕ

pub data SaharaError : Type 0 where
  hello_failed already_in_firehose not_in_firehose : SaharaError
  transfer_failed : ℕ → SaharaError
  unexpected_command : ℕ → SaharaError
  sahara_io : SaharaError

-- `reserved[i]` of `parse_hello`: zero where the packet ends before it.
unfoldable pub reserved_at : Bytes → ℕ → ℕ
reserved_at packet off = if leb (off + 4) (length packet) then le_at packet off (off + 4) else 0

unfoldable pub parse_hello : Bytes → Outcome SaharaError HelloPacket
parse_hello packet = do
  guard (leb 24 (length packet)) hello_failed
  ok (record {
    command = hello;
    packet_length = le_at packet 4 8;
    version = le_at packet 8 12;
    version_min = le_at packet 12 16;
    max_command_length = le_at packet 16 20;
    mode = mode_of_u32 (le_at packet 20 24);
    reserved =
        reserved_at packet 24
        ∷ reserved_at packet 28
        ∷ reserved_at packet 32
        ∷ reserved_at packet 36
        ∷ reserved_at packet 40
        ∷ reserved_at packet 44
        ∷ [];
  })

-- The packet that `send_hello_response_raw` fills.
unfoldable pub reserved_bytes : List ℕ → Bytes
reserved_bytes [] = []
reserved_bytes (v ∷ rest) = to_le_bytes 4 v ++ reserved_bytes rest

unfoldable pub hello_packet_bytes : HelloPacket → Bytes
hello_packet_bytes resp =
    to_le_bytes 4 (command_code resp.command)
    ++ to_le_bytes 4 resp.packet_length
    ++ to_le_bytes 4 resp.version
    ++ to_le_bytes 4 resp.version_min
    ++ to_le_bytes 4 resp.max_command_length
    ++ to_le_bytes 4 (mode_code resp.mode)
    ++ reserved_bytes resp.reserved

-- The answer to a Hello, which both `send_hello_response` and `pbl_hack` build.
unfoldable pub hello_response_to : ℕ → List ℕ → SaharaMode → HelloPacket
hello_response_to version reserved mode = record {
  command = hello_response;
  packet_length = hello_packet_size;
  version = version;
  version_min = protocol_version_min;
  max_command_length = 0;
  mode = mode;
  reserved = reserved;
}
