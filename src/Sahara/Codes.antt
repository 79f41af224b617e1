-- ===== src/Sahara/Codes.antt =====
-- qedl-core/src/protocol/sahara.rs: the numbers of the commands and of the modes.
use qedl_rs.Prelude.{ℕ, ◌≡◌, ◌↔◌, refl, sym, ap, ◌∙◌, arith, some}
use qedl_rs.Sahara.Protocol.{
  SaharaCommand, command_code, SaharaCommand_from_u32, SaharaMode, mode_code, mode_of_u32, hello,
  hello_response, read_data, end_transfer, done_request, done_response, reset_request,
  reset_response, memory_debug, memory_read, cmd_ready, switch_mode, execute_request,
  execute_response, execute_data, memory_debug64, memory_read64, read_data64, image_transfer,
  image_transfer_complete, memory_debug_mode, command_mode,
}

code-from_u32 : (v : ℕ) (c : SaharaCommand) → SaharaCommand_from_u32 v ≡ some c → command_code c ≡ v
unfolding SaharaCommand_from_u32 command_code
code-from_u32 v c h = ground arith

from_u32-code : (c : SaharaCommand) → SaharaCommand_from_u32 (command_code c) ≡ some c
unfolding SaharaCommand_from_u32 command_code
from_u32-code hello = refl
from_u32-code hello_response = refl
from_u32-code read_data = refl
from_u32-code end_transfer = refl
from_u32-code done_request = refl
from_u32-code done_response = refl
from_u32-code reset_request = refl
from_u32-code reset_response = refl
from_u32-code memory_debug = refl
from_u32-code memory_read = refl
from_u32-code cmd_ready = refl
from_u32-code switch_mode = refl
from_u32-code execute_request = refl
from_u32-code execute_response = refl
from_u32-code execute_data = refl
from_u32-code memory_debug64 = refl
from_u32-code memory_read64 = refl
from_u32-code read_data64 = refl

-- A number is read as a command exactly if it is the command's own number.
pub SaharaCommand_from_u32_iff :
    (v : ℕ) (c : SaharaCommand) → (SaharaCommand_from_u32 v ≡ some c) ↔ (command_code c ≡ v)
SaharaCommand_from_u32_iff v c =
    (code-from_u32 v c, λ e. ap SaharaCommand_from_u32 (sym e) ∙ from_u32-code c)

-- Each mode is read back from its number.
pub mode_of_u32-mode_code : (m : SaharaMode) → mode_of_u32 (mode_code m) ≡ m
unfolding mode_of_u32 mode_code
mode_of_u32-mode_code image_transfer = refl
mode_of_u32-mode_code image_transfer_complete = refl
mode_of_u32-mode_code memory_debug_mode = refl
mode_of_u32-mode_code command_mode = refl
