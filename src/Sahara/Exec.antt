-- ===== src/Sahara/Exec.antt =====
-- qedl-sahara/src/session.rs: the commands of command mode.
use qedl_rs.Prelude.{
  ℕ, Option, none, some, [], ◌++◌, leb, ◌==◌, length, take, Outcome, ok, err, panic, hang,
  if◌then◌else◌,
}
use qedl_rs.Prelude.Bytes.{Bytes, le_at, to_le_bytes, from_le_bytes}
use qedl_rs.Transport.Port.{Act, ◌>>=◌, ◌>>◌, ret, fail, Transport, read_exact}
use qedl_rs.Sahara.Protocol.{
  execute_request, execute_response, end_transfer, command_code, SaharaError, transfer_failed,
  unexpected_command, command_mode,
}
use qedl_rs.Sahara.Session.{SaharaSession, with_transport, set_timeout, write, mode_switch}

-- `exec_cmd::SERIAL_NUM_READ` and `exec_cmd::MSM_HW_ID_READ`
abbrev pub serial_num_read : ℕ
serial_num_read = 0x01

abbrev pub msm_hw_id_read : ℕ
msm_hw_id_read = 0x02

-- The end of `get_serial_num`: `data[..8]` panics on fewer than eight bytes.
unfoldable pub serial_num_of : Bytes → Outcome SaharaError ℕ
serial_num_of answer =
    if leb 4 (length answer)
    then (if leb 8 (length answer) then ok (from_le_bytes (take 8 answer)) else panic)
    else err (transfer_failed 0)

unfoldable pub caught : {A : Type 0} → Outcome SaharaError A → Outcome SaharaError (Option A)
caught (ok a) = ok (some a)
caught (err e) = ok none
caught panic = panic
caught hang = hang

module _ {W : Type 0} (t : Transport W) where
  -- The data after an `ExecuteResponse` header.
  unfoldable pub exec_data : Bytes → Act (SaharaSession W) SaharaError Bytes
  exec_data hdr =
      if le_at hdr 12 16 == 0
      then ret []
      else with_transport (λ _. transfer_failed 0) (read_exact t (le_at hdr 12 16))

  unfoldable pub exec_cmd : ℕ → Act (SaharaSession W) SaharaError Bytes
  exec_cmd client_cmd = do
    write t (
        to_le_bytes 4 (command_code execute_request)
        ++ to_le_bytes 4 12
        ++ to_le_bytes 4 client_cmd)
    set_timeout t 2000
    hdr ← with_transport (λ _. transfer_failed 0) (read_exact t 16)
    if le_at hdr 0 4 == command_code execute_response
        then exec_data hdr
        else if le_at hdr 0 4 == command_code end_transfer
        then fail (transfer_failed 0)
        else fail (unexpected_command (le_at hdr 0 4))

  unfoldable pub get_msm_hw_id : Act (SaharaSession W) SaharaError Bytes
  get_msm_hw_id = exec_cmd msm_hw_id_read

  unfoldable pub get_serial_num : Act (SaharaSession W) SaharaError ℕ
  get_serial_num = do answer ← exec_cmd serial_num_read; λ s. (serial_num_of answer, s)

  -- A call whose error is only logged; it does not catch a panic.
  unfoldable pub try_it :
      {A : Type 0}
      → Act (SaharaSession W) SaharaError A
      → Act (SaharaSession W) SaharaError (Option A)
  try_it act s = let run = act s in (caught run.0, run.1)

  unfoldable pub enter_command_mode : Act (SaharaSession W) SaharaError (Unit {0})
  enter_command_mode = do
    mode_switch t command_mode
    set_timeout t 2000
    answer ← try_it (with_transport (λ _. transfer_failed 0) (read_exact t 8))
    ret tt
