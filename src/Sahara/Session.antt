-- ===== src/Sahara/Session.antt =====
-- qedl-sahara/src/session.rs: the session's state, and the transfer of the loader.
use qedl_rs.Prelude.{
  ℕ, zero, suc, Bool, true, false, Option, some, ◌++◌, ltb, leb, length, Outcome, ok, err, panic,
  hang, if◌then◌else◌,
}
use qedl_rs.Prelude.Bytes.{Bytes, slice, le_at, to_le_bytes}
use qedl_rs.Prelude.Words.{add64}
use qedl_rs.Transport.Port.{Act, ◌>>=◌, ◌>>◌, ret, fail, IoError, Transport, read_exact}
use qedl_rs.Sahara.Protocol.{
  SaharaCommand, read_data, read_data64, end_transfer, done_request, done_response, switch_mode,
  command_code, SaharaCommand_from_u32, SaharaMode, mode_code, HelloPacket, SaharaError,
  transfer_failed, sahara_io, hello_packet_bytes, hello_response_to,
}

pub data SaharaState : Type 0 where
  waiting_hello hello_received waiting_data_request transferring done error : SaharaState

pub record SaharaSession (W : Type 0) : Type 0 where
  pub state : SaharaState
  pub protocol_version : ℕ
  pub max_chunk_size : ℕ
  pub transport : W

-- An action of the transport, its error turned into one of the session.
abbrev pub on_error :
    {A : Type 0} → (IoError → SaharaError) → Outcome IoError A → Outcome SaharaError A
on_error f (ok a) = ok a
on_error f (err e) = err (f e)
on_error f panic = panic
on_error f hang = hang

module _ {W : Type 0} where
  unfoldable pub with_transport :
      {A : Type 0} → (IoError → SaharaError) → Act W IoError A → Act (SaharaSession W) SaharaError A
  with_transport f act s =
      let run = act s.transport in (on_error f run.0, record s { transport = run.1 })

  unfoldable pub set_state : SaharaState → Act (SaharaSession W) SaharaError (Unit {0})
  set_state state s = (ok tt, record s { state = state })

  unfoldable pub set_max_chunk_size : ℕ → Act (SaharaSession W) SaharaError (Unit {0})
  set_max_chunk_size size s = (ok tt, record s { max_chunk_size = size })

-- `self.transport.set_timeout(..)`, in milliseconds.
unfoldable pub set_timeout :
    {W : Type 0} → Transport W → ℕ → Act (SaharaSession W) SaharaError (Unit {0})
set_timeout t ms s = (ok tt, record s { transport = t.set_timeout ms s.transport })

module _ {W : Type 0} (t : Transport W) where
  -- `self.transport.write(..).await?` and `read_exact(..).await?`
  unfoldable pub write : Bytes → Act (SaharaSession W) SaharaError (Unit {0})
  write packet = with_transport (λ _. sahara_io) (t.write packet)

  unfoldable pub read_packet : ℕ → Act (SaharaSession W) SaharaError Bytes
  read_packet len = with_transport (λ _. sahara_io) (read_exact t len)

  -- `send_loader_chunk`; the image number is only logged, and `slice` panics on a range that is
  -- not ordered.
  unfoldable pub send_loader_chunk : Bytes → ℕ → ℕ → Act (SaharaSession W) SaharaError (Unit {0})
  send_loader_chunk loader_data offset length64 =
      let start = offset in
      let end = add64 start length64 in
      if ltb (length loader_data) end
      then fail (transfer_failed offset)
      else (set_state transferring
          >> (if leb start end then write (slice loader_data start end) else (λ s. (panic, s))))

  -- One round of the loop of `upload_loader`: true where it ends.
  unfoldable pub upload_command :
      Bytes → Option SaharaCommand → Act (SaharaSession W) SaharaError Bool
  upload_command loader_data (some read_data) = do
    body ← read_packet 12
    send_loader_chunk loader_data (le_at body 4 8) (le_at body 8 12)
    ret false
  upload_command loader_data (some read_data64) = do
    body ← read_packet 24
    send_loader_chunk loader_data (le_at body 8 16) (le_at body 16 24)
    ret false
  upload_command loader_data (some end_transfer) = ret true
  upload_command loader_data (some done_response) = ret true
  upload_command loader_data other = ret false

  unfoldable pub upload_loop : ℕ → Bytes → Act (SaharaSession W) SaharaError (Unit {0})
  upload_loop zero loader_data = λ s. (hang, s)
  upload_loop (suc fuel) loader_data = do
    cmd_hdr ← with_transport (λ _. transfer_failed 0) (read_exact t 8)
    finished ← upload_command loader_data (SaharaCommand_from_u32 (le_at cmd_hdr 0 4))
    let rest = upload_loop fuel loader_data
    if finished then ret tt else rest

  -- `upload_loader`; the device decides how many commands it sends, `fuel` bounds them.
  unfoldable pub upload_loader : ℕ → Bytes → Act (SaharaSession W) SaharaError (Unit {0})
  upload_loader fuel loader_data = do
    set_state waiting_data_request
    set_timeout t 2000
    upload_loop fuel loader_data

  -- `send_done`; what the device answers is only logged.
  unfoldable pub send_done : Act (SaharaSession W) SaharaError (Unit {0})
  send_done = do
    write (to_le_bytes 4 (command_code done_request) ++ to_le_bytes 4 8)
    set_timeout t 2000
    answer ← with_transport (λ _. sahara_io) (t.read 32)
    ret tt

  unfoldable pub mode_switch : SaharaMode → Act (SaharaSession W) SaharaError (Unit {0})
  mode_switch mode = write (
      to_le_bytes 4 (command_code switch_mode)
      ++ to_le_bytes 4 12
      ++ to_le_bytes 4 (mode_code mode))

  -- `send_hello_response_raw`
  unfoldable pub send_hello_response_raw :
      HelloPacket → Act (SaharaSession W) SaharaError (Unit {0})
  send_hello_response_raw resp = write (hello_packet_bytes resp)

  unfoldable pub send_hello_response :
      HelloPacket → SaharaMode → Act (SaharaSession W) SaharaError (Unit {0})
  send_hello_response packet mode s =
      send_hello_response_raw (hello_response_to s.protocol_version packet.reserved mode) s
