-- ===== src/Sahara/Handshake.antt =====
-- qedl-sahara/src/session.rs: `read_hello`, the recoveries, and `handshake`.
use qedl_rs.Prelude.{
  ℕ, Bool, true, false, Option, none, some, [], ◌∷◌, ltb, leb, ◌==◌, ◌&&◌, length, Outcome, ok, err,
  panic, hang, if◌then◌else◌, match_option,
}
use qedl_rs.Prelude.Bytes.{Bytes, le_at}
use qedl_rs.Transport.Port.{Act, ◌>>=◌, ◌>>◌, ret, fail, Transport, read_exact}
use qedl_rs.Sahara.Protocol.{
  hello, command_code, SaharaMode, command_mode, HelloPacket, SaharaError, hello_failed,
  already_in_firehose, not_in_firehose, transfer_failed, unexpected_command, sahara_io, parse_hello,
  hello_response_to,
}
use qedl_rs.Sahara.Session.{
  waiting_hello, hello_received, done, SaharaSession, with_transport, set_state, set_max_chunk_size,
  set_timeout, write, upload_loader, send_done, mode_switch, send_hello_response_raw,
  send_hello_response,
}
use qedl_rs.Sahara.Exec.{get_msm_hw_id, get_serial_num, try_it}

pub record SaharaDeviceInfo : Type 0 where
  pub msm_hw_id : Option Bytes
  pub serial_num : Option ℕ

abbrev pub default_device_info : SaharaDeviceInfo
default_device_info = record { msm_hw_id = none; serial_num = none }

-- The first byte of a packet.
unfoldable pub first_byte : Bytes → ℕ
first_byte [] = 0
first_byte (b ∷ rest) = b

module _ {W : Type 0} (t : Transport W) where
  unfoldable pub flush_quietly : Act (SaharaSession W) SaharaError (Option (Unit {0}))
  flush_quietly = try_it t (with_transport (λ _. sahara_io) t.flush)

  unfoldable pub read_hello : Act (SaharaSession W) SaharaError HelloPacket
  read_hello = do
    set_state waiting_hello
    flushed ← flush_quietly
    set_timeout t 1000
    packet ← with_transport (λ _. hello_failed) (read_exact t 48)
    if leb 0x20 (first_byte packet)
        then fail already_in_firehose
        else if le_at packet 0 4 == command_code hello
        then (do
          set_state hello_received
          set_max_chunk_size (le_at packet 16 20)
          λ s. (parse_hello packet, s))
        else fail (unexpected_command (le_at packet 0 4))

  -- The answer to the `HelloResponse` is only logged.
  unfoldable pub pbl_hack : SaharaMode → Act (SaharaSession W) SaharaError (Unit {0})
  pbl_hack mode = do
    flushed ← flush_quietly
    (λ s.
        send_hello_response_raw t
          (hello_response_to s.protocol_version (0 ∷ 0 ∷ 0 ∷ 0 ∷ 0 ∷ 0 ∷ []) mode) s)
    set_timeout t 10
    answer ← try_it t (with_transport (λ _. sahara_io) (read_exact t 16))
    mode_switch t mode

  -- `nop_xml` is the text of the command, and `contains_ack` tells whether the text that bytes stand
  -- for has `ACK` in it.
  module _ (nop_xml : Bytes) (contains_ack : Bytes → Bool) where
    unfoldable pub try_firehose_nop : Act (SaharaSession W) SaharaError Bool
    try_firehose_nop = do
      flushed ← flush_quietly
      set_timeout t 500
      sent ← try_it t (write t nop_xml)
      match_option sent (ret false) λ _. do
        answer ← try_it t (with_transport (λ _. sahara_io) (t.read 512))
        match_option answer (ret false) λ bytes. ret (ltb 0 (length bytes) && contains_ack bytes)

    -- The second `read_hello`, after the recovery; `none` where the device is in Firehose mode.
    unfoldable pub hello_or_firehose :
        Outcome SaharaError HelloPacket → Act (SaharaSession W) SaharaError (Option HelloPacket)
    hello_or_firehose (ok packet) = ret (some packet)
    hello_or_firehose (err already_in_firehose) = ret none
    hello_or_firehose (err e) = fail e
    hello_or_firehose panic = λ s. (panic, s)
    hello_or_firehose hang = λ s. (hang, s)

    unfoldable pub read_hello_again : Act (SaharaSession W) SaharaError (Option HelloPacket)
    read_hello_again s = let run = read_hello s in hello_or_firehose run.0 run.1

    -- The device did not send a Hello.
    unfoldable pub without_hello :
        Bool → SaharaMode → Act (SaharaSession W) SaharaError (Option HelloPacket)
    without_hello has_loader mode = do
      in_firehose ← try_firehose_nop
      if in_firehose
          then ret none
          else if has_loader
          then (do pbl_hack mode; read_hello_again)
          else fail not_in_firehose

    -- The first `match` of `handshake`.
    unfoldable pub first_hello :
        Bool
        → SaharaMode
        → Outcome SaharaError HelloPacket
        → Act (SaharaSession W) SaharaError (Option HelloPacket)
    first_hello has_loader mode (err hello_failed) = without_hello has_loader mode
    first_hello has_loader mode outcome = hello_or_firehose outcome

    unfoldable pub query_info : HelloPacket → Act (SaharaSession W) SaharaError SaharaDeviceInfo
    query_info packet = elim packet.mode [
      | command_mode ↦ do
        id ← try_it t (get_msm_hw_id t)
        num ← try_it t (get_serial_num t)
        ret (record { msm_hw_id = id; serial_num = num })
      | _ ↦ ret default_device_info
    ]

    -- `loader_path.unwrap()`, and the read of the file at the path: `some none` is a path that
    -- cannot be read.
    unfoldable pub open_loader : Option (Option Bytes) → Act (SaharaSession W) SaharaError Bytes
    open_loader none = λ s. (panic, s)
    open_loader (some none) = fail (transfer_failed 0)
    open_loader (some (some loader)) = ret loader

    -- `handshake` from the Hello on.
    unfoldable pub after_hello :
        ℕ
        → Option (Option Bytes)
        → SaharaMode
        → HelloPacket
        → Act (SaharaSession W) SaharaError SaharaDeviceInfo
    after_hello fuel loader_path mode packet = do
      send_hello_response t packet mode
      device_info ← query_info packet
      loader_data ← open_loader loader_path
      upload_loader t fuel loader_data
      send_done t
      set_state done
      ret device_info

    unfoldable pub handshake :
        ℕ → Option (Option Bytes) → SaharaMode → Act (SaharaSession W) SaharaError SaharaDeviceInfo
    handshake fuel loader_path mode s =
        let run = read_hello s in
        let has_loader = match_option loader_path false (λ _. true) in
        (first_hello has_loader mode run.0 >>= λ packet.
        match_option packet (ret default_device_info) (after_hello fuel loader_path mode))
          run.1
