-- ===== src/Transport/Tests.antt =====
-- A frame, and a choice between two devices.
use qedl_rs.Prelude.{◌≡◌, ◌⊎◌, ◌++◌, refl, true, false, some, none, [], ◌∷◌, ok}
use qedl_rs.Prelude.Bytes.{Bytes}
use qedl_rs.Text.{lit}
use qedl_rs.Transport.Device.{
  DeviceInfo, edl, diag, is_9008, is_diag, any, select_of, distinct, select_edl,
}
use qedl_rs.Transport.Device.Frame.{
  diag_frame, diag_packet, hdlc_escape, crc16_ccitt, receive, receive-diag_frame,
}
use qedl_rs.Transport.Device.Select.{Among, select_of_prefers_edl}

-- The payload holds the flag and the escape.
receive-diag_frame_example :
    (frame : Bytes) × (diag_frame 0x4B (0x7E ∷ 0x7D ∷ []) ≡ 0x7E ∷ frame)
    × (receive false (frame ++ (1 ∷ 2 ∷ []))
        ≡ some (diag_packet 0x4B (0x7E ∷ 0x7D ∷ []), 1 ∷ 2 ∷ []))
receive-diag_frame_example = receive-diag_frame 0x4B (0x7E ∷ 0x7D ∷ []) (1 ∷ 2 ∷ [])

-- The frame that switches a device to EDL.
switch_frame :
    diag_frame 0x4B (0x65 ∷ 0x01 ∷ 0x00 ∷ [])
    ≡ 0x7E ∷ 0x4B ∷ 0x65 ∷ 0x01 ∷ 0x00 ∷ 0x54 ∷ 0x0F ∷ 0x7E ∷ []
unfolding diag_frame diag_packet hdlc_escape crc16_ccitt
switch_frame = refl

abbrev modem : DeviceInfo
modem = record {
  port = lit "COM3";
  serial = none;
  product = none;
  pid = 0x90B8;
  vid = 0x05C6;
  description = none;
  mode = diag;
}

abbrev rescue : DeviceInfo
rescue = record modem { port = lit "COM4"; mode = edl }

rescue_chosen : select_of (modem ∷ rescue ∷ []) ≡ ok rescue
unfolding select_of is_9008 distinct select_edl
rescue_chosen = refl

select_of_prefers_edl_example :
    Among rescue (modem ∷ rescue ∷ [])
    × ((is_9008 rescue ≡ true)
        ⊎ ((any is_9008 (modem ∷ rescue ∷ []) ≡ false) × (is_diag rescue ≡ true)))
select_of_prefers_edl_example = select_of_prefers_edl (modem ∷ rescue ∷ []) rescue rescue_chosen
