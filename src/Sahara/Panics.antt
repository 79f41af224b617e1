-- ===== src/Sahara/Panics.antt =====
-- qedl-sahara/src/session.rs: packets of a device that make the session panic.
use qedl_rs.Prelude.{ℕ, suc, ◌+◌, ◌-◌, ◌^◌, ◌≤◌, ◌<◌, ◌≡◌, refl, arith, ◌++◌, length, ok, panic}
use qedl_rs.Prelude.Bytes.{Bytes, to_le_bytes, from_le_bytes-to_le_bytes}
use qedl_rs.Prelude.Words.{add64}
use qedl_rs.Transport.Port.{Transport, read_exact}
use qedl_rs.Sahara.Protocol.{SaharaCommand_from_u32}
use qedl_rs.Sahara.Session.{
  SaharaSession, with_transport, set_state, set_timeout, read_packet, upload_command, upload_loop,
  upload_loader,
}
use qedl_rs.Sahara.Chunks.{send_loader_chunk_panics}

-- A `ReadData64` packet: the header with the command and the size, and the body.
abbrev pub request_header : Bytes
request_header = to_le_bytes 4 0x12 ++ to_le_bytes 4 32

abbrev pub request_body : ℕ → ℕ → ℕ → Bytes
request_body image offset n = to_le_bytes 8 image ++ (to_le_bytes 8 offset ++ to_le_bytes 8 n)

wrapped_end :
    (offset n : ℕ)
    → offset < 2 ^ 64
    → n < 2 ^ 64
    → 2 ^ 64 ≤ offset + n
    → add64 offset n ≡ offset + n - 2 ^ 64
unfolding add64
wrapped_end offset n h k wraps = omega arith

-- If the first packet that a device sends for the loader is a `ReadData64` request whose end, offset
-- and length together, is 2 ^ 64 or more, and the end without the 2 ^ 64 is within the loader, then
-- `upload_loader` panics.
pub upload_loader_panics :
    {W : Type 0} (t : Transport W) (fuel image offset n : ℕ) (loader_data : Bytes)
    (s : SaharaSession W) (w1 w2 : W)
    → read_exact t 8 (t.set_timeout 2000 s.transport) ≡ (ok request_header, w1)
    → read_exact t 24 w1 ≡ (ok (request_body image offset n), w2)
    → offset < 2 ^ 64
    → n < 2 ^ 64
    → 2 ^ 64 ≤ offset + n
    → offset + n ≤ 2 ^ 64 + length loader_data
    → (upload_loader t (suc fuel) loader_data s).0 ≡ panic
unfolding upload_loader set_state set_timeout upload_loop with_transport upload_command read_packet
    SaharaCommand_from_u32
upload_loader_panics t fuel image offset n loader_data s w1 w2 first body h k wraps inside =
    let start = from_le_bytes-to_le_bytes 8 offset h in
    let size = from_le_bytes-to_le_bytes 8 n k in
    let end = wrapped_end offset n h k wraps in
    rw first (
      rw body (
        rw start (
          rw size (
            rw
              (send_loader_chunk_panics t loader_data offset n _ (omega (arith, end))
                (omega (arith, end)))
              refl))))
