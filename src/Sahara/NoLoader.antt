-- ===== src/Sahara/NoLoader.antt =====
-- qedl-sahara/src/session.rs: `handshake` without a loader.
use qedl_rs.Prelude.{
  ℕ, ◌^◌, ◌<◌, ◌≡◌, refl, arith, Bool, true, false, none, [], ◌∷◌, leb, ◌==◌, ok, panic,
}
use qedl_rs.Prelude.Bytes.{Bytes, le_at}
use qedl_rs.Transport.Port.{Transport, read_exact}
use qedl_rs.Sahara.Protocol.{
  hello, command_code, SaharaMode, image_transfer, HelloPacket, hello_packet_bytes,
  hello_response_to,
}
use qedl_rs.Sahara.Session.{
  SaharaSession, with_transport, set_state, set_max_chunk_size, set_timeout, write,
  send_hello_response_raw, send_hello_response,
}
use qedl_rs.Sahara.Exec.{caught, try_it}
use qedl_rs.Sahara.Handshake.{
  first_byte, flush_quietly, read_hello, hello_or_firehose, first_hello, query_info, open_loader,
  after_hello, handshake,
}
use qedl_rs.Sahara.Hello.{parse_hello-hello_packet_bytes}

-- A Hello of a device that waits for its loader.
abbrev pub hello_of : (version low max r0 r1 r2 r3 r4 r5 : ℕ) → HelloPacket
hello_of version low max r0 r1 r2 r3 r4 r5 = record {
  command = hello;
  packet_length = 48;
  version = version;
  version_min = low;
  max_command_length = max;
  mode = image_transfer;
  reserved = r0 ∷ r1 ∷ r2 ∷ r3 ∷ r4 ∷ r5 ∷ [];
}

hello_is_no_text :
    (version low max r0 r1 r2 r3 r4 r5 : ℕ)
    → leb 0x20 (first_byte (hello_packet_bytes (hello_of version low max r0 r1 r2 r3 r4 r5)))
      ≡ false
unfolding first_byte hello_packet_bytes command_code
hello_is_no_text version low max r0 r1 r2 r3 r4 r5 = refl

hello_has_command :
    (version low max r0 r1 r2 r3 r4 r5 : ℕ)
    → (le_at (hello_packet_bytes (hello_of version low max r0 r1 r2 r3 r4 r5)) 0 4
        == command_code hello)
      ≡ true
unfolding hello_packet_bytes command_code
hello_has_command version low max r0 r1 r2 r3 r4 r5 = refl

-- Without a path to a loader, a device that answers the first read of the handshake with a Hello
-- packet in image transfer mode, its fields of 32 bits, makes `handshake` panic. The flush before
-- the read and the write of the answer succeed.
pub handshake_panics :
    {W : Type 0} (t : Transport W) (nop_xml : Bytes) (contains_ack : Bytes → Bool) (fuel : ℕ)
    (mode : SaharaMode) (version low max r0 r1 r2 r3 r4 r5 : ℕ) (s : SaharaSession W) (w0 w1 w2 : W)
    → version < 2 ^ 32
    → low < 2 ^ 32
    → max < 2 ^ 32
    → r0 < 2 ^ 32
    → r1 < 2 ^ 32
    → r2 < 2 ^ 32
    → r3 < 2 ^ 32
    → r4 < 2 ^ 32
    → r5 < 2 ^ 32
    → t.flush s.transport ≡ (ok tt, w0)
    → read_exact t 48 (t.set_timeout 1000 w0)
      ≡ (ok (hello_packet_bytes (hello_of version low max r0 r1 r2 r3 r4 r5)), w1)
    → t.write
        (hello_packet_bytes
          (hello_response_to s.protocol_version (r0 ∷ r1 ∷ r2 ∷ r3 ∷ r4 ∷ r5 ∷ []) mode))
        w1
      ≡ (ok tt, w2)
    → (handshake t nop_xml contains_ack fuel none mode s).0 ≡ panic
unfolding caught handshake read_hello set_state flush_quietly try_it with_transport set_timeout
    set_max_chunk_size first_hello hello_or_firehose after_hello send_hello_response
    send_hello_response_raw write query_info open_loader
handshake_panics t nop_xml contains_ack fuel mode version low max r0 r1 r2 r3 r4 r5 s w0 w1 w2 hv hl
      hm h0 h1 h2 h3 h4 h5 flushed answered sent =
    let parsed =
      parse_hello-hello_packet_bytes hello 48 version low max image_transfer r0 r1 r2 r3 r4 r5
        (omega arith) hv hl hm h0 h1 h2 h3 h4 h5 in
    rw flushed (
      rw answered (
        rw (hello_is_no_text version low max r0 r1 r2 r3 r4 r5)
          (rw (hello_has_command version low max r0 r1 r2 r3 r4 r5) (rw parsed (rw sent refl)))))
