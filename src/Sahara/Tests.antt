-- ===== src/Sahara/Tests.antt =====
-- A transport that hands out one byte at a time, and packets of the protocol on it.
use qedl_rs.Prelude.{
  ℕ, false, none, ◌+◌, ◌≡◌, refl, sym, ap, ◌∙◌, take-append-drop, arith, [], ◌∷◌, ◌++◌, leb, length,
  take, drop, length-take, ok_inj, min, ok, err, panic, if◌then◌else◌,
}
use qedl_rs.Prelude.Bytes.{Bytes}
use qedl_rs.Transport.Port.{Transport, read_exact, read_exact_loop}
use qedl_rs.Transport.Port.Laws.{IsTransport, IsStream, ok_pair, ok_not_err}
use qedl_rs.Sahara.Protocol.{
  hello, hello_response, command_mode, SaharaCommand, HelloPacket, transfer_failed, parse_hello,
  command_code, mode_code, reserved_bytes, hello_packet_bytes, hello_response_to, image_transfer,
}
use qedl_rs.Sahara.Session.{
  SaharaSession, waiting_data_request, transferring, write, send_loader_chunk, upload_loader,
}
use qedl_rs.Sahara.Handshake.{handshake}
use qedl_rs.Sahara.NoLoader.{hello_of, handshake_panics}
use qedl_rs.Sahara.Panics.{request_header, request_body, upload_loader_panics}
use qedl_rs.Sahara.Hello.{parse_hello-hello_packet_bytes}
use qedl_rs.Sahara.Chunks.{Ends, Filled, send_loader_chunk_lem, read_exact-Filled}

-- The state is what is still to be read, and what was written.
abbrev Wire : Type 0
Wire = Bytes × Bytes

abbrev wire : Transport Wire
wire = record {
  read = λ n w. (ok (take (min n 1) w.0), (drop (min n 1) w.0, w.1));
  write = λ packet w. (ok tt, (w.0, w.1 ++ packet));
  flush = λ w. (ok tt, w);
  set_timeout = λ ms w. w;
}

abbrev session : SaharaSession Wire
session = record {
  state = waiting_data_request;
  protocol_version = 2;
  max_chunk_size = 1024;
  transport = ([], []);
}

abbrev loader : Bytes
loader = 10 ∷ 20 ∷ 30 ∷ 40 ∷ []

send_loader_chunk_lem_example : send_loader_chunk wire loader 1 2 session ≡ (
    if leb (1 + 2) (length loader)
    then write wire (take 2 (drop 1 loader)) (record session { state = transferring })
    else (err (transfer_failed 1), session))
send_loader_chunk_lem_example = send_loader_chunk_lem wire loader 1 2 session (omega arith)

-- A request for two bytes from the last 64-bit number on.
abbrev requested : SaharaSession Wire
requested = record session {
  transport = (request_header ++ request_body 13 18446744073709551615 2, []);
}

header_read :
    read_exact wire 8 (wire.set_timeout 2000 requested.transport)
    ≡ (ok request_header, (request_body 13 18446744073709551615 2, []))
unfolding read_exact read_exact_loop
header_read = refl

body_read :
    read_exact wire 24 (request_body 13 18446744073709551615 2, [])
    ≡ (ok (request_body 13 18446744073709551615 2), ([], []))
unfolding read_exact read_exact_loop
body_read = refl

upload_loader_panics_example : (upload_loader wire 10 loader requested).0 ≡ panic
upload_loader_panics_example =
    upload_loader_panics wire 9 13 18446744073709551615 2 loader requested
      (request_body 13 18446744073709551615 2, []) ([], []) header_read body_read (omega arith)
      (omega arith) (omega arith) (omega arith)

wire-IsTransport : IsTransport wire
wire-IsTransport n w bytes w' h =
    omega (arith, length-take (min n 1) w.0, ap length (ok_inj refl (ap (λ z. z.0) h)))

wire-Ends : (n : ℕ) (w : Wire) → Ends (wire.read n w)
wire-Ends n w = tt

wire-IsStream : IsStream wire (λ w. w.0)
wire-IsStream = record {
  read_ok = λ n w bytes w' h.
      let (bytes_eq, w_eq) = ok_pair h in
      sym (take-append-drop (min n 1) w.0)
      ∙ ap (λ z. z ++ drop (min n 1) w.0) bytes_eq
      ∙ ap (λ z. bytes ++ z.0) w_eq;
  read_err = λ n w e w' h. absurd (ok_not_err h);
  set_timeout_keeps = λ ms w. refl;
}

read_exact-Filled_example : Filled (λ w. w.0) loader 3 (read_exact wire 3 (loader, []))
read_exact-Filled_example =
    read_exact-Filled wire wire-IsTransport (λ w. w.0) wire-IsStream wire-Ends 3 (loader, [])

parse_hello-hello_packet_bytes_example :
    let packet : SaharaCommand → HelloPacket = λ d. record {
      command = d;
      packet_length = 48;
      version = 2;
      version_min = 1;
      max_command_length = 4096;
      mode = command_mode;
      reserved = 1 ∷ 2 ∷ 3 ∷ 4 ∷ 5 ∷ 6 ∷ [];
    } in
    parse_hello (hello_packet_bytes (packet hello_response)) ≡ ok (packet hello)
parse_hello-hello_packet_bytes_example =
    parse_hello-hello_packet_bytes hello_response 48 2 1 4096 command_mode 1 2 3 4 5 6 (omega arith)
      (omega arith) (omega arith) (omega arith) (omega arith) (omega arith) (omega arith)
      (omega arith) (omega arith) (omega arith)

abbrev greeted : SaharaSession Wire
greeted = record session { transport = (hello_packet_bytes (hello_of 2 1 1024 0 0 0 0 0 0), []) }

hello_read :
    read_exact wire 48 (wire.set_timeout 1000 greeted.transport)
    ≡ (ok (hello_packet_bytes (hello_of 2 1 1024 0 0 0 0 0 0)), ([], []))
unfolding read_exact read_exact_loop hello_packet_bytes command_code mode_code reserved_bytes
hello_read = refl

handshake_panics_example :
    (handshake wire [] (λ bytes. false) 10 none image_transfer greeted).0 ≡ panic
handshake_panics_example =
    handshake_panics wire [] (λ bytes. false) 10 image_transfer 2 1 1024 0 0 0 0 0 0 greeted
      greeted.transport ([], [])
      ([], hello_packet_bytes (hello_response_to 2 (0 ∷ 0 ∷ 0 ∷ 0 ∷ 0 ∷ 0 ∷ []) image_transfer))
      (omega arith) (omega arith) (omega arith) (omega arith) (omega arith) (omega arith)
      (omega arith) (omega arith) (omega arith) refl hello_read refl
