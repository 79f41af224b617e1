-- ===== src/Firehose/Client/Sent.antt =====
-- qedl-firehose/src/client.rs: what the calls write to the transport.
use qedl_rs.Prelude.{
  ℕ, zero, suc, ◌≡◌, refl, sym, ap, ◌∙◌, Bool, true, false, not, ◌&&◌, ◌||◌, Option, none, some,
  List, [], ◌∷◌, ◌++◌, append_assoc, ltb, length, take, drop, Outcome, ok, err, panic, hang,
  if◌then◌else◌, match_option,
}
use qedl_rs.Prelude.Bytes.{Bytes}
use qedl_rs.Text.{Text, lit}
use qedl_rs.Text.Utf8.{from_utf8_lossy}
use qedl_rs.Transport.Port.{Act, and_then, ◌>>◌, ret, fail, IoError, Transport}
use qedl_rs.Transport.Port.Laws.{
  and_then-eq-ok, ok_pair, ok_pair_state, err_not_ok, panic_not_ok, hang_not_ok, IsLog,
}
use qedl_rs.Firehose.Command.{FirehoseCommand, program_command, to_xml, xml_document}
use qedl_rs.Firehose.Response.{XmlEvent, from_xml, is_ack}
use qedl_rs.Firehose.Client.{
  FirehoseError, nak, Link, io, as_firehose, set_leftover, finish, response_end, holds_nothing,
  has_response, set_timeout, read_quietly, read_response_loop, read_response, read_buf_size,
}
use qedl_rs.Firehose.Client.Calls.{
  dropped, send_xml, parsed, execute_command, acknowledged, sectors,
}
use qedl_rs.Firehose.Client.Sectors.{completed, program_sectors}

module _ {W : Type 0} (t : Transport W) (sent : W → List Bytes) (log : IsLog t sent) where
  -- A run that wrote nothing.
  Quiet : {E A : Type 0} → Link W → Outcome E A × Link W → Type 0
  Quiet s run = sent run.1.port ≡ sent s.port

  Quiet-and_then :
      {E A B : Type 0} (s : Link W) (run : Outcome E A × Link W) (next : A → Act (Link W) E B)
      → Quiet s run
      → ((a : A) (s1 : Link W) → Quiet s1 (next a s1))
      → Quiet s (and_then run next)
  unfolding Quiet
  Quiet-and_then s (ok a, s1) next quiet more = more a s1 ∙ quiet
  Quiet-and_then s (err e, s1) next quiet more = quiet
  Quiet-and_then s (panic, s1) next quiet more = quiet
  Quiet-and_then s (hang, s1) next quiet more = quiet

  Quiet-if :
      {E A : Type 0} (test : Bool) (x y : Act (Link W) E A) (s : Link W)
      → Quiet s (x s)
      → Quiet s (y s)
      → Quiet s ((if test then x else y) s)
  Quiet-if true x y s h k = h
  Quiet-if false x y s h k = k

  Quiet-match_option :
      {E A B : Type 0} (o : Option B) (x : Act (Link W) E A) (f : B → Act (Link W) E A) (s : Link W)
      → Quiet s (x s)
      → ((b : B) → Quiet s (f b s))
      → Quiet s (match_option o x f s)
  Quiet-match_option none x f s h k = h
  Quiet-match_option (some b) x f s h k = k b

  Quiet-same : {E A : Type 0} (o : Outcome E A) (s : Link W) → Quiet s (o, s)
  unfolding Quiet
  Quiet-same o s = refl

  Quiet-read :
      (n : ℕ) (s : Link W)
      → Quiet s (read_quietly t n (record s { port = t.set_timeout 1000 s.port }))
  unfolding Quiet read_quietly io
  Quiet-read n s = log.read_keeps n (t.set_timeout 1000 s.port) ∙ log.set_timeout_keeps 1000 s.port

  Quiet-finish : (response : Bytes) (end : ℕ) (s : Link W) → Quiet s (finish response end s)
  unfolding Quiet finish set_leftover
  Quiet-finish response end s =
      elim (ltb end (length response))
        as (λ b. Quiet s (
          (if b
              then set_leftover (drop end response) >> ret (from_utf8_lossy (take end response))
              else ret (from_utf8_lossy response))
            s)) [ true ↦ refl | false ↦ refl ]

  read_response_loop-Quiet :
      (fuel empty_reads : ℕ) (response : Bytes) (s : Link W)
      → Quiet s (read_response_loop t fuel empty_reads response s)
  unfolding read_response_loop set_timeout
  read_response_loop-Quiet zero empty_reads response s = Quiet-same hang s
  read_response_loop-Quiet (suc fuel) empty_reads response s =
      let w = t.set_timeout 1000 s.port in
      Quiet-and_then s (read_quietly t read_buf_size (record s { port = w })) _
        (Quiet-read read_buf_size s)
        (λ bytes s1.
          let response' = response ++ bytes in
          let waits =
            holds_nothing bytes
            && (holds_nothing response || not (has_response (from_utf8_lossy response))) in
          let rest =
            read_response_loop-Quiet fuel (if waits then suc empty_reads else 0) response' s1 in
          Quiet-if waits _ _ s1 (Quiet-if (ltb 10 (suc empty_reads)) _ _ s1 (Quiet-same _ s1) rest)
            (Quiet-match_option (response_end (from_utf8_lossy response')) _ _ s1
              (Quiet-if (ltb 131072 (length response')) _ _ s1 (Quiet-same _ s1) rest)
              (λ end. Quiet-finish response' end s1)))

  Quiet-leftover :
      {E A : Type 0} (s : Link W) (bytes : Bytes) (run : Outcome E A × Link W)
      → Quiet (record s { client = record (s.client) { leftover = bytes } }) run
      → Quiet s run
  unfolding Quiet
  Quiet-leftover s bytes run h = h

  read_response-Quiet : (fuel : ℕ) (s : Link W) → Quiet s (read_response t fuel s)
  unfolding read_response set_leftover
  read_response-Quiet fuel s =
      Quiet-leftover s [] _ (read_response_loop-Quiet fuel 0 s.client.leftover _)

  io-write :
      (run : Outcome IoError (Unit {0}) × W) (packet : Bytes) (s s' : Link W) (done : Unit {0})
      → t.write packet s.port ≡ run
      → ◌≡◌ {A = Outcome FirehoseError (Unit {0}) × Link W}
          (as_firehose run.0, record s { port = run.1 })
          (ok done, s')
      → sent s'.port ≡ sent s.port ++ (packet ∷ [])
  io-write (ok unit, w) packet s s' done e h =
      ap (λ z. sent z.port) (sym (ok_pair h).1) ∙ log.write_ok packet s.port w e
  io-write (err x, w) packet s s' done e h = absurd (err_not_ok h)
  io-write (panic, w) packet s s' done e h = absurd (panic_not_ok h)
  io-write (hang, w) packet s s' done e h = absurd (hang_not_ok h)

  send_xml_sent :
      (xml : Text) (s s' : Link W) (done : Unit {0})
      → send_xml t xml s ≡ (ok done, s')
      → sent s'.port ≡ sent s.port ++ (xml ∷ [])
  unfolding send_xml io
  send_xml_sent xml s s' done h =
      let (flushed, s1, flush, write) =
        and_then-eq-ok (io (λ w. let run = t.flush w in (dropped run.0, run.1)) s) _ h in
      let quiet : sent s1.port ≡ sent s.port =
        ap (λ z. sent z.port) (sym (ok_pair_state (as_firehose (dropped (t.flush s.port).0)) flush))
        ∙ log.flush_keeps s.port in
      io-write (t.write xml s1.port) xml s1 s' done refl write ∙ ap (λ z. z ++ (xml ∷ [])) quiet

  parsed-Quiet :
      (xml_events : Text → List XmlEvent) (xml : Text) (s : Link W)
      → Quiet s (parsed xml_events xml s)
  unfolding parsed
  parsed-Quiet xml_events xml s =
      Quiet-match_option (from_xml xml_events xml) _ _ s (Quiet-same _ s) (λ r. Quiet-same _ s)

  -- What an action that returned wrote: these packets after those before.
  abbrev Wrote : {A : Type 0} → List Bytes → Act (Link W) FirehoseError A → Type 0
  Wrote {A} packets act =
      (s s' : Link W) (a : A) → act s ≡ (ok a, s') → sent s'.port ≡ sent s.port ++ packets

  execute_command_sent :
      (xml_events : Text → List XmlEvent) (fuel : ℕ) (command : FirehoseCommand)
      → Wrote (xml_document (to_xml command) ∷ []) (execute_command t xml_events fuel command)
  unfolding Quiet execute_command
  execute_command_sent xml_events fuel command s s' resp h =
      let document = xml_document (to_xml command) in
      let (done, s1, wrote, next) = and_then-eq-ok (send_xml t document s) _ h in
      let quiet : Quiet s1 (and_then (read_response t fuel s1) (parsed xml_events)) =
        Quiet-and_then s1 (read_response t fuel s1) _ (read_response-Quiet fuel s1)
          (parsed-Quiet xml_events) in
      ap (λ z. sent z.1.port) (sym next) ∙ quiet ∙ send_xml_sent document s s1 done wrote

  acknowledged_sent :
      (xml_events : Text → List XmlEvent) (fuel : ℕ) (call : Text) (command : FirehoseCommand)
      → Wrote (xml_document (to_xml command) ∷ []) (acknowledged t xml_events fuel call command)
  unfolding Quiet acknowledged
  acknowledged_sent xml_events fuel call command s s' resp h =
      let (answer, s1, asked, next) =
        and_then-eq-ok (execute_command t xml_events fuel command s) _ h in
      let quiet : Quiet s1 ((if is_ack answer then ret answer else fail (nak call)) s1) =
        Quiet-if (is_ack answer) (ret answer) (fail (nak call)) s1 refl refl in
      ap (λ z. sent z.1.port) (sym next)
      ∙ quiet
      ∙ execute_command_sent xml_events fuel command s s1 answer asked

  completed-Quiet :
      (xml_events : Text → List XmlEvent) (fuel : ℕ) (call : Text) (s : Link W)
      → Quiet s (completed t xml_events fuel call s)
  unfolding completed
  completed-Quiet xml_events fuel call s =
      Quiet-and_then s (read_response t fuel s) _ (read_response-Quiet fuel s) (λ xml s1.
        Quiet-and_then s1 (parsed xml_events xml s1) _ (parsed-Quiet xml_events xml s1)
          (λ r s2. Quiet-if (is_ack r) _ _ s2 (Quiet-same _ s2) (Quiet-same _ s2)))

  -- A write of sectors that succeeds sent two packets and no more: the `program` command for the
  -- range, with the sector size of the client, and after it the data as it was given.
  pub program_sectors_sent :
      (xml_events : Text → List XmlEvent) (fuel physical_partition start_sector num_sectors : ℕ)
      (bytes : Bytes) (s s' : Link W) (done : Unit {0})
      → program_sectors t xml_events fuel physical_partition start_sector num_sectors bytes s
        ≡ (ok done, s')
      → sent s'.port
        ≡ sent s.port
          ++ (xml_document (
                to_xml
                  (program_command (sectors physical_partition start_sector num_sectors s) none))
              ∷ bytes
              ∷ [])
  unfolding Quiet program_sectors io
  program_sectors_sent xml_events fuel physical_partition start_sector num_sectors bytes s s' done
        h =
      let command = program_command (sectors physical_partition start_sector num_sectors s) none in
      let document = xml_document (to_xml command) in
      let (resp, s1, asked, next) =
        and_then-eq-ok (acknowledged t xml_events fuel (lit "program") command s) _ h in
      let (wrote, s2, write, last) = and_then-eq-ok (io (t.write bytes) s1) _ next in
      ap (λ z. sent z.1.port) (sym last)
      ∙ completed-Quiet xml_events fuel (lit "program") s2
      ∙ io-write (t.write bytes s1.port) bytes s1 s2 wrote refl write
      ∙ ap (λ z. z ++ (bytes ∷ []))
          (acknowledged_sent xml_events fuel (lit "program") command s s1 resp asked)
      ∙ append_assoc (sent s.port) (document ∷ []) (bytes ∷ [])
