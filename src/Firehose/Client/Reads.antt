-- ===== src/Firehose/Client/Reads.antt =====
-- qedl-firehose/src/client.rs: the data that `read_sectors` returns.
use qedl_rs.Prelude.{
  ℕ, zero, suc, ◌-◌, ◌≤◌, min, ◌≡◌, refl, sym, ap, ◌∙◌, not, ◌&&◌, List, ◌++◌, arith, ltb, length,
  length-append, length-take, take, Outcome, ok, err, panic, hang, inl, inr, ltb_false→le, ltb→lt,
}
use qedl_rs.Prelude.Bytes.{Bytes}
use qedl_rs.Prelude.Words.{mul64}
use qedl_rs.Text.{Text, lit}
use qedl_rs.Transport.Port.{IoError, Transport}
use qedl_rs.Transport.Port.Laws.{
  and_then-eq-ok, ok_pair, err_not_ok, panic_not_ok, hang_not_ok, if_run, IsTransport,
}
use qedl_rs.Firehose.Command.{read_command}
use qedl_rs.Firehose.Response.{XmlEvent}
use qedl_rs.Firehose.Client.{FirehoseError, Link, io, as_firehose, set_leftover, holds_nothing}
use qedl_rs.Firehose.Client.Calls.{acknowledged, sectors}
use qedl_rs.Firehose.Client.Sectors.{
  bytes_of_logs, allocate, take_leftover, read_data_loop, read_data, completed, read_sectors,
}

module _ {W : Type 0} (t : Transport W) (reads : IsTransport t) where
  pub io-read :
      (run : Outcome IoError Bytes × W) (n : ℕ) (s s' : Link W) (bytes : Bytes)
      → t.read n s.port ≡ run
      → ◌≡◌ {A = Outcome FirehoseError Bytes × Link W}
          (as_firehose run.0, record s { port = run.1 })
          (ok bytes, s')
      → (t.read n s.port ≡ (ok bytes, s'.port)) × (s'.client ≡ s.client)
  io-read (ok got, w) n s s' bytes e h =
      let (got_eq, link_eq) = ok_pair h in
      (cc (e, got_eq, ap (λ r. r.port) link_eq), sym (ap (λ r. r.client) link_eq))
  io-read (err x, w) n s s' bytes e h = absurd (err_not_ok h)
  io-read (panic, w) n s s' bytes e h = absurd (panic_not_ok h)
  io-read (hang, w) n s s' bytes e h = absurd (hang_not_ok h)

  length-read_data_loop :
      (fuel total : ℕ) (got bytes : Bytes) (s s' : Link W)
      → length got ≤ total
      → read_data_loop t fuel total got s ≡ (ok bytes, s')
      → length bytes ≡ total
  unfolding read_data_loop io
  length-read_data_loop zero total got bytes s s' fits h =
      elim (if_run (ltb (length got) total) _ _ h) [
        | inl (short, run) ↦ absurd (hang_not_ok run)
        | inr (full, run) ↦
            let same : length got ≡ length bytes = ap length (ok_pair run).0 in
            omega (arith, same, ltb_false→le (length got) total full)
      ]
  length-read_data_loop (suc fuel) total got bytes s s' fits h =
      elim (if_run (ltb (length got) total) _ _ h) [
        | inl (short, run) ↦
            let n = total - length got in
            let (more, s1, read, next) = and_then-eq-ok (io (t.read n) s) _ run in
            let (read', same) = io-read (t.read n s.port) n s s1 more refl read in
            elim (if_run (holds_nothing more) _ _ next) [
              | inl (nothing, failed) ↦ absurd (err_not_ok failed)
              | inr (something, rest) ↦
                  length-read_data_loop fuel total (got ++ more) bytes s1 s'
                    (omega (
                      arith,
                      length-append got more,
                      reads n s.port more s1.port read',
                      ltb→lt (length got) total short,
                    ))
                    rest
            ]
        | inr (full, run) ↦
            let same : length got ≡ length bytes = ap length (ok_pair run).0 in
            omega (arith, same, ltb_false→le (length got) total full)
      ]

  length-take_leftover :
      (total : ℕ) (got got' : Bytes) (s s' : Link W)
      → length got ≤ total
      → take_leftover total got s ≡ (ok got', s')
      → length got' ≤ total
  unfolding take_leftover set_leftover
  length-take_leftover total got got' s s' fits h =
      let kept = s.client.leftover in
      let n = min (length kept) (total - length got) in
      elim (if_run (ltb (length got) total && not (holds_nothing kept)) _ _ h) [
        | inl (room, run) ↦
            let same : length (got ++ take n kept) ≡ length got' = ap length (ok_pair run).0 in
            omega (arith, same, fits, length-append got (take n kept), length-take n kept)
        | inr (full, run) ↦
            let same : length got ≡ length got' = ap length (ok_pair run).0 in
            omega (arith, same, fits)
      ]

  pub length-read_data :
      (total : ℕ) (logs : List Text) (bytes : Bytes) (s s' : Link W)
      → read_data t total logs s ≡ (ok bytes, s')
      → length bytes ≡ total
  unfolding read_data
  length-read_data total logs bytes s s' h =
      let (allocated, s1, small, next) = and_then-eq-ok (allocate total s) _ h in
      let logged = take total (bytes_of_logs logs) in
      let (got, s2, taken, rest) = and_then-eq-ok (take_leftover total logged s1) _ next in
      let fits =
        length-take_leftover total logged got s1 s2
          (omega (arith, length-take total (bytes_of_logs logs))) taken in
      length-read_data_loop total total got bytes s2 s' fits rest

  -- A read that succeeds returns as many bytes as the sectors have, modulo the width of the
  -- product: no fewer, whatever the device puts in its log entries and however it splits its data.
  pub length-read_sectors :
      (xml_events : Text → List XmlEvent) (fuel physical_partition start_sector num_sectors : ℕ)
      (bytes : Bytes) (s s' : Link W)
      → read_sectors t xml_events fuel physical_partition start_sector num_sectors s
        ≡ (ok bytes, s')
      → length bytes ≡ mul64 num_sectors s.client.sector_size
  unfolding read_sectors
  length-read_sectors xml_events fuel physical_partition start_sector num_sectors bytes s s' h =
      let (resp, s1, asked, next) =
        and_then-eq-ok
          (acknowledged t xml_events fuel (lit "read")
            (read_command (sectors physical_partition start_sector num_sectors s)) s)
          _ h in
      let total = mul64 num_sectors s.client.sector_size in
      let (read, s2, filled, next') = and_then-eq-ok (read_data t total resp.logs s1) _ next in
      let (done, s3, complete, last) =
        and_then-eq-ok (completed t xml_events fuel (lit "read") s2) _ next' in
      sym (ap length (ok_pair last).0) ∙ length-read_data total resp.logs read s1 s2 filled
