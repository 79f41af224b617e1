-- ===== src/Firehose/Client/Ends.antt =====
-- qedl-firehose/src/client.rs: when `read_response` ends.
use qedl_rs.Prelude.{
  ℕ, zero, suc, ◌+◌, ◌≤◌, ◌<◌, ◌≡◌, refl, ap, ◌∙◌, Bool, true, false, not, ◌&&◌, ◌||◌, none, [],
  ◌∷◌, ◌++◌, append-nil, arith, ltb, length, length-append, Outcome, Settles, ok, err, panic, hang,
  Bool-cases, inl, inr, if◌then◌else◌, ltb_false→le, le→ltb,
}
use qedl_rs.Prelude.Bytes.{Bytes}
use qedl_rs.Text.{lit}
use qedl_rs.Text.Utf8.{from_utf8_lossy}
use qedl_rs.Transport.Port.{IoError, Transport}
use qedl_rs.Transport.Port.Laws.{
  Settles-and_then, Settles-if_run, Settles-match_option_run, ok_pair, and_then-ok,
}
use qedl_rs.Firehose.Client.{
  FirehoseError, timeout, Link, io, as_firehose, no_bytes, set_leftover, finish, response_end,
  holds_nothing, has_response, set_timeout, read_quietly, read_response_loop, read_response,
  read_buf_size,
}

-- The read gives something.
abbrev pub Talks : {W : Type 0} → Outcome IoError Bytes × W → Type 0
Talks (ok bytes, w) = 0 < length bytes
Talks (err e, w) = ⊥
Talks (panic, w) = ⊥
Talks (hang, w) = ⊥

-- What was read is not empty, so the test for an empty read fails.
not_empty :
    (bytes : Bytes) (test : Bool) → 0 < length bytes → (holds_nothing bytes && test) ≡ true → ⊥
not_empty [] test h waits = omega (arith, h)
not_empty (b ∷ bs) test h waits = absurd (ground (arith, waits))

module _ {W : Type 0} (t : Transport W) (talks : (n : ℕ) (w : W) → 0 < n → Talks (t.read n w)) where
  read_quietly-Settles :
      (run : Outcome IoError Bytes × W) → Talks run → Settles (as_firehose (no_bytes run.0))
  read_quietly-Settles (ok bytes, w) h = tt
  read_quietly-Settles (err e, w) h = elim h [ ]
  read_quietly-Settles (panic, w) h = elim h [ ]
  read_quietly-Settles (hang, w) h = elim h [ ]

  read_quietly_some :
      (run : Outcome IoError Bytes × W) (s s' : Link W) (bytes : Bytes)
      → Talks run
      → ◌≡◌ {A = Outcome FirehoseError Bytes × Link W}
          (as_firehose (no_bytes run.0), record s { port = run.1 })
          (ok bytes, s')
      → 0 < length bytes
  read_quietly_some (ok got, w) s s' bytes h e =
      let same : length got ≡ length bytes = ap length (ok_pair e).0 in omega (arith, same, h)
  read_quietly_some (err x, w) s s' bytes h e = elim h [ ]
  read_quietly_some (panic, w) s s' bytes h e = elim h [ ]
  read_quietly_some (hang, w) s s' bytes h e = elim h [ ]

  finish-Settles : (response : Bytes) (end : ℕ) (s : Link W) → Settles (finish response end s).0
  unfolding finish set_leftover
  finish-Settles response end s =
      Settles-if_run (ltb end (length response)) _ _ s (λ h. tt) (λ h. tt)

  read_response_loop-Settles :
      (fuel empty_reads : ℕ) (response : Bytes) (s : Link W)
      → 131074 ≤ fuel + length response
      → length response ≤ 131072
      → Settles (read_response_loop t fuel empty_reads response s).0
  unfolding read_response_loop set_timeout read_quietly io
  read_response_loop-Settles zero empty_reads response s enough small =
      absurd (omega (arith, enough, small))
  read_response_loop-Settles (suc fuel) empty_reads response s enough small =
      let w = t.set_timeout 1000 s.port in
      Settles-and_then (read_quietly t read_buf_size (record s { port = w })) _
        (read_quietly-Settles (t.read read_buf_size w) (talks read_buf_size w (omega arith)))
        (λ bytes s1 read.
          let response' = response ++ bytes in
          let more : 0 < length bytes =
            read_quietly_some (t.read read_buf_size w) (record s { port = w }) s1 bytes
              (talks read_buf_size w (omega arith)) read in
          let longer = length-append response bytes in
          let open_answer =
            holds_nothing response || not (has_response (from_utf8_lossy response)) in
          let next = if holds_nothing bytes && open_answer then suc empty_reads else 0 in
          let rest : length response' ≤ 131072
              → Settles (read_response_loop t fuel next response' s1).0 =
            λ fits.
              read_response_loop-Settles fuel next response' s1
                (omega (arith, longer, more, enough)) fits in
          Settles-if_run (holds_nothing bytes && open_answer) _ _ s1
            (λ waits. absurd (not_empty bytes open_answer more waits))
            (λ goes_on.
              Settles-match_option_run (response_end (from_utf8_lossy response')) _ _ s1
                (λ open_tag.
                  Settles-if_run (ltb 131072 (length response')) _ _ s1 (λ large. tt)
                    (λ fits. rest (ltb_false→le 131072 (length response') fits)))
                (λ end closed. finish-Settles response' end s1)))

  -- On a device that sends something at each read, `read_response` returns an answer or an error,
  -- within as many rounds as its limit on the buffer has bytes, and two.
  pub read_response-Settles :
      (fuel : ℕ) (s : Link W)
      → 131074 ≤ fuel
      → length s.client.leftover ≤ 131072
      → Settles (read_response t fuel s).0
  unfolding read_response set_leftover
  read_response-Settles fuel s enough small =
      read_response_loop-Settles fuel 0 s.client.leftover
        (record s { client = record (s.client) { leftover = [] } }) (omega (arith, enough)) small

-- The device sends nothing: reads of nothing, or errors of the transport.
abbrev pub Silent : {W : Type 0} → Outcome IoError Bytes × W → Type 0
Silent (ok bytes, w) = bytes ≡ []
Silent (err e, w) = Unit {0}
Silent (panic, w) = ⊥
Silent (hang, w) = ⊥

module _ {W : Type 0} (t : Transport W) (silent : (n : ℕ) (w : W) → Silent (t.read n w)) where
  read_quietly-Silent :
      (run : Outcome IoError Bytes × W) → Silent run → as_firehose (no_bytes run.0) ≡ ok []
  read_quietly-Silent (ok bytes, w) h = ap ok h
  read_quietly-Silent (err e, w) h = refl
  read_quietly-Silent (panic, w) h = elim h [ ]
  read_quietly-Silent (hang, w) h = elim h [ ]

  read_response_loop-timeout :
      (fuel empty_reads : ℕ) (response : Bytes) (s : Link W)
      → 11 ≤ fuel + empty_reads
      → empty_reads ≤ 10
      → (holds_nothing response || not (has_response (from_utf8_lossy response))) ≡ true
      → (read_response_loop t fuel empty_reads response s).0 ≡ err (timeout (lit "read_response"))
  unfolding read_response_loop set_timeout read_quietly io
  read_response_loop-timeout zero empty_reads response s enough few waits =
      absurd (omega (arith, enough, few))
  read_response_loop-timeout (suc fuel) empty_reads response s enough few waits =
      let w = t.set_timeout 1000 s.port in
      let s0 = record s { port = w } in
      ap (λ r. r.0)
        (and_then-ok (read_quietly t read_buf_size s0) _
          (read_quietly-Silent (t.read read_buf_size w) (silent read_buf_size w)))
      ∙ rw (append-nil response) (
          rw waits (elim (Bool-cases (ltb 10 (suc empty_reads))) [
            | inl many ↦ rw many refl
            | inr more ↦ rw more (
                read_response_loop-timeout fuel (suc empty_reads) response _ (omega (arith, enough))
                  (ltb_false→le 10 (suc empty_reads) more) waits)
          ]))

  read_response_loop-hang :
      (fuel empty_reads : ℕ) (response : Bytes) (s : Link W)
      → 0 < length response
      → length response ≤ 131072
      → has_response (from_utf8_lossy response) ≡ true
      → response_end (from_utf8_lossy response) ≡ none
      → (read_response_loop t fuel empty_reads response s).0 ≡ hang
  unfolding read_response_loop set_timeout read_quietly io
  read_response_loop-hang zero empty_reads response s filled small has no_end = refl
  read_response_loop-hang (suc fuel) empty_reads response s filled small has no_end =
      let w = t.set_timeout 1000 s.port in
      let s0 = record s { port = w } in
      let closes : (holds_nothing response || not (has_response (from_utf8_lossy response)))
          ≡ false =
        ground (arith, filled, has) in
      ap (λ r. r.0)
        (and_then-ok (read_quietly t read_buf_size s0) _
          (read_quietly-Silent (t.read read_buf_size w) (silent read_buf_size w)))
      ∙ rw (append-nil response) (
          rw closes (
            rw no_end (
              rw (le→ltb 131072 (length response) small)
                (read_response_loop-hang fuel 0 response _ filled small has no_end))))

  -- On a silent device, with a leftover that has no answer, `read_response` ends with the timeout
  -- error: eleven rounds are enough.
  pub read_response-timeout :
      (fuel : ℕ) (s : Link W)
      → 11 ≤ fuel
      → (holds_nothing s.client.leftover || not (has_response (from_utf8_lossy s.client.leftover)))
        ≡ true
      → (read_response t fuel s).0 ≡ err (timeout (lit "read_response"))
  unfolding read_response set_leftover
  read_response-timeout fuel s enough waits =
      read_response_loop-timeout fuel 0 s.client.leftover
        (record s { client = record (s.client) { leftover = [] } }) (omega (arith, enough))
        (omega arith) waits

  -- On a silent device, with a leftover that passes the test after an empty read though no answer
  -- ends in it, `read_response` does not end: no number of rounds is enough.
  pub read_response_hangs :
      (fuel : ℕ) (s : Link W)
      → 0 < length s.client.leftover
      → length s.client.leftover ≤ 131072
      → has_response (from_utf8_lossy s.client.leftover) ≡ true
      → response_end (from_utf8_lossy s.client.leftover) ≡ none
      → (read_response t fuel s).0 ≡ hang
  unfolding read_response set_leftover
  read_response_hangs fuel s filled small has no_end =
      read_response_loop-hang fuel 0 s.client.leftover
        (record s { client = record (s.client) { leftover = [] } }) filled small has no_end
