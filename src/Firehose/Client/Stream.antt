-- ===== src/Firehose/Client/Stream.antt =====
-- qedl-firehose/src/client.rs: what the reads of the client take from a transport.
use mathlib.Core.Path.{subst}
use qedl_rs.Prelude.{
  ℕ, zero, suc, ◌≡◌, refl, sym, ap, ◌∙◌, not, ◌&&◌, ◌||◌, [], ◌++◌, append_assoc, ltb, length, take,
  drop, take-append-drop, Outcome, ok, err, panic, hang, inl, inr,
}
use qedl_rs.Prelude.Bytes.{Bytes}
use qedl_rs.Text.{Text}
use qedl_rs.Text.Utf8.{from_utf8_lossy}
use qedl_rs.Transport.Port.{IoError, Transport}
use qedl_rs.Transport.Port.Laws.{
  and_then-eq-ok, ok_pair, err_not_ok, panic_not_ok, hang_not_ok, if_run, match_option_run,
  IsStream,
}
use qedl_rs.Firehose.Client.{
  FirehoseError, FirehoseClient, Link, io, as_firehose, no_bytes, set_leftover, finish,
  response_end, holds_nothing, has_response, set_timeout, read_quietly, read_response_loop,
  read_response, read_buf_size,
}

abbrev pub keep : FirehoseClient → Bytes → FirehoseClient
keep f bytes = record f { leftover = bytes }

-- The bytes that the client will see next: what it kept, then what is to be read.
abbrev pub ahead : {W : Type 0} → (W → Bytes) → Link W → Bytes
ahead pending s = s.client.leftover ++ pending s.port

module _ {W : Type 0} (t : Transport W) (pending : W → Bytes) (stream : IsStream t pending) where
  read_quietly_pending :
      (run : Outcome IoError Bytes × W) (n : ℕ) (s s' : Link W) (bytes : Bytes)
      → t.read n s.port ≡ run
      → ◌≡◌ {A = Outcome FirehoseError Bytes × Link W}
          (as_firehose (no_bytes run.0), record s { port = run.1 })
          (ok bytes, s')
      → (pending s.port ≡ bytes ++ pending s'.port) × (s'.client ≡ s.client)
  read_quietly_pending (ok got, w) n s s' bytes e h =
      let (got_eq, port_eq) = ok_pair h in
      (
        cc (stream.read_ok n s.port got w e, got_eq, ap (λ r. r.port) port_eq),
        sym (ap (λ r. r.client) port_eq),
      )
  read_quietly_pending (err x, w) n s s' bytes e h =
      let (got_eq, port_eq) = ok_pair h in
      let none_read : pending s.port ≡ [] ++ pending w = stream.read_err n s.port x w e in
      (cc (none_read, got_eq, ap (λ r. r.port) port_eq), sym (ap (λ r. r.client) port_eq))
  read_quietly_pending (panic, w) n s s' bytes e h = absurd (panic_not_ok h)
  read_quietly_pending (hang, w) n s s' bytes e h = absurd (hang_not_ok h)

  -- An answer and what is kept make up the buffer.
  abbrev Answered : Bytes → Link W → Text → Link W → Type 0
  Answered response s xml s' =
      (consumed : Bytes) × (response ++ pending s.port ≡ consumed ++ ahead pending s')
      × (xml ≡ from_utf8_lossy consumed)
      × (s'.client ≡ keep s.client s'.client.leftover)

  finish-Answered :
      (response : Bytes) (end : ℕ) (s s' : Link W) (xml : Text)
      → s.client.leftover ≡ []
      → finish response end s ≡ (ok xml, s')
      → Answered response s xml s'
  unfolding finish set_leftover
  finish-Answered response end s s' xml empty h = elim (if_run (ltb end (length response)) _ _ h) [
    | inl (inside, run) ↦
        let (xml_eq, s_eq) = ok_pair run in
        subst (λ z. Answered response s xml z) s_eq
          (
            take end response,
            ap (λ z. z ++ pending s.port) (sym (take-append-drop end response))
                ∙ append_assoc (take end response) (drop end response) (pending s.port),
            sym xml_eq,
            refl,
          )
    | inr (whole, run) ↦
        let (xml_eq, s_eq) = ok_pair run in
        subst (λ z. Answered response s xml z) s_eq
          (response, ap (λ z. response ++ (z ++ pending s.port)) (sym empty), sym xml_eq, refl)
  ]

  -- A read before the rest of the loop.
  Answered-read :
      (response bytes : Bytes) (s s1 s' : Link W) (xml : Text)
      → pending s.port ≡ bytes ++ pending s1.port
      → s1.client ≡ s.client
      → Answered (response ++ bytes) s1 xml s'
      → Answered response s xml s'
  Answered-read response bytes s s1 s' xml read same (consumed, split, text, kept) = (
    consumed,
    ap (λ z. response ++ z) read ∙ sym (append_assoc response bytes (pending s1.port)) ∙ split,
    text,
    kept ∙ ap (λ z. keep z s'.client.leftover) same,
  )

  read_response_loop-Answered :
      (fuel empty_reads : ℕ) (response : Bytes) (s s' : Link W) (xml : Text)
      → s.client.leftover ≡ []
      → read_response_loop t fuel empty_reads response s ≡ (ok xml, s')
      → Answered response s xml s'
  unfolding read_response_loop set_timeout read_quietly io
  read_response_loop-Answered zero empty_reads response s s' xml empty h = absurd (hang_not_ok h)
  read_response_loop-Answered (suc fuel) empty_reads response s s' xml empty h =
      let (bytes, s1, read, next) =
        and_then-eq-ok
          (read_quietly t read_buf_size (record s { port = t.set_timeout 1000 s.port })) _ h in
      let response' = response ++ bytes in
      let waits =
        holds_nothing bytes
        && (holds_nothing response || not (has_response (from_utf8_lossy response))) in
      let (moved, same) =
        read_quietly_pending (t.read read_buf_size (t.set_timeout 1000 s.port)) read_buf_size
          (record s { port = t.set_timeout 1000 s.port }) s1 bytes refl read in
      let empty' : s1.client.leftover ≡ [] = ap (λ z. z.leftover) same ∙ empty in
      let later : (n : ℕ)
          → read_response_loop t fuel n response' s1 ≡ (ok xml, s')
          → Answered response' s1 xml s' =
        λ n run. read_response_loop-Answered fuel n response' s1 s' xml empty' run in
      Answered-read response bytes s s1 s' xml (sym (stream.set_timeout_keeps 1000 s.port) ∙ moved)
        same
        (elim (if_run waits _ _ next) [
          | inl (waiting, run) ↦ elim (if_run (ltb 10 (suc empty_reads)) _ _ run) [
            | inl (many, failed) ↦ absurd (err_not_ok failed)
            | inr (few, rest) ↦ later _ rest
          ]
          | inr (goes_on, run) ↦
              elim (match_option_run (response_end (from_utf8_lossy response')) _ _ run) [
                | inl (open_tag, run') ↦ elim (if_run (ltb 131072 (length response')) _ _ run') [
                  | inl (large, failed) ↦ absurd (err_not_ok failed)
                  | inr (small, rest) ↦ later _ rest
                ]
                | inr (end, closed, run') ↦ finish-Answered response' end s1 s' xml empty' run'
              ]
        ])

  -- An answer that is returned, and what the client then keeps, are in order all the bytes that it
  -- kept before and read since: none is lost or read twice. The answer is the text of its part, and
  -- no other field of the client changes.
  pub read_response_stream :
      (fuel : ℕ) (s s' : Link W) (xml : Text)
      → read_response t fuel s ≡ (ok xml, s')
      → (consumed : Bytes) × (ahead pending s ≡ consumed ++ ahead pending s')
        × (xml ≡ from_utf8_lossy consumed)
        × (s'.client ≡ keep s.client s'.client.leftover)
  unfolding read_response set_leftover
  read_response_stream fuel s s' xml h =
      read_response_loop-Answered fuel 0 s.client.leftover (record s { client = keep s.client [] })
        s' xml refl h
