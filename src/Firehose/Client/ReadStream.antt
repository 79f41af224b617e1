-- ===== src/Firehose/Client/ReadStream.antt =====
-- qedl-firehose/src/client.rs: where the data that `read_sectors` returns come from.
use qedl_rs.Prelude.{
  ℕ, zero, suc, ◌-◌, ◌^◌, ◌≤◌, min, ◌≡◌, refl, sym, ap, ◌∙◌, false, not, ◌&&◌, List, [], ◌∷◌, ◌++◌,
  append-nil, append_assoc, arith, ltb, length, length-append, length-take, take, drop,
  take-append-drop, ok, ◌⊎◌, inl, inr, le_or_gt, length-drop, in_bounds,
}
use qedl_rs.Prelude.Bytes.{Bytes}
use qedl_rs.Text.{Text}
use qedl_rs.Transport.Port.{Transport}
use qedl_rs.Transport.Port.Laws.{
  and_then-eq-ok, ok_pair, ok_pair_state, err_not_ok, hang_not_ok, if_run, IsTransport, IsStream,
}
use qedl_rs.Firehose.Client.{Link, io, set_leftover, holds_nothing}
use qedl_rs.Firehose.Client.Stream.{ahead}
use qedl_rs.Firehose.Client.Reads.{io-read, length-read_data}
use qedl_rs.Firehose.Client.Sectors.{
  bytes_of_logs, allocate, take_leftover, read_data_loop, read_data,
}

nil_of_length : (xs : Bytes) → length xs ≡ 0 → xs ≡ []
nil_of_length [] h = refl
nil_of_length (x ∷ xs) h = absurd (omega (arith, h))

-- The test of `take_leftover` fails where there is no room, or nothing to take.
full_or_empty :
    (total : ℕ) (got got' kept kept' : Bytes)
    → (ltb (length got) total && not (holds_nothing kept)) ≡ false
    → length got ≡ length got'
    → kept ≡ kept'
    → (kept' ≡ []) ⊎ (total ≤ length got')
full_or_empty total got got' [] kept' h same kept_eq = inl (sym kept_eq)
full_or_empty total got got' (b ∷ bs) kept' h same kept_eq = inr (ground (arith, h, same))

module _ {W : Type 0} (t : Transport W) (reads : IsTransport t) (pending : W → Bytes)
    (stream : IsStream t pending) where
  read_data_loop_stream :
      (fuel total : ℕ) (got bytes : Bytes) (s s' : Link W)
      → read_data_loop t fuel total got s ≡ (ok bytes, s')
      → (consumed : Bytes) × (pending s.port ≡ consumed ++ pending s'.port)
        × (bytes ≡ got ++ consumed)
        × (s'.client ≡ s.client)
  unfolding read_data_loop io
  read_data_loop_stream zero total got bytes s s' h = elim (if_run (ltb (length got) total) _ _ h) [
    | inl (short, run) ↦ absurd (hang_not_ok run)
    | inr (full, run) ↦
        let (bytes_eq, link_eq) = ok_pair run in
        (
          [],
          ap (λ z. pending z.port) link_eq,
          sym bytes_eq ∙ sym (append-nil got),
          sym (ap (λ z. z.client) link_eq),
        )
  ]
  read_data_loop_stream (suc fuel) total got bytes s s' h =
      elim (if_run (ltb (length got) total) _ _ h) [
        | inl (short, run) ↦
            let n = total - length got in
            let (more, s1, read, next) = and_then-eq-ok (io (t.read n) s) _ run in
            let (read', same) = io-read t reads (t.read n s.port) n s s1 more refl read in
            elim (if_run (holds_nothing more) _ _ next) [
              | inl (nothing, failed) ↦ absurd (err_not_ok failed)
              | inr (something, rest) ↦
                  let (consumed, moved, split, kept) =
                    read_data_loop_stream fuel total (got ++ more) bytes s1 s' rest in
                  (
                    more ++ consumed,
                    stream.read_ok n s.port more s1.port read'
                        ∙ ap (λ z. more ++ z) moved
                        ∙ sym (append_assoc more consumed (pending s'.port)),
                    split ∙ append_assoc got more consumed,
                    kept ∙ same,
                  )
            ]
        | inr (full, run) ↦
            let (bytes_eq, link_eq) = ok_pair run in
            (
              [],
              ap (λ z. pending z.port) link_eq,
              sym bytes_eq ∙ sym (append-nil got),
              sym (ap (λ z. z.client) link_eq),
            )
      ]

  take_leftover_stream :
      (total : ℕ) (got got' : Bytes) (s s' : Link W)
      → take_leftover total got s ≡ (ok got', s')
      → (consumed : Bytes) × (ahead pending s ≡ consumed ++ ahead pending s')
        × (got' ≡ got ++ consumed)
        × (s'.port ≡ s.port)
  unfolding take_leftover set_leftover
  take_leftover_stream total got got' s s' h =
      let kept = s.client.leftover in
      let n = min (length kept) (total - length got) in
      elim (if_run (ltb (length got) total && not (holds_nothing kept)) _ _ h) [
        | inl (room, run) ↦
            let (got_eq, link_eq) = ok_pair run in
            (
              take n kept,
              ap (λ z. z ++ pending s.port) (sym (take-append-drop n kept))
                  ∙ append_assoc (take n kept) (drop n kept) (pending s.port)
                  ∙ ap (λ z. take n kept ++ ahead pending z) link_eq,
              sym got_eq,
              sym (ap (λ z. z.port) link_eq),
            )
        | inr (full, run) ↦
            let (got_eq, link_eq) = ok_pair run in
            (
              [],
              ap (ahead pending) link_eq,
              sym got_eq ∙ sym (append-nil got),
              sym (ap (λ z. z.port) link_eq),
            )
      ]

  -- What is not taken of the leftover is left because the buffer is full.
  take_leftover_full :
      (total : ℕ) (got got' : Bytes) (s s' : Link W)
      → take_leftover total got s ≡ (ok got', s')
      → (s'.client.leftover ≡ []) ⊎ (total ≤ length got')
  unfolding take_leftover set_leftover
  take_leftover_full total got got' s s' h =
      let kept = s.client.leftover in
      let room = total - length got in
      let n = min (length kept) room in
      elim (if_run (ltb (length got) total && not (holds_nothing kept)) _ _ h) [
        | inl (some_room, run) ↦
            let (got_eq, link_eq) = ok_pair run in
            elim (le_or_gt (length kept) room) [
              | inl fits ↦ inl (
                  sym (ap (λ z. z.client.leftover) link_eq)
                  ∙ nil_of_length (drop n kept) (omega (arith, length-drop n kept, fits)))
              | inr over ↦
                  let same : length (got ++ take n kept) ≡ length got' = ap length got_eq in
                  inr
                    (omega (arith, same, length-append got (take n kept), length-take n kept, over))
            ]
        | inr (no_room, run) ↦
            let (got_eq, link_eq) = ok_pair run in
            let same : length got ≡ length got' = ap length got_eq in
            let kept_eq : kept ≡ s'.client.leftover = ap (λ z. z.client.leftover) link_eq in
            full_or_empty total got got' kept s'.client.leftover no_room same kept_eq
      ]

  -- The loop takes nothing where a leftover is kept.
  ahead_after :
      (s s' : Link W) (got bytes consumed : Bytes) (total : ℕ)
      → (s.client.leftover ≡ []) ⊎ (total ≤ length got)
      → length bytes ≡ total
      → bytes ≡ got ++ consumed
      → pending s.port ≡ consumed ++ pending s'.port
      → s'.client ≡ s.client
      → ahead pending s ≡ consumed ++ ahead pending s'
  ahead_after s s' got bytes consumed total (inl empty) filled split moved same =
      let left : s'.client.leftover ≡ [] = ap (λ z. z.leftover) same ∙ empty in
      ap (λ z. z ++ pending s.port) empty
      ∙ moved
      ∙ ap (λ z. consumed ++ (z ++ pending s'.port)) (sym left)
  ahead_after s s' got bytes consumed total (inr full) filled split moved same =
      let lengths : length bytes ≡ length (got ++ consumed) = ap length split in
      let nothing : consumed ≡ [] =
        nil_of_length consumed (omega (arith, lengths, length-append got consumed, filled, full)) in
      ap (λ z. s.client.leftover ++ z) moved
      ∙ ap (λ z. s.client.leftover ++ (z ++ pending s'.port)) nothing
      ∙ ap (λ z. z.leftover ++ pending s'.port) (sym same)
      ∙ ap (λ z. z ++ ahead pending s') (sym nothing)

  -- The data of an acknowledged read are the bytes of the log entries, as far as there is room, and
  -- after them the bytes that the client kept and those that the transport hands out, in order and
  -- each once; what is not taken stays ahead.
  pub read_data_stream :
      (total : ℕ) (logs : List Text) (bytes : Bytes) (s s' : Link W)
      → read_data t total logs s ≡ (ok bytes, s')
      → (consumed : Bytes) × (ahead pending s ≡ consumed ++ ahead pending s')
        × (bytes ≡ take total (bytes_of_logs logs) ++ consumed)
  unfolding read_data allocate
  read_data_stream total logs bytes s s' h =
      let (allocated, s1, small, next) = and_then-eq-ok (allocate total s) _ h in
      let logged = take total (bytes_of_logs logs) in
      let (got, s2, taken, rest) = and_then-eq-ok (take_leftover total logged s1) _ next in
      let (first, kept_split, got_split, port_same) =
        take_leftover_stream total (take total (bytes_of_logs logs)) got s1 s2 taken in
      let (second, moved, split, client_same) =
        read_data_loop_stream total total got bytes s2 s' rest in
      (
        first ++ second,
        ap (ahead pending) (ok_pair_state (in_bounds (ltb total (2 ^ 63))) small)
            ∙ kept_split
            ∙ ap (λ z. first ++ z)
                (ahead_after s2 s' got bytes second total
                  (take_leftover_full total logged got s1 s2 taken)
                  (length-read_data t reads total logs bytes s s' h) split moved client_same)
            ∙ sym (append_assoc first second (ahead pending s')),
        split
            ∙ ap (λ z. z ++ second) got_split
            ∙ append_assoc (take total (bytes_of_logs logs)) first second,
      )
