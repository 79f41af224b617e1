-- ===== src/Sahara/Chunks.antt =====
-- qedl-sahara/src/session.rs and qedl-transport/src/port.rs: what goes over the wire while the
-- loader is uploaded.
use qedl_rs.Prelude.{
  ℕ, zero, suc, ◌+◌, ◌-◌, ◌^◌, ◌≤◌, ◌<◌, ◌≡◌, refl, sym, ap, ◌∙◌, append_assoc, arith, Bool, true,
  false, [], ◌++◌, ltb, leb, ◌==◌, length, take, drop, length-append, ltb→lt, lt→ltb, le→ltb,
  le→leb, le→leb_false, le_or_gt, ltb_false→le, inl, inr, Outcome, ok, err, panic, hang,
  if◌then◌else◌,
}
use qedl_rs.Prelude.Bytes.{Bytes}
use qedl_rs.Prelude.Words.{add64, add64_lem}
use qedl_rs.Transport.Port.{Act, and_then, IoError, Transport, read_exact_loop, read_exact}
use qedl_rs.Transport.Port.Laws.{IsTransport, IsStream}
use qedl_rs.Sahara.Protocol.{transfer_failed}
use qedl_rs.Sahara.Session.{SaharaSession, transferring, set_state, write, send_loader_chunk}

-- A request for bytes of the loader, its end below 2 ^ 64: if the loader has them, exactly those
-- bytes are written, in the transferring state, and if not, nothing is written and the error names
-- the offset.
pub send_loader_chunk_lem :
    {W : Type 0} (t : Transport W) (loader_data : Bytes) (offset n : ℕ) (s : SaharaSession W)
    → offset + n < 2 ^ 64
    → send_loader_chunk t loader_data offset n s ≡ (
        if leb (offset + n) (length loader_data)
        then write t (take n (drop offset loader_data)) (record s { state = transferring })
        else (err (transfer_failed offset), s))
unfolding send_loader_chunk set_state
send_loader_chunk_lem t loader_data offset n s h =
    let e : add64 offset n ≡ offset + n = add64_lem offset n h in
    let size = length loader_data in
    elim (le_or_gt (offset + n) size) [
      | inl fits ↦ rw (le→ltb size (add64 offset n) (omega (arith, e))) (
          rw (le→leb offset (add64 offset n) (omega (arith, e))) (
            rw (le→leb (offset + n) size fits) (
              ap
                (λ z.
                  write t (take z (drop offset loader_data)) (record s { state = transferring }))
                {x = add64 offset n - offset} {y = n} (omega (arith, e)))))
      | inr short ↦
          rw (lt→ltb size (add64 offset n) (omega (arith, e)))
            (rw (le→leb_false (offset + n) size short) refl)
    ]

-- A request whose end wraps around to a number within the loader, below its start, panics.
pub send_loader_chunk_panics :
    {W : Type 0} (t : Transport W) (loader_data : Bytes) (offset n : ℕ) (s : SaharaSession W)
    → add64 offset n ≤ length loader_data
    → add64 offset n < offset
    → send_loader_chunk t loader_data offset n s ≡ (panic, record s { state = transferring })
unfolding send_loader_chunk set_state
send_loader_chunk_panics t loader_data offset n s h k =
    rw (le→ltb (length loader_data) (add64 offset n) h)
      (rw (le→leb_false offset (add64 offset n) k) refl)

-- A result, if any, has `len` bytes, those of `stream` up to where `pending` of the new state goes
-- on; the call neither panics nor hangs.
abbrev pub Filled : {W : Type 0} → (W → Bytes) → Bytes → ℕ → Outcome IoError Bytes × W → Type 0
Filled pending stream len (ok bytes, w) = (length bytes ≡ len) × (stream ≡ bytes ++ pending w)
Filled pending stream len (err e, w) = Unit {0}
Filled pending stream len (panic, w) = ⊥
Filled pending stream len (hang, w) = ⊥

-- The transport itself neither panics nor hangs.
abbrev pub Ends : {W A : Type 0} → Outcome IoError A × W → Type 0
Ends (ok a, w) = Unit {0}
Ends (err e, w) = Unit {0}
Ends (panic, w) = ⊥
Ends (hang, w) = ⊥

module _ {W : Type 0} (t : Transport W) (reads : IsTransport t) (pending : W → Bytes)
    (stream : IsStream t pending) (ends : (n : ℕ) (w : W) → Ends (t.read n w)) where
  Filled-and_then :
      (m : Outcome IoError Bytes × W) (bs : Bytes) (len : ℕ) (f : Bytes → Act W IoError Bytes)
      → Ends m
      → ((bytes : Bytes) (w : W) → m ≡ (ok bytes, w) → Filled pending bs len (f bytes w))
      → Filled pending bs len (and_then m f)
  Filled-and_then (ok a, w) bs len f e h = h a w refl
  Filled-and_then (err x, w) bs len f e h = tt
  Filled-and_then (panic, w) bs len f e h = e
  Filled-and_then (hang, w) bs len f e h = e

  Filled-if :
      (b : Bool) (bs : Bytes) (len : ℕ) (x y : Act W IoError Bytes) (w : W)
      → (b ≡ true → Filled pending bs len (x w))
      → (b ≡ false → Filled pending bs len (y w))
      → Filled pending bs len ((if b then x else y) w)
  Filled-if true bs len x y w h k = h refl
  Filled-if false bs len x y w h k = k refl

  read_exact_loop-Filled :
      (fuel len : ℕ) (got bs : Bytes) (w : W)
      → length got ≤ len
      → len ≤ length got + fuel
      → bs ≡ got ++ pending w
      → Filled pending bs len (read_exact_loop t fuel len got w)
  unfolding read_exact_loop
  read_exact_loop-Filled zero len got bs w h k e =
      Filled-if (ltb (length got) len) bs len _ _ w
        (λ more. absurd (omega (arith, ltb→lt (length got) len more)))
        (λ full. (omega (arith, ltb_false→le (length got) len full), e))
  read_exact_loop-Filled (suc fuel) len got bs w h k e =
      Filled-if (ltb (length got) len) bs len _ _ w
        (λ more.
          Filled-and_then (t.read (len - length got) w) bs len _ (ends (len - length got) w)
            λ bytes w' read.
              Filled-if (length bytes == 0) bs len _ _ w' (λ _. tt)
                (λ some_read.
                  let lb = reads (len - length got) w bytes w' read in
                  read_exact_loop-Filled fuel len (got ++ bytes) bs w'
                    (omega (arith, length-append got bytes))
                    (ground (arith, length-append got bytes))
                    (e
                      ∙ ap (λ z. got ++ z) (stream.read_ok (len - length got) w bytes w' read)
                      ∙ sym (append_assoc got bytes (pending w')))))
        (λ full. (omega (arith, ltb_false→le (length got) len full), e))

  -- `read_exact` ends with an error or with as many bytes as were asked for, which are the next ones
  -- that the transport hands out, in order; those after them are still to come. Each read of the
  -- transport ends, with no more bytes than there is room for, and the reads hand out a stream.
  pub read_exact-Filled : (len : ℕ) (w : W) → Filled pending (pending w) len (read_exact t len w)
  unfolding read_exact
  read_exact-Filled len w =
      read_exact_loop-Filled len len [] (pending w) w (omega arith) (omega arith) refl
