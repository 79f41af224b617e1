-- ===== src/Job/Write/Stream.antt =====
-- qedl-job/src/jobs.rs and reader.rs: what the loop that reads a file as it writes it leaves on the
-- disk, however many bytes each read of the file returns.
use mathlib.Core.Path.{subst}
use qedl_rs.Prelude.{
  ℕ, zero, suc, ◌+◌, ◌-◌, ◌≤◌, ◌<◌, ◌≡◌, refl, ap, ◌∙◌, sym, arith, min, ltb, ◌==◌, ==_iff, Option,
  none, some, Option-cases, [], ◌∷◌, ◌++◌, append-nil, append_assoc, length, take, drop, drop-drop,
  take-add, take_all, drop_all, length-take, length-drop, length-append, Bool-cases, ltb→lt,
  ltb_false→le, if◌then◌else◌, ◌⊎◌, inl, inr, ok, err, hang, ◌>>=◌, >>=-eq-ok, if-eq_of_true,
  if-eq_of_false, ok_inj,
}
use qedl_rs.Prelude.Bytes.{Bytes}
use qedl_rs.Job.Context.{io}
use qedl_rs.Job.Reader.{ChunkedReader, read_chunk}
use qedl_rs.Job.Write.{read_full}

-- `std::io::Read::read`: no more bytes than asked for and than there are, and none only at the end
-- of the file or for an empty buffer.
abbrev pub IsRead : (ℕ → ℕ → Option ℕ) → ℕ → Type 0
IsRead read size =
    (position want n : ℕ)
    → read position want ≡ some n
    → (n ≤ want) × (n ≤ size - position) × (n ≡ 0 → (want ≡ 0) ⊎ (size ≤ position))

abbrev pub unread : ChunkedReader → Bytes
unread r = drop r.position r.content

module _ (read : ℕ → ℕ → Option ℕ) where
  read_chunk_eq :
      (want : ℕ) (r : ChunkedReader) (n : ℕ)
      → read r.position (min want r.chunk_size) ≡ some n
      → read_chunk read want r
        ≡ ok (
          take n (unread r),
          record r { position = r.position + n; bytes_read = r.bytes_read + n },
        )
  unfolding read_chunk
  read_chunk_eq want r n e = rw e refl

  read_chunk_fails :
      (want : ℕ) (r : ChunkedReader)
      → read r.position (min want r.chunk_size) ≡ none
      → read_chunk read want r ≡ err io
  unfolding read_chunk
  read_chunk_fails want r e = rw e refl

  -- What one read hands over is the next bytes.
  read_chunk_lem :
      (want : ℕ) (r : ChunkedReader) {b : Bytes} {r' : ChunkedReader}
      → IsRead read (length r.content)
      → 0 < want
      → 0 < r.chunk_size
      → read_chunk read want r ≡ ok (b, r')
      → (n : ℕ) × (n ≤ want)
        × (b ≡ take n (unread r))
        × (length b ≡ n)
        × (unread r' ≡ drop n (unread r))
        × (r'.content ≡ r.content)
        × (r'.chunk_size ≡ r.chunk_size)
        × (n ≡ 0 → length (unread r) ≡ 0)
  read_chunk_lem want r {b} {r'} good pos pc h =
      elim (Option-cases (read r.position (min want r.chunk_size))) [
        | inl failed ↦ let f = read_chunk_fails want r failed in cc
        | inr (n, e) ↦
            let eq = ok_inj (read_chunk_eq want r n e) h in
            let (small, fits, stuck) = good r.position (min want r.chunk_size) n e in
            let eb = sym (ap (λ z. z.0) eq) in
            (
              n,
              omega arith,
              eb,
              ap length eb
                  ∙ (omega (arith, length-take n (unread r), length-drop r.position r.content)),
              sym (ap (λ z. unread z.1) eq) ∙ drop-drop r.position n r.content,
              sym (ap (λ z. z.1.content) eq),
              sym (ap (λ z. z.1.chunk_size) eq),
              λ z. ground (arith, stuck z, length-drop r.position r.content),
            )
      ]

  -- `b` is `buf` and the next `k` bytes, or what there is of them, and `r'` stands after them.
  abbrev Filled : ℕ → Bytes → ChunkedReader → Bytes → ChunkedReader → Type 0
  Filled k buf r b r' =
      (b ≡ buf ++ take k (unread r))
      × (unread r' ≡ drop k (unread r))
      × (r'.content ≡ r.content)
      × (r'.chunk_size ≡ r.chunk_size)

  take-drop-nothing :
      (k : ℕ) (u : Bytes) → (k ≡ 0) ⊎ (length u ≡ 0) → (take k u ≡ []) × (drop k u ≡ u)
  take-drop-nothing k u (inl e) = (ap (λ z. take z u) e, ap (λ z. drop z u) e)
  take-drop-nothing k [] (inr e) = (take_all k [] (omega arith), drop_all k [] (omega arith))
  take-drop-nothing k (x ∷ u) (inr e) = absurd (omega arith)

  Filled-stop :
      (k : ℕ) (buf : Bytes) (r : ChunkedReader) (b : Bytes) (r' : ChunkedReader)
      → (k ≡ 0) ⊎ (length (unread r) ≡ 0)
      → ◌≡◌ {A = Bytes × ChunkedReader} (buf, r) (b, r')
      → Filled k buf r b r'
  Filled-stop k buf r b r' full eq =
      let (et, ed) = take-drop-nothing k (unread r) full in
      (
        sym (ap (λ z. z.0) eq) ∙ sym (ap (λ z. buf ++ z) et ∙ append-nil buf),
        sym (ap (λ z. unread z.1) eq) ∙ sym ed,
        sym (ap (λ z. z.1.content) eq),
        sym (ap (λ z. z.1.chunk_size) eq),
      )

  Filled-step :
      (n k : ℕ) (buf piece : Bytes) (r r1 : ChunkedReader) (b : Bytes) (r' : ChunkedReader)
      → piece ≡ take n (unread r)
      → unread r1 ≡ drop n (unread r)
      → r1.content ≡ r.content
      → r1.chunk_size ≡ r.chunk_size
      → Filled k (buf ++ piece) r1 b r'
      → Filled (n + k) buf r b r'
  Filled-step n k buf piece r r1 b r' ep eu ec ez (fb, fu, fc, fz) = (
    fb
        ∙ append_assoc buf piece (take k (unread r1))
        ∙ ap (λ z. buf ++ (z ++ take k (unread r1))) ep
        ∙ ap (λ z. buf ++ (take n (unread r) ++ take k z)) eu
        ∙ ap (λ z. buf ++ z) (sym (take-add n k (unread r))),
    fu ∙ ap (λ z. drop k z) eu ∙ sym (drop-drop n k (unread r)),
    fc ∙ ec,
    fz ∙ ez,
  )

  -- One round, followed by any loop `rest` that fills the buffer.
  read_full_round :
      (fuel chunk_bytes : ℕ) (buf : Bytes) (r : ChunkedReader) {b : Bytes} {r' : ChunkedReader}
      → IsRead read (length r.content)
      → 0 < r.chunk_size
      → length buf < chunk_bytes
      → ((buf1 : Bytes) (r1 : ChunkedReader) (b1 : Bytes) (r2 : ChunkedReader)
          → IsRead read (length r1.content)
          → 0 < r1.chunk_size
          → read_full read fuel chunk_bytes buf1 r1 ≡ ok (b1, r2)
          → Filled (chunk_bytes - length buf1) buf1 r1 b1 r2)
      → (read_chunk read (chunk_bytes - length buf) r >>= λ (bytes, r').
          let rest = read_full read fuel chunk_bytes (buf ++ bytes) r' in
          if length bytes == 0 then ok (buf, r') else rest)
        ≡ ok (b, r')
      → Filled (chunk_bytes - length buf) buf r b r'
  read_full_round fuel chunk_bytes buf r {b} {r'} good pc room rest h =
      let (q, hr, h1) = >>=-eq-ok (read_chunk read (chunk_bytes - length buf) r) _ h in
      let (n, small, ep, lp, eu, ec, ez, stuck) =
        read_chunk_lem (chunk_bytes - length buf) r {b = q.0} {r' = q.1} good (omega arith) pc hr in
      elim (Bool-cases (length q.0 == 0)) [
        | inl empty ↦
            let zero_read : n ≡ 0 = omega (arith, lp, (==_iff (length q.0) 0).0 empty) in
            let nothing : q.0 ≡ [] = ep ∙ ap (λ k. take k (unread r)) zero_read in
            let k = chunk_bytes - length buf in
            let f =
              Filled-stop k buf q.1 b r'
                (inr (ap length eu ∙ (omega (arith, stuck zero_read, length-drop n (unread r)))))
                (ok_inj refl (if-eq_of_true (length q.0 == 0) _ _ empty h1)) in
            subst (λ j. Filled j buf r b r') {x = n + k} {y = k} (omega arith)
              (Filled-step n k buf q.0 r q.1 b r' ep eu ec ez (
                subst (λ z. Filled k z q.1 b r') (sym (ap (λ z. buf ++ z) nothing ∙ append-nil buf))
                  f))
        | inr some_read ↦
            let f =
              rest (buf ++ q.0) q.1 b r' (rw ec good) (rw ez pc)
                (if-eq_of_false (length q.0 == 0) _ _ some_read h1) in
            subst (λ k. Filled k buf r b r') {x = n + (chunk_bytes - length (buf ++ q.0))}
              {y = chunk_bytes - length buf} (omega (arith, length-append buf q.0))
              (Filled-step n (chunk_bytes - length (buf ++ q.0)) buf q.0 r q.1 b r' ep eu ec ez f)
      ]

  -- The inner loop fills the buffer with the next bytes, as long as there are some.
  pub read_full-Filled :
      (fuel chunk_bytes : ℕ) (buf : Bytes) (r : ChunkedReader) {b : Bytes} {r' : ChunkedReader}
      → IsRead read (length r.content)
      → 0 < r.chunk_size
      → read_full read fuel chunk_bytes buf r ≡ ok (b, r')
      → Filled (chunk_bytes - length buf) buf r b r'
  unfolding read_full
  read_full-Filled zero chunk_bytes buf r {b} {r'} good pc h =
      elim (Bool-cases (ltb (length buf) chunk_bytes)) [
        | inl more ↦ cc
        | inr done ↦
            Filled-stop (chunk_bytes - length buf) buf r b r'
              (inl (omega (arith, ltb_false→le (length buf) chunk_bytes done)))
              (ok_inj refl
                (if-eq_of_false (ltb (length buf) chunk_bytes) hang (ok (buf, r)) done h))
      ]
  read_full-Filled (suc fuel) chunk_bytes buf r {b} {r'} good pc h =
      elim (Bool-cases (ltb (length buf) chunk_bytes)) [
        | inl more ↦
            read_full_round fuel chunk_bytes buf r good pc (ltb→lt (length buf) chunk_bytes more)
              (λ buf1 r1 b1 r2 good1 pc1 h1. read_full-Filled fuel chunk_bytes buf1 r1 good1 pc1 h1)
              (if-eq_of_true (ltb (length buf) chunk_bytes) _ (ok (buf, r)) more h)
        | inr done ↦
            Filled-stop (chunk_bytes - length buf) buf r b r'
              (inl (omega (arith, ltb_false→le (length buf) chunk_bytes done)))
              (ok_inj refl (if-eq_of_false (ltb (length buf) chunk_bytes) _ (ok (buf, r)) done h))
      ]
