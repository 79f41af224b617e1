-- ===== src/Transport/Mock.antt =====
-- qedl-transport/src/mock.rs: the transport of the tests, as an instance of the trait. The delays
-- are left out, and an error kind is an `IoError`.
use qedl_rs.Prelude.{
  ℕ, suc, ◌+◌, ◌≤◌, ◌≡◌, refl, sym, ap, arith, Bool, true, false, Option, none, some, List, [], ◌∷◌,
  ◌++◌, ◌⊎◌, inl, inr, ltb, leb, length, length-take, take, Outcome, ok, err, match_option,
  if◌then◌else◌,
}
use qedl_rs.Prelude.Bytes.{Bytes}
use qedl_rs.Transport.Port.{IoError, connection_reset, Transport}
use qedl_rs.Transport.Port.Laws.{IsTransport, IsLog, ok_pair, err_not_ok, ok_not_err}

pub record MockTransport : Type 0 where
  pub read_queue : List Bytes
  pub write_log : List Bytes
  pub read_error : Option IoError
  pub write_error : Option IoError
  pub error_after_reads : Option ℕ
  pub error_after_writes : Option ℕ
  pub disconnect_after_reads : Option ℕ
  pub disconnect_after_writes : Option ℕ
  pub corrupt_after_reads : Option ℕ
  pub corrupt_byte : ℕ
  pub read_count : ℕ
  pub write_count : ℕ
  pub timeout : ℕ

abbrev pub MockTransport_new : MockTransport
MockTransport_new = record {
  read_queue = [];
  write_log = [];
  read_error = none;
  write_error = none;
  error_after_reads = none;
  error_after_writes = none;
  disconnect_after_reads = none;
  disconnect_after_writes = none;
  corrupt_after_reads = none;
  corrupt_byte = 255;
  read_count = 0;
  write_count = 0;
  timeout = 30000;
}

abbrev pub push_read : Bytes → MockTransport → MockTransport
push_read data' m = record m { read_queue = m.read_queue ++ (data' ∷ []) }

abbrev pub bytes_of_packets : List Bytes → ℕ
bytes_of_packets [] = 0
bytes_of_packets (b ∷ bs) = length b + bytes_of_packets bs

-- `bytes_written`
abbrev pub bytes_written : MockTransport → ℕ
bytes_written m = bytes_of_packets m.write_log

-- `reset`
abbrev pub reset : MockTransport → MockTransport
reset m = record m { read_queue = []; write_log = []; read_count = 0; write_count = 0 }

-- The test on a counter, where a limit is set.
abbrev over : Option ℕ → ℕ → Bool
over none count = false
over (some max) count = ltb max count

-- The error that a call returns, if one is due.
abbrev pub due : Option ℕ → Option IoError → Option ℕ → ℕ → Option IoError
due disconnect kind after count =
    if over disconnect count then some connection_reset else if over after count then kind else none

-- The first byte is overwritten.
corrupt : ℕ → Bytes → Bytes
corrupt c [] = []
corrupt c (b ∷ bs) = c ∷ bs

corrupts : Option ℕ → ℕ → Bool
corrupts none count = false
corrupts (some corrupt_at) count = leb corrupt_at count

-- A piece of the queue, as far as the buffer has room: the rest of it is gone.
unfoldable pub next_piece : ℕ → MockTransport → List Bytes → Outcome IoError Bytes × MockTransport
unfolding corrupt corrupts
next_piece room m [] = (ok [], m)
next_piece room m (piece ∷ queue) =
    let m' = record m { read_queue = queue } in
    if corrupts m.corrupt_after_reads m.read_count
    then (ok (corrupt m.corrupt_byte (take room piece)), m')
    else (ok (take room piece), m')

unfoldable pub mock_read : ℕ → MockTransport → Outcome IoError Bytes × MockTransport
mock_read room m =
    let m' = record m { read_count = suc m.read_count } in
    match_option (due m.disconnect_after_reads m.read_error m.error_after_reads (suc m.read_count))
      (next_piece room m' m.read_queue) (λ e. (err e, m'))

unfoldable pub mock_write : Bytes → MockTransport → Outcome IoError (Unit {0}) × MockTransport
mock_write packet m =
    let m' = record m { write_count = suc m.write_count } in
    match_option
      (due m.disconnect_after_writes m.write_error m.error_after_writes (suc m.write_count))
      (ok tt, record m' { write_log = m.write_log ++ (packet ∷ []) }) (λ e. (err e, m'))

-- `impl Transport for MockTransport`
abbrev pub mock : Transport MockTransport
mock = record {
  read = mock_read;
  write = mock_write;
  flush = λ m. (ok tt, m);
  set_timeout = λ ms m. record m { timeout = ms };
}

length-corrupt : (c : ℕ) (bytes : Bytes) → length (corrupt c bytes) ≡ length bytes
unfolding corrupt
length-corrupt c [] = refl
length-corrupt c (b ∷ bs) = refl

pair_if :
    {A : Type 0} (test : Bool) (x y : A) {z : A} → (if test then x else y) ≡ z → (x ≡ z) ⊎ (y ≡ z)
pair_if true x y same = inl same
pair_if false x y same = inr same

length-next_piece :
    (room : ℕ) (m m' : MockTransport) (queue : List Bytes) (bytes : Bytes)
    → next_piece room m queue ≡ (ok bytes, m')
    → length bytes ≤ room
unfolding next_piece
length-next_piece room m m' [] bytes h =
    let same : 0 ≡ length bytes = ap length (ok_pair h).0 in omega (arith, same)
length-next_piece room m m' (piece ∷ queue) bytes h =
    elim (pair_if (corrupts m.corrupt_after_reads m.read_count) _ _ h) [
      | inl run ↦
          let same : length (corrupt m.corrupt_byte (take room piece)) ≡ length bytes =
            ap length (ok_pair run).0 in
          omega
            (arith, same, length-corrupt m.corrupt_byte (take room piece), length-take room piece)
      | inr run ↦
          let same : length (take room piece) ≡ length bytes = ap length (ok_pair run).0 in
          omega (arith, same, length-take room piece)
    ]

-- The mock never hands out more bytes than the buffer has room for.
pub mock-IsTransport : IsTransport mock
unfolding mock_read
mock-IsTransport room m bytes m' h =
    elim (due m.disconnect_after_reads m.read_error m.error_after_reads (suc m.read_count))
        as (λ o.
          ◌≡◌ {A = Outcome IoError Bytes × MockTransport}
            (match_option o
              (next_piece room (record m { read_count = suc m.read_count }) m.read_queue)
              (λ e. (err e, record m { read_count = suc m.read_count })))
            (ok bytes, m')
          → length bytes ≤ room) [
            | none ↦ λ run. length-next_piece room _ m' m.read_queue bytes run
            | some e ↦ λ run. absurd (err_not_ok run)
          ]
      h

same_log :
    (test : Bool) (x y : Outcome IoError Bytes × MockTransport) {log : List Bytes}
    → x.1.write_log ≡ log
    → y.1.write_log ≡ log
    → (if test then x else y).1.write_log ≡ log
same_log true x y h k = h
same_log false x y h k = k

write_log-next_piece :
    (room : ℕ) (m : MockTransport) (queue : List Bytes)
    → (next_piece room m queue).1.write_log ≡ m.write_log
unfolding next_piece
write_log-next_piece room m [] = refl
write_log-next_piece room m (piece ∷ queue) =
    let m' = record m { read_queue = queue } in
    same_log (corrupts m.corrupt_after_reads m.read_count)
      (ok (corrupt m.corrupt_byte (take room piece)), m') (ok (take room piece), m') refl refl

write_log-mock_read : (room : ℕ) (m : MockTransport) → (mock_read room m).1.write_log ≡ m.write_log
unfolding mock_read
write_log-mock_read room m =
    elim (due m.disconnect_after_reads m.read_error m.error_after_reads (suc m.read_count))
      as (λ o.
        (match_option o (next_piece room (record m { read_count = suc m.read_count }) m.read_queue)
          (λ e. (err e, record m { read_count = suc m.read_count }))).1.write_log
        ≡ m.write_log) [ none ↦ write_log-next_piece room _ m.read_queue | some e ↦ refl ]

write_log-mock_write :
    (packet : Bytes) (m m' : MockTransport)
    → mock_write packet m ≡ (ok tt, m')
    → m'.write_log ≡ m.write_log ++ (packet ∷ [])
unfolding mock_write
write_log-mock_write packet m m' h =
    elim (due m.disconnect_after_writes m.write_error m.error_after_writes (suc m.write_count))
        as (λ o.
          ◌≡◌ {A = Outcome IoError (Unit {0}) × MockTransport}
            (match_option o
              (
                ok tt,
                record m {
                  write_count = suc m.write_count;
                  write_log = m.write_log ++ (packet ∷ []);
                },
              )
              (λ e. (err e, record m { write_count = suc m.write_count })))
            (ok tt, m')
          → m'.write_log ≡ m.write_log ++ (packet ∷ [])) [
            | none ↦ λ run. sym (ap (λ z. z.write_log) (ok_pair run).1)
            | some e ↦ λ run. absurd (err_not_ok run)
          ]
      h

write_log-failed_write :
    (packet : Bytes) (m : MockTransport) (e : IoError) (m' : MockTransport)
    → mock_write packet m ≡ (err e, m')
    → m'.write_log ≡ m.write_log
unfolding mock_write
write_log-failed_write packet m e m' h =
    elim (due m.disconnect_after_writes m.write_error m.error_after_writes (suc m.write_count))
        as (λ o.
          ◌≡◌ {A = Outcome IoError (Unit {0}) × MockTransport}
            (match_option o
              (
                ok tt,
                record m {
                  write_count = suc m.write_count;
                  write_log = m.write_log ++ (packet ∷ []);
                },
              )
              (λ x. (err x, record m { write_count = suc m.write_count })))
            (err e, m')
          → m'.write_log ≡ m.write_log) [
            | none ↦ λ run. absurd (ok_not_err run)
            | some x ↦ λ run. sym (ap (λ z. z.1.write_log) run)
          ]
      h

-- The mock records each packet whose write succeeds, after those before it. A write that fails, a
-- read, a flush and a new time limit leave the record as it was.
pub mock-IsLog : IsLog mock (λ m. m.write_log)
mock-IsLog = record {
  write_ok = write_log-mock_write;
  write_err = write_log-failed_write;
  flush_keeps = λ m. refl;
  read_keeps = write_log-mock_read;
  set_timeout_keeps = λ ms m. refl;
}
