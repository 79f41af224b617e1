-- ===== src/Firehose/Client/Memory.antt =====
-- qedl-firehose/src/client.rs: `peek` and `drain_initial_messages`.
use qedl_rs.Prelude.{
  ℕ, zero, suc, Bool, ◌||◌, List, [], ◌∷◌, ◌++◌, drop, Outcome, ok, err, panic, hang, if◌then◌else◌,
}
use qedl_rs.Prelude.Bytes.{Bytes}
use qedl_rs.Text.{Text, lit, starts_with, contains}
use qedl_rs.Text.Number.{parse_radix}
use qedl_rs.Text.Utf8.{from_utf8_lossy}
use qedl_rs.Text.Split.{split_whitespace}
use qedl_rs.Transport.Port.{Act, ◌>>=◌, ◌>>◌, ret, fail, IoError, Transport}
use qedl_rs.Firehose.Command.{peek_command, to_xml, xml_document}
use qedl_rs.Firehose.Client.{
  FirehoseError, nak, firehose_io, Link, read_buf_size, holds_nothing, set_timeout, read_quietly,
}
use qedl_rs.Firehose.Client.Calls.{send_xml}
use qedl_rs.Firehose.Client.Sectors.{one_byte}

unfoldable pub peek_words : List Text → Bytes
peek_words [] = []
peek_words (word ∷ words) =
    (if starts_with word (lit "0x") || starts_with word (lit "0X")
      then one_byte (parse_radix 16 256 (drop 2 word))
      else [])
    ++ peek_words words

-- The bytes that one read of an answer to `peek` writes in hexadecimal.
unfoldable pub peek_bytes : Text → Bytes
peek_bytes text = peek_words (split_whitespace text)

abbrev peek_refused : Text → Bool
peek_refused text =
    contains text (lit "NAK")
    || (contains text (lit "Invalid parameters") || contains text (lit "can't"))

abbrev peek_complete : Text → Bool
peek_complete text = contains text (lit "</data>") || contains text (lit "<response")

-- An error of the transport is harmless after some data: it ends the loop as a read of nothing.
abbrev peek_read : Bytes → Outcome IoError Bytes → Outcome FirehoseError Bytes
peek_read got (ok bytes) = ok bytes
peek_read got (err e) = if holds_nothing got then err (firehose_io e) else ok []
peek_read got panic = panic
peek_read got hang = hang

-- What ends the drain of the messages of a loader that starts.
abbrev drained : Text → Bool
drained text = contains text (lit "<response ") || contains text (lit "</data>")

module _ {W : Type 0} (t : Transport W) where
  -- The loop of `peek`; a read of nothing and an error after some data both end it.
  unfoldable pub peek_loop : ℕ → Bytes → Act (Link W) FirehoseError Bytes
  peek_loop zero got = λ s. (hang, s)
  peek_loop (suc fuel) got =
      (λ s.
        let run = t.read read_buf_size s.port in (peek_read got run.0, record s { port = run.1 }))
      >>= λ bytes.
          let text = from_utf8_lossy bytes in
          let got' = got ++ peek_bytes text in
          let rest = peek_loop fuel got' in
          if holds_nothing bytes
          then ret got
          else if peek_refused text
          then fail (nak (lit "peek"))
          else if peek_complete text
          then ret got'
          else rest

  unfoldable pub peek : ℕ → ℕ → ℕ → Act (Link W) FirehoseError Bytes
  peek fuel address size = do
    send_xml t (xml_document (to_xml (peek_command address size)))
    peek_loop fuel []

  -- The loop after the first message.
  unfoldable pub drain_rest : ℕ → Act (Link W) FirehoseError (Unit {0})
  drain_rest zero = λ s. (hang, s)
  drain_rest (suc fuel) = do
    bytes ← read_quietly t read_buf_size
    let rest = drain_rest fuel
    if holds_nothing bytes || drained (from_utf8_lossy bytes) then ret tt else rest

  -- `for attempt in 0..6`
  unfoldable pub drain_first : ℕ → ℕ → Act (Link W) FirehoseError (Unit {0})
  drain_first fuel zero = ret tt
  drain_first fuel (suc attempts) = do
    bytes ← read_quietly t read_buf_size
    let rest = drain_first fuel attempts
    if holds_nothing bytes
        then rest
        else if drained (from_utf8_lossy bytes)
        then ret tt
        else drain_rest fuel

  unfoldable pub drain_initial_messages : ℕ → Act (Link W) FirehoseError (Unit {0})
  drain_initial_messages fuel = do set_timeout t 500; drain_first fuel 6
