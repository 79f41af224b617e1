-- ===== src/Firehose/Client/Sectors.antt =====
-- qedl-firehose/src/client.rs: `read_sectors` and `program_sectors`.
use qedl_rs.Prelude.{
  ℕ, zero, suc, ◌-◌, ◌^◌, min, ◌&&◌, not, Option, none, some, List, [], ◌∷◌, ◌++◌, ltb, length,
  take, drop, in_bounds, hang, if◌then◌else◌,
}
use qedl_rs.Prelude.Bytes.{Bytes}
use qedl_rs.Prelude.Words.{mul64}
use qedl_rs.Text.{Text, lit, starts_with, contains}
use qedl_rs.Text.Number.{parse_radix}
use qedl_rs.Text.Split.{split_whitespace}
use qedl_rs.Transport.Port.{Act, ◌>>=◌, ◌>>◌, ret, fail, Transport}
use qedl_rs.Firehose.Command.{read_command, program_command}
use qedl_rs.Firehose.Response.{is_ack, XmlEvent}
use qedl_rs.Firehose.Client.{
  FirehoseError, timeout, nak, Link, io, set_leftover, read_response, holds_nothing,
}
use qedl_rs.Firehose.Client.Calls.{parsed, acknowledged, sectors}

abbrev pub one_byte : Option ℕ → Bytes
one_byte none = []
one_byte (some val) = val ∷ []

-- The byte that a word `0x..` of a log entry writes.
unfoldable pub byte_of_word : Text → Bytes
byte_of_word part =
    if starts_with part (lit "0x") then one_byte (parse_radix 16 256 (drop 2 part)) else []

abbrev pub bytes_of_words : List Text → Bytes
bytes_of_words [] = []
bytes_of_words (part ∷ parts) = byte_of_word part ++ bytes_of_words parts

-- `data_from_logs`
unfoldable pub bytes_of_logs : List Text → Bytes
bytes_of_logs [] = []
bytes_of_logs (log ∷ logs) =
    (if contains log (lit "0x") then bytes_of_words (split_whitespace log) else [])
    ++ bytes_of_logs logs

-- What the last answer left over, as far as `total` bytes have room for it after `got`.
unfoldable pub take_leftover : {W : Type 0} → ℕ → Bytes → Act (Link W) FirehoseError Bytes
take_leftover total got s =
    let n = min (length s.client.leftover) (total - length got) in
    (if ltb (length got) total && not (holds_nothing s.client.leftover)
        then set_leftover (drop n s.client.leftover) >> ret (got ++ take n s.client.leftover)
        else ret got)
      s

-- `vec![0u8; total_bytes]`, which panics above `isize::MAX` bytes.
unfoldable pub allocate : {W : Type 0} → ℕ → Act (Link W) FirehoseError (Unit {0})
allocate total s = (in_bounds (ltb total (2 ^ 63)), s)

module _ {W : Type 0} (t : Transport W) where
  -- `while read < total_bytes`, on fuel: each round reads a byte at least.
  unfoldable pub read_data_loop : ℕ → ℕ → Bytes → Act (Link W) FirehoseError Bytes
  read_data_loop zero total got = if ltb (length got) total then (λ s. (hang, s)) else ret got
  read_data_loop (suc fuel) total got =
      let round =
        (io (t.read (total - length got)) >>= λ bytes.
        let rest = read_data_loop fuel total (got ++ bytes) in
        if holds_nothing bytes then fail (timeout (lit "read")) else rest) in
      if ltb (length got) total then round else ret got

  -- The data of an acknowledged read, from the log entries, the leftover and the transport.
  unfoldable pub read_data : ℕ → List Text → Act (Link W) FirehoseError Bytes
  read_data total logs = do
    allocate total
    got ← take_leftover total (take total (bytes_of_logs logs))
    read_data_loop total total got

  module _ (xml_events : Text → List XmlEvent) (fuel : ℕ) where
    -- The answer that ends a transfer.
    unfoldable pub completed : Text → Act (Link W) FirehoseError (Unit {0})
    completed call = do
      final_resp_xml ← read_response t fuel
      final_resp ← parsed xml_events final_resp_xml
      if is_ack final_resp then ret tt else fail (nak call)

    unfoldable pub read_sectors : ℕ → ℕ → ℕ → Act (Link W) FirehoseError Bytes
    read_sectors physical_partition start_sector num_sectors s =
        (do
          resp ←
              acknowledged t xml_events fuel (lit "read")
                (read_command (sectors physical_partition start_sector num_sectors s))
          bytes ← read_data (mul64 num_sectors s.client.sector_size) resp.logs
          completed (lit "read")
          ret bytes)
          s

    unfoldable pub program_sectors : ℕ → ℕ → ℕ → Bytes → Act (Link W) FirehoseError (Unit {0})
    program_sectors physical_partition start_sector num_sectors bytes s =
        (do
          resp ←
              acknowledged t xml_events fuel (lit "program")
                (program_command (sectors physical_partition start_sector num_sectors s) none)
          io (t.write bytes)
          completed (lit "program"))
          s
