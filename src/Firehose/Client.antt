-- ===== src/Firehose/Client.antt =====
-- qedl-firehose/src/client.rs and error.rs: the state of the client, and how it reads an answer.
pub mod Calls
pub mod Stream
pub mod Sectors
pub mod Reads
pub mod ReadStream
pub mod Ends
pub mod Sent
pub mod PokePeek
pub mod Line
mod Tests
pub mod Memory
use qedl_rs.Prelude.{
  ℕ, zero, suc, ◌+◌, ◌*◌, Bool, true, false, not, ◌&&◌, ◌||◌, Option, none, some, List, [], ◌++◌,
  ltb, ◌==◌, length, take, drop, Outcome, ok, err, panic, hang, match_option, if◌then◌else◌,
}
use qedl_rs.Prelude.Bytes.{Bytes}
use qedl_rs.Text.{Text, lit, find, contains}
use qedl_rs.Text.Utf8.{from_utf8_lossy}
use qedl_rs.Transport.Port.{Act, ◌>>=◌, ◌>>◌, ret, fail, IoError, Transport}

-- The texts of the reasons are left out.
pub data FirehoseError : Type 0 where
  configure_failed invalid_response not_initialized transport_error xml_parse : FirehoseError
  nak timeout : Text → FirehoseError
  firehose_io : IoError → FirehoseError

pub record FirehoseClient : Type 0 where
  pub memory_name : Text
  pub sector_size : ℕ
  pub max_payload_size : ℕ
  pub max_payload_size_from_target : Option ℕ
  pub max_payload_size_to_target_supported : Option ℕ
  pub max_xml_size : Option ℕ
  pub target_name : Text
  pub version : Option Text
  pub total_sectors : ℕ
  pub initialized : Bool
  pub leftover : Bytes

-- `FirehoseClient::new`
abbrev pub FirehoseClient_new : FirehoseClient
FirehoseClient_new = record {
  memory_name = lit "eMMC";
  sector_size = 512;
  max_payload_size = 1024 * 1024;
  max_payload_size_from_target = none;
  max_payload_size_to_target_supported = none;
  max_xml_size = none;
  target_name = lit "unknown";
  version = none;
  total_sectors = 0;
  initialized = false;
  leftover = [];
}

-- `READ_BUF_SIZE`
abbrev pub read_buf_size : ℕ
read_buf_size = 65536

-- A client, and the transport each of its calls is given.
pub record Link (W : Type 0) : Type 0 where
  pub client : FirehoseClient
  pub port : W

abbrev pub as_firehose : {A : Type 0} → Outcome IoError A → Outcome FirehoseError A
as_firehose (ok a) = ok a
as_firehose (err e) = err (firehose_io e)
as_firehose panic = panic
as_firehose hang = hang

module _ {W : Type 0} where
  -- `transport.write(..).await?` and the like
  unfoldable pub io : {A : Type 0} → Act W IoError A → Act (Link W) FirehoseError A
  io act s = let run = act s.port in (as_firehose run.0, record s { port = run.1 })

  unfoldable pub set_leftover : Bytes → Act (Link W) FirehoseError (Unit {0})
  set_leftover bytes s = (ok tt, record s { client = record (s.client) { leftover = bytes } })

-- `Ok(0) | Err(_)` are the same to these reads.
abbrev pub no_bytes : Outcome IoError Bytes → Outcome IoError Bytes
no_bytes (ok bytes) = ok bytes
no_bytes (err e) = ok []
no_bytes panic = panic
no_bytes hang = hang

-- Where the answer that begins at the start of `tail` ends.
unfoldable pub tag_end : Text → Option ℕ
tag_end tail =
    match_option (find tail (lit "/>"))
      (match_option (find tail (lit "</response>")) none (λ i. some (i + 11))) (λ i. some (i + 2))

-- `final_end`, with a `</data>` that follows
unfoldable pub response_end : Text → Option ℕ
response_end text = match_option (find text (lit "<response ")) none (λ start.
    match_option (tag_end (drop start text)) none (λ rel_end.
      let abs_end = start + rel_end in
      match_option (find (drop abs_end text) (lit "</data>")) (some abs_end)
        (λ data_end. some (abs_end + data_end + 7))))

-- The test after a read that gave nothing.
unfoldable pub has_response : Text → Bool
has_response text =
    contains text (lit "<response ")
    && (contains text (lit "/>") || contains text (lit "</response>"))

abbrev pub holds_nothing : Bytes → Bool
holds_nothing bytes = length bytes == 0

-- `split_off` where the answer ends before the buffer does.
unfoldable pub finish : {W : Type 0} → Bytes → ℕ → Act (Link W) FirehoseError Text
finish response final_end =
    if ltb final_end (length response)
    then set_leftover (drop final_end response) >> ret (from_utf8_lossy (take final_end response))
    else ret (from_utf8_lossy response)

module _ {W : Type 0} (t : Transport W) where
  unfoldable pub set_timeout : ℕ → Act (Link W) FirehoseError (Unit {0})
  set_timeout ms s = (ok tt, record s { port = t.set_timeout ms s.port })

  unfoldable pub read_quietly : ℕ → Act (Link W) FirehoseError Bytes
  read_quietly n = io (λ w. let run = t.read n w in (no_bytes run.0, run.1))

  -- The loop of `read_response`; the reads of the device are not bounded, `fuel` bounds them.
  unfoldable pub read_response_loop : ℕ → ℕ → Bytes → Act (Link W) FirehoseError Text
  read_response_loop zero empty_reads response = λ s. (hang, s)
  read_response_loop (suc fuel) empty_reads response = do
    set_timeout 1000
    bytes ← read_quietly read_buf_size
    let waits =
        holds_nothing bytes
        && (holds_nothing response || not (has_response (from_utf8_lossy response)))
    let response' = response ++ bytes
    let rest = read_response_loop fuel (if waits then suc empty_reads else 0) response'
    if waits
        then (if ltb 10 (suc empty_reads) then fail (timeout (lit "read_response")) else rest)
        else match_option (response_end (from_utf8_lossy response'))
            (if ltb 131072 (length response') then fail invalid_response else rest)
            (finish response')

  -- `read_response`: what the last answer left over comes first.
  unfoldable pub read_response : ℕ → Act (Link W) FirehoseError Text
  read_response fuel s = (set_leftover [] >> read_response_loop fuel 0 s.client.leftover) s
