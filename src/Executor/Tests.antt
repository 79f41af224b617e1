-- ===== src/Executor/Tests.antt =====
-- Executors on a line.
use qedl_rs.Prelude.{◌*◌, ℕ, ◌≡◌, ◌≢◌, refl, true, false, some, none, [], ◌∷◌, ◌++◌, length, ok}
use qedl_rs.Prelude.Bytes.{Bytes}
use qedl_rs.Prelude.Words.{mul64}
use qedl_rs.Text.{Text, lit}
use qedl_rs.Transport.Port.{Act}
use qedl_rs.Transport.Device.{DeviceInfo, diag, TransportError, Host}
use qedl_rs.Firehose.Client.{FirehoseClient_new}
use qedl_rs.Firehose.Client.Line.{Line, line, line-IsTransport, answer, acks}
use qedl_rs.Job.Context.{JobContext}
use qedl_rs.Executor.{ExecutorConfig, diag_mode, JobExecutor, JobExecutor_new, with_link, with_port}
use qedl_rs.Executor.Connect.{init, connect}
use qedl_rs.Executor.Device.{executor_context, device_read}
use qedl_rs.Executor.Ready.{ReadyHasTransport}
use qedl_rs.Executor.Reach.{created, connecting, Reached-ReadyHasTransport}
use qedl_rs.Executor.Laws.{init-diag_mode, length-executor_context}
use qedl_rs.Firehose.Client.Sectors.{
  bytes_of_logs, read_data, read_sectors, allocate, take_leftover, read_data_loop, completed,
}
use qedl_rs.Firehose.Client.Calls.{send_xml, parsed, execute_command, acknowledged}
use qedl_rs.Firehose.Client.{
  io, set_leftover, finish, tag_end, response_end, has_response, set_timeout, read_quietly,
  read_response_loop, read_response,
}
use qedl_rs.Firehose.Response.{from_xml, from_xml_loop, on_start, is_ack}
use qedl_rs.Text.{find, contains}
use qedl_rs.Text.Utf8.{from_utf8_lossy, lossy_loop}

abbrev config : ExecutorConfig
config = record {
  port = none;
  serial = none;
  loader = none;
  timeout = 30;
  dry_run = false;
  auto_edl_switch = true;
  force_mode = diag_mode;
}

abbrev phone : DeviceInfo
phone = record {
  port = lit "COM3";
  serial = none;
  product = none;
  pid = 0x90B8;
  vid = 0x05C6;
  description = none;
  mode = diag;
}

-- The state of the host is the time in seconds.
abbrev host : Host ℕ
host = record {
  list = λ v. (ok (phone ∷ []), v);
  list_all = λ v. (ok (phone ∷ []), v);
  send = λ port baud packet v. (true, v);
  nanos = λ v. v * 1000000000;
  sleep = λ ms v. v;
}

abbrev open_line : Text → ℕ → ℕ → Act ℕ TransportError Line
open_line port baud timeout v = (ok (record { pending = []; sent = [] }), v)

abbrev fresh : JobExecutor ℕ Line
fresh = JobExecutor_new config 0

init-diag_mode_example : init host open_line line acks 5 fresh ≢ (ok tt, fresh)
init-diag_mode_example = init-diag_mode host open_line line acks 5 fresh fresh refl refl

Reached-ReadyHasTransport_example : ReadyHasTransport (connect host open_line line acks 5 fresh).1
Reached-ReadyHasTransport_example =
    Reached-ReadyHasTransport host open_line line acks 5 config 0
      (connect host open_line line acks 5 fresh).1 (connecting fresh created)

-- An executor on a line with sectors of `size` bytes.
abbrev on_line : ℕ → Bytes → JobExecutor ℕ Line
on_line size pending = record fresh {
  firehose = record FirehoseClient_new { sector_size = size };
  transport = some (record { pending = pending; sent = [] });
}

abbrev context : JobContext (JobExecutor ℕ Line)
context = executor_context line acks 3

abbrev one_sector : JobExecutor ℕ Line
one_sector = on_line 2 (answer ++ (7 ∷ 8 ∷ answer))

abbrev after_one : JobExecutor ℕ Line
after_one = (device_read line acks 3 0 5 1 one_sector).1

sector_is_read : context.read_sectors 0 5 1 one_sector ≡ ok (7 ∷ 8 ∷ [], after_one)
unfolding executor_context device_read with_link with_port read_sectors acknowledged execute_command
    send_xml io read_response set_leftover read_response_loop set_timeout read_quietly response_end
    find from_utf8_lossy lossy_loop tag_end finish parsed from_xml from_xml_loop on_start is_ack
    has_response contains completed read_data allocate take_leftover read_data_loop bytes_of_logs
    mul64
sector_is_read = refl

length-executor_context_example :
    length {A = ℕ} (7 ∷ 8 ∷ []) ≡ mul64 1 (context.sector_size one_sector)
length-executor_context_example =
    length-executor_context line line-IsTransport acks 3 0 5 1 one_sector after_one (7 ∷ 8 ∷ [])
      sector_is_read
