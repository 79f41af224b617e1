-- ===== src/Firehose/Client/Tests.antt =====
-- Calls of the client on a line that hands out the bytes it holds, and on others.
use qedl_rs.Prelude.{
  ℕ, zero, suc, ◌<◌, ◌≡◌, refl, ◌||◌, not, arith, true, none, List, [], ◌∷◌, ◌++◌, take, Settles,
  ok, err, hang,
}
use qedl_rs.Prelude.Bytes.{Bytes}
use qedl_rs.Text.{Text, lit, find, contains}
use qedl_rs.Text.Number.{parse_radix, parse_some, parse_loop, digit_value}
use qedl_rs.Text.Split.{split_whitespace, words_loop, space_width}
use qedl_rs.Text.Utf8.{from_utf8_lossy, lossy_loop}
use qedl_rs.Transport.Port.{Transport, unexpected_eof}
use qedl_rs.Firehose.Response.{from_xml, from_xml_loop, on_start, is_ack}
use qedl_rs.Firehose.Client.{
  timeout, holds_nothing, FirehoseClient_new, Link, io, set_leftover, finish, tag_end, response_end,
  has_response, set_timeout, read_quietly, read_response_loop, read_response,
}
use qedl_rs.Firehose.Client.Line.{
  Line, line, line-IsTransport, line-IsStream, line-IsLog, link, answer, small_link, acks,
}
use qedl_rs.Firehose.Client.Stream.{ahead, keep, read_response_stream}
use qedl_rs.Firehose.Client.ReadStream.{read_data_stream}
use qedl_rs.Firehose.Client.Sectors.{
  bytes_of_logs, read_data, program_sectors, allocate, take_leftover, read_data_loop, completed,
  byte_of_word,
}
use qedl_rs.Firehose.Client.Calls.{sectors, send_xml, parsed, execute_command, acknowledged}
use qedl_rs.Firehose.Client.Sent.{program_sectors_sent}
use qedl_rs.Firehose.Client.Ends.{
  Talks, read_response-Settles, read_response-timeout, read_response_hangs,
}
use qedl_rs.Firehose.Client.PokePeek.{peek_bytes-hex_values}
use qedl_rs.Firehose.Client.Memory.{peek_bytes}
use qedl_rs.Firehose.Command.{hex_values, to_xml, xml_document, program_command}

read_answer :
    read_response line 2 (link [] (answer ++ (1 ∷ 2 ∷ 3 ∷ [])))
    ≡ (ok answer, link (1 ∷ 2 ∷ 3 ∷ []) [])
unfolding read_response read_response_loop set_timeout read_quietly io finish set_leftover
    response_end tag_end has_response find contains from_utf8_lossy lossy_loop
read_answer = refl

read_response_stream_example :
    (consumed : Bytes) × (ahead (λ w. w.pending) (link [] (answer ++ (1 ∷ 2 ∷ 3 ∷ [])))
      ≡ consumed ++ ahead (λ w. w.pending) (link (1 ∷ 2 ∷ 3 ∷ []) []))
    × (answer ≡ from_utf8_lossy consumed)
    × ((link (1 ∷ 2 ∷ 3 ∷ []) []).client
        ≡ keep (link [] (answer ++ (1 ∷ 2 ∷ 3 ∷ []))).client (1 ∷ 2 ∷ 3 ∷ []))
read_response_stream_example =
    read_response_stream line (λ w. w.pending) line-IsStream 2
      (link [] (answer ++ (1 ∷ 2 ∷ 3 ∷ []))) (link (1 ∷ 2 ∷ 3 ∷ []) []) answer read_answer

abbrev hex_log : List Text
hex_log = lit "data 0x2A" ∷ []

abbrev read_link : Link Line
read_link = link (5 ∷ []) (6 ∷ 7 ∷ [])

hex_data : read_data line 3 hex_log read_link ≡ (ok (42 ∷ 5 ∷ 6 ∷ []), link [] (7 ∷ []))
unfolding read_data allocate take_leftover bytes_of_logs contains find split_whitespace words_loop
    space_width byte_of_word parse_radix parse_some parse_loop digit_value set_leftover
    read_data_loop io
hex_data = refl

read_data_stream_example :
    (consumed : Bytes) × (ahead (λ w. w.pending) read_link
      ≡ consumed ++ ahead (λ w. w.pending) (link [] (7 ∷ [])))
    × (42 ∷ 5 ∷ 6 ∷ [] ≡ take 3 (bytes_of_logs hex_log) ++ consumed)
read_data_stream_example =
    read_data_stream line line-IsTransport (λ w. w.pending) line-IsStream 3 hex_log
      (42 ∷ 5 ∷ 6 ∷ []) read_link (link [] (7 ∷ [])) hex_data

abbrev after_program : Link Line
after_program = (program_sectors line acks 3 0 5 1 (9 ∷ 9 ∷ []) (small_link (answer ++ answer))).1

program_one :
    program_sectors line acks 3 0 5 1 (9 ∷ 9 ∷ []) (small_link (answer ++ answer))
    ≡ (ok tt, after_program)
unfolding program_sectors acknowledged execute_command send_xml io read_response set_leftover
    read_response_loop set_timeout read_quietly response_end find from_utf8_lossy lossy_loop tag_end
    finish parsed from_xml from_xml_loop on_start is_ack has_response contains completed
program_one = refl

program_sectors_sent_example :
    after_program.port.sent
    ≡ []
      ++ (xml_document
            (to_xml (program_command (sectors 0 5 1 (small_link (answer ++ answer))) none))
          ∷ (9 ∷ 9 ∷ [])
          ∷ [])
program_sectors_sent_example =
    program_sectors_sent line (λ w. w.sent) line-IsLog acks 3 0 5 1 (9 ∷ 9 ∷ [])
      (small_link (answer ++ answer)) after_program tt program_one

-- A device that sends the same byte for ever, and one that sends nothing.
abbrev chatter : Transport (Unit {0})
chatter = record {
  read = λ n w. (ok (take n (60 ∷ [])), w);
  write = λ packet w. (ok tt, w);
  flush = λ w. (ok tt, w);
  set_timeout = λ ms w. w;
}

abbrev silence : Transport (Unit {0})
silence = record {
  read = λ n w. (err unexpected_eof, w);
  write = λ packet w. (ok tt, w);
  flush = λ w. (ok tt, w);
  set_timeout = λ ms w. w;
}

abbrev kept : Bytes → Link (Unit {0})
kept leftover = record { client = record FirehoseClient_new { leftover = leftover }; port = tt }

chatter-Talks : (n : ℕ) (w : Unit {0}) → 0 < n → Talks (chatter.read n w)
chatter-Talks zero w h = absurd (omega (arith, h))
chatter-Talks (suc n) w h = omega arith

read_response-Settles_example : Settles (read_response chatter 131074 (kept [])).0
read_response-Settles_example =
    read_response-Settles chatter chatter-Talks 131074 (kept []) (omega arith) (omega arith)

no_answer : (holds_nothing (lit "<log") || not (has_response (from_utf8_lossy (lit "<log")))) ≡ true
unfolding has_response contains find from_utf8_lossy lossy_loop
no_answer = refl

read_response-timeout_example :
    (read_response silence 20 (kept (lit "<log"))).0 ≡ err (timeout (lit "read_response"))
read_response-timeout_example =
    read_response-timeout silence (λ n w. tt) 20 (kept (lit "<log")) (omega arith) no_answer

-- The end of a log entry before the start of an answer.
abbrev cut_answer : Bytes
cut_answer = lit "/><response "

cut_has_response : has_response (from_utf8_lossy cut_answer) ≡ true
unfolding has_response contains find from_utf8_lossy lossy_loop
cut_has_response = refl

cut_no_end : response_end (from_utf8_lossy cut_answer) ≡ none
unfolding response_end tag_end find from_utf8_lossy lossy_loop
cut_no_end = refl

read_response_hangs_example : (read_response silence 1000 (kept cut_answer)).0 ≡ hang
read_response_hangs_example =
    read_response_hangs silence (λ n w. tt) 1000 (kept cut_answer) (omega arith) (omega arith)
      cut_has_response cut_no_end

peek_bytes-hex_values_example : peek_bytes (hex_values (0 ∷ 171 ∷ 255 ∷ [])) ≡ 0 ∷ 171 ∷ 255 ∷ []
peek_bytes-hex_values_example =
    peek_bytes-hex_values (0 ∷ 171 ∷ 255 ∷ []) (omega arith, (omega arith, (omega arith, tt)))
