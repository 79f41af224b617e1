-- ===== src/Firehose/Client/Line.antt =====
-- A line that hands out the bytes it holds, with a client on it: data for the tests.
use qedl_rs.Prelude.{
  ◌≡◌, refl, sym, ap, ◌∙◌, arith, some, none, List, [], ◌∷◌, ◌++◌, length, take, drop, length-take,
  take-append-drop, ok, if◌then◌else◌,
}
use qedl_rs.Prelude.Bytes.{Bytes}
use qedl_rs.Text.{Text, lit, text_eq}
use qedl_rs.Transport.Port.{Transport}
use qedl_rs.Transport.Port.Laws.{IsTransport, IsStream, IsLog, ok_pair, ok_not_err}
use qedl_rs.Firehose.Response.{XmlEvent, start_tag}
use qedl_rs.Firehose.Client.{FirehoseClient_new, Link}

pub record Line : Type 0 where
  pub pending : Bytes
  pub sent : List Bytes

abbrev pub line : Transport Line
line = record {
  read = λ n w. (ok (take n w.pending), record w { pending = drop n w.pending });
  write = λ packet w. (ok tt, record w { sent = w.sent ++ (packet ∷ []) });
  flush = λ w. (ok tt, w);
  set_timeout = λ ms w. w;
}

pub line-IsTransport : IsTransport line
line-IsTransport n w bytes w' h =
    let same : length (take n w.pending) ≡ length bytes = ap length (ok_pair h).0 in
    omega (arith, same, length-take n w.pending)

pub line-IsStream : IsStream line (λ w. w.pending)
line-IsStream = record {
  read_ok = λ n w bytes w' h.
      let (bytes_eq, w_eq) = ok_pair h in
      sym (take-append-drop n w.pending)
      ∙ ap (λ z. z ++ drop n w.pending) bytes_eq
      ∙ ap (λ z. bytes ++ z.pending) w_eq;
  read_err = λ n w e w' h. absurd (ok_not_err h);
  set_timeout_keeps = λ ms w. refl;
}

abbrev pub link : Bytes → Bytes → Link Line
link leftover pending = record {
  client = record FirehoseClient_new { leftover = leftover };
  port = record { pending = pending; sent = [] };
}

abbrev pub answer : Text
answer = lit "<response value=\"ACK\" />"

pub line-IsLog : IsLog line (λ w. w.sent)
line-IsLog = record {
  write_ok = λ packet w w' h. sym (ap (λ z. z.sent) (ok_pair h).1);
  write_err = λ packet w e w' h. absurd (ok_not_err h);
  flush_keeps = λ w. refl;
  read_keeps = λ n w. refl;
  set_timeout_keeps = λ ms w. refl;
}

-- Sectors of two bytes.
abbrev pub small_link : Bytes → Link Line
small_link pending = record {
  client = record FirehoseClient_new { sector_size = 2 };
  port = record { pending = pending; sent = [] };
}

-- A reader of XML that sees an acknowledgement.
abbrev pub acks : Text → List XmlEvent
acks xml =
    start_tag (lit "response")
      (λ name. if text_eq name (lit "value") then some (lit "ACK") else none)
    ∷ []
