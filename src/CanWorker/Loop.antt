-- ===== src/CanWorker/Loop.antt =====
-- The event loop of CanWorkerChildMain of app/src/can_worker.cpp: its rounds in a row.
use youyeetoo_rk3588_toolkit.Prelude.{
  ℕ, ℤ, Bool, true, false, List, [], ◌∷◌, ◌++◌, Option, none, if◌then◌else◌,
}
use youyeetoo_rk3588_toolkit.Prelude.Text.{Text}
use youyeetoo_rk3588_toolkit.FileSystem.{FileSystem}
use youyeetoo_rk3588_toolkit.Can.{CanFrame}
use youyeetoo_rk3588_toolkit.CanWorker.{
  CanWorker, ReadOutcome, transmit, receive, switch_over, send_telemetry, report_status,
}

pub data PollOutcome : Type 0 where
  ready : PollOutcome
  interrupted : PollOutcome
  poll_failed : PollOutcome

-- What happens during one round: the parent's messages, each with the result of the write that it
-- may cause; the sockets that are readable; the clock; and the results of the later writes. A
-- parent whose channel is not readable has no messages and no error.
pub record Round : Type 0 where
  pub poll : PollOutcome
  pub hangup : Bool
  pub messages : List (Text × Bool)
  pub channel_error : Bool
  pub reads : List (ℤ × ReadOutcome)
  pub now : ℕ
  pub telemetry_write_ok : Bool
  pub status_send_ok : Bool

-- The worker and the files after a round, the frames written with their descriptors, the
-- status sent, and whether the loop goes on.
pub record Outcome : Type 0 where
  pub goes_on : Bool
  pub worker : CanWorker
  pub files : FileSystem
  pub sent : List (ℤ × CanFrame)
  pub status : Option Text

-- The loop over the parent's messages.
unfoldable pub transmit_all : List (Text × Bool) → CanWorker → CanWorker × List (ℤ × CanFrame)
transmit_all [] w = (w, [])
transmit_all ((msg, write_ok) ∷ rest) w =
    let (w', sent) = transmit msg write_ok w in
    let (w'', more) = transmit_all rest w' in (w'', sent ++ more)

-- The loop over the readable sockets.
unfoldable pub receive_all :
    List (ℤ × ReadOutcome) → CanWorker × FileSystem → CanWorker × FileSystem
receive_all [] s = s
receive_all ((fd, outcome) ∷ rest) s = receive_all rest (receive fd outcome s)

-- 5.2 to 5.5
unfoldable pub bus_round : Round → CanWorker → FileSystem → Outcome
unfolding receive_all
bus_round r w fs =
    let (w1, fs1) = receive_all r.reads (w, fs) in
    let (w2, sent) = send_telemetry r.now r.telemetry_write_ok (switch_over w1) in
    let (w3, status) = report_status r.now w2 in
    record {
      goes_on = sends r.status_send_ok status;
      worker = w3;
      files = fs1;
      sent = sent;
      status = status;
    }
  where
    sends : Bool → Option Text → Bool
    sends true status = true
    sends false none = true
    sends false (Option.some text) = false

abbrev stopped : Bool → CanWorker → FileSystem → List (ℤ × CanFrame) → Outcome
stopped goes_on w fs sent = record {
  goes_on = goes_on;
  worker = w;
  files = fs;
  sent = sent;
  status = none;
}

unfoldable pub loop_round : Round → CanWorker → FileSystem → Outcome
unfolding transmit_all bus_round
loop_round r w fs = elim r.poll [
  | poll_failed ↦ stopped false w fs []
  | interrupted ↦ stopped true w fs []
  | ready ↦
      let (w', sent) = transmit_all r.messages w in
      let rest = bus_round r w' fs in
      if r.hangup
      then stopped false w fs []
      else if r.channel_error
      then stopped false w' fs sent
      else record rest { sent = sent ++ rest.sent }
]

-- Rounds until the loop ends: the worker and the files after them, and the frames that were
-- written, with their descriptors.
unfoldable pub rounds :
    List Round → CanWorker → FileSystem → CanWorker × FileSystem × List (ℤ × CanFrame)
unfolding loop_round
rounds [] w fs = (w, fs, [])
rounds (r ∷ rs) w fs =
    let o = loop_round r w fs in
    let (w', fs', more) = rounds rs o.worker o.files in
    if o.goes_on then (w', fs', o.sent ++ more) else (o.worker, o.files, o.sent)
