-- ===== src/CameraWorker/Loop.antt =====
-- CameraWorkerChildMain of app/src/camera_worker.cpp: the loop of the worker process around the
-- camera manager. The log lines are left out.
use youyeetoo_rk3588_toolkit.Prelude.{
  ℕ, ◌+◌, ℤ, List, [], ◌∷◌, Option, none, some, leb, if◌then◌else◌,
}
use youyeetoo_rk3588_toolkit.Prelude.Text.{Text}
use youyeetoo_rk3588_toolkit.WorkerChannel.{
  WorkerChannel, PollResult, RecvResult, message, no_message, broken, try_recv, send,
}
use youyeetoo_rk3588_toolkit.Camera.{CameraTaskRequest}
use youyeetoo_rk3588_toolkit.CameraPortResolver.{UsbFilter, UsbDevice}
use youyeetoo_rk3588_toolkit.CameraController.{Platform}
use youyeetoo_rk3588_toolkit.CameraManager.{CameraManager, active_snapshot}
use youyeetoo_rk3588_toolkit.CameraManager.Requests.{start_task, tick}
use youyeetoo_rk3588_toolkit.CameraWorker.Fields.{
  Reading, refused, thrown, unnamed, parsed, parse_request,
}
use youyeetoo_rk3588_toolkit.CameraWorker.Snapshots.{serialize_snapshot}

-- One call of TryRecv, with the devices of USB that are listed and the adapter that would be made
-- if the message is a request.
pub record Arrival (Device : Type 0) : Type 0 where
  pub poll : PollResult
  pub recv : RecvResult
  pub filter : UsbFilter
  pub devices : List UsbDevice
  pub adapter : Device

-- What happens during one round: `now` is the clock behind the tick, `sent` what ::send returns.
pub record Round (Device : Type 0) : Type 0 where
  pub arrivals : List (Arrival Device)
  pub now : ℕ
  pub sent : ℤ

pub record CameraWorker (Device : Type 0) : Type 0 where
  pub manager : CameraManager Device
  pub last_snapshot : ℕ

-- How the loop over the messages ends: the channel has no more, it is broken, or an exception (or a
-- request that the model does not have) ends the process.
pub data Reception (Device : Type 0) : Type 0 where
  drained : CameraManager Device → Reception Device
  channel_broken : Reception Device
  aborted : Reception Device

-- How a round ends: the loop goes on, with the snapshot that was sent; or the process ends.
pub data RoundEnd (Device : Type 0) : Type 0 where
  goes_on : CameraWorker Device → Option Text → RoundEnd Device
  exits : RoundEnd Device
  crashes : RoundEnd Device

-- kSnapshotInterval, in milliseconds.
abbrev pub snapshot_interval : ℕ
snapshot_interval = 500

module _ (p : Platform) where
  open p use {Device}

  -- The body of the loop over the messages.
  unfoldable pub take_request :
      Arrival Device
      → Reading CameraTaskRequest
      → CameraManager Device
      → Option (CameraManager Device)
  unfolding start_task
  take_request a refused cm = some cm
  take_request a thrown cm = none
  take_request a unnamed cm = none
  take_request a (parsed request) cm = some (start_task p a.filter a.devices a.adapter request cm).0

  -- The loop over the messages; behind the end of the list there are no more.
  unfoldable pub receive :
      WorkerChannel → List (Arrival Device) → CameraManager Device → Reception Device
  unfolding try_recv take_request parse_request
  receive ch [] cm = drained cm
  receive ch (a ∷ rest) cm = elim (try_recv a.poll a.recv ch) [
    | no_message ↦ drained cm
    | broken ↦ channel_broken
    | message msg ↦ elim (take_request a (parse_request msg) cm) [
      | none ↦ aborted
      | some cm' ↦ receive ch rest cm'
    ]
  ]

  -- The periodic snapshot, behind the tick.
  unfoldable pub report : WorkerChannel → Round Device → CameraManager Device → ℕ → RoundEnd Device
  unfolding serialize_snapshot send active_snapshot
  report ch r cm last =
      let msg = serialize_snapshot (active_snapshot cm) in
      if leb (last + snapshot_interval) r.now
      then (if send r.sent msg ch
          then goes_on (record { manager = cm; last_snapshot = r.now }) (some msg)
          else exits)
      else goes_on (record { manager = cm; last_snapshot = last }) none

  -- The round behind the tick, and behind the messages.
  unfoldable pub after_tick :
      WorkerChannel → Round Device → ℕ → Option (CameraManager Device) → RoundEnd Device
  unfolding report
  after_tick ch r last none = crashes
  after_tick ch r last (some cm) = report ch r cm last

  unfoldable pub after_messages :
      WorkerChannel → Round Device → ℕ → Reception Device → RoundEnd Device
  unfolding tick after_tick
  after_messages ch r last channel_broken = exits
  after_messages ch r last aborted = crashes
  after_messages ch r last (drained cm) = after_tick ch r last (tick p cm)

  -- One round of the loop.
  unfoldable pub round : WorkerChannel → Round Device → CameraWorker Device → RoundEnd Device
  unfolding receive after_messages
  round ch r w = after_messages ch r w.last_snapshot (receive ch r.arrivals w.manager)
