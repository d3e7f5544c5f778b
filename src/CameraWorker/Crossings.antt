-- ===== src/CameraWorker/Crossings.antt =====
-- Tests of the camera worker of app/src/camera_worker.cpp: a request that crosses to the worker, and
-- the answer that comes back.
use youyeetoo_rk3588_toolkit.Prelude.{
  ◌≡◌, refl, true, pos, [], ◌∷◌, ◌++◌, none, some, length, arith, not, ◌&&◌, Option,
}
use youyeetoo_rk3588_toolkit.Prelude.Text.{Text, codes, text_eq}
use youyeetoo_rk3588_toolkit.Prelude.Dict.{lookup}
use youyeetoo_rk3588_toolkit.Supervisor.{get_parent_fd}
use youyeetoo_rk3588_toolkit.WorkerChannel.{readable, datagram}
use youyeetoo_rk3588_toolkit.CameraController.Tests.{SimulatedCamera, simulated}
use youyeetoo_rk3588_toolkit.CameraManager.{CameraManager, active_snapshot, is_active_task_finished}
use youyeetoo_rk3588_toolkit.CameraManager.Requests.{start_task, tick as tick_manager}
use youyeetoo_rk3588_toolkit.CameraManager.Tests.{no_filter, closed_camera, two_slots}
use youyeetoo_rk3588_toolkit.CameraWorker.Deliveries.{
  photo, photo-IsRequest, done, done-IsSnapshot, worker, service, channel,
}
use youyeetoo_rk3588_toolkit.CameraWorker.Fields.{serialize_request}
use youyeetoo_rk3588_toolkit.CameraWorker.Snapshots.{serialize_snapshot}
use youyeetoo_rk3588_toolkit.CameraWorker.Proxy.{CameraWorkerProxy, new_proxy, tick}
use youyeetoo_rk3588_toolkit.CameraWorker.Loop.{Arrival, CameraWorker, Round, round}
use youyeetoo_rk3588_toolkit.CameraWorker.Refinement.{messages}
use youyeetoo_rk3588_toolkit.CameraWorker.Requests.{start_each, round-requests}
use youyeetoo_rk3588_toolkit.CameraWorker.Answers.{
  has_active_session, is_cancelled, tick-round-finished,
}

abbrev waiting : CameraWorker SimulatedCamera
waiting = record { manager = two_slots; last_snapshot = 1000 }

abbrev photo_arrives : Arrival SimulatedCamera
photo_arrives = record {
  poll = readable;
  recv = datagram (serialize_request photo);
  filter = no_filter;
  devices = [];
  adapter = closed_camera;
}

abbrev photo_round : Round SimulatedCamera
photo_round = record { arrivals = photo_arrives ∷ photo_arrives ∷ []; now = 1100; sent = pos 0 }

round-requests_example :
    round simulated channel photo_round waiting
    ≡ round simulated channel
        (record photo_round { arrivals = [] })
        (record waiting {
          manager =
              start_each simulated ((photo_arrives, photo) ∷ (photo_arrives, photo) ∷ []) two_slots;
        })
round-requests_example =
    round-requests simulated channel photo_round waiting
      ((photo_arrives, photo) ∷ (photo_arrives, photo) ∷ []) refl refl
      (
        record { ready = refl; sent_message = refl; valid = photo-IsRequest },
        (record { ready = refl; sent_message = refl; valid = photo-IsRequest }, tt),
      )

-- The camera manager with a task of its default session, and behind a tick.
abbrev tasked : CameraManager SimulatedCamera
tasked = (start_task simulated no_filter [] closed_camera photo two_slots).0

or_before : Option (CameraManager SimulatedCamera) → CameraManager SimulatedCamera
or_before none = tasked
or_before (some cm) = cm

abbrev ticked : CameraManager SimulatedCamera
ticked = or_before (tick_manager simulated tasked)

abbrev report : Text
report = serialize_snapshot (active_snapshot ticked)

abbrev quiet_round : Round SimulatedCamera
quiet_round = record { arrivals = []; now = 1500; sent = pos (length report) }

ticked_has_session : has_active_session ticked ≡ true
unfolding or_before tick_manager codes lookup text_eq start_task has_active_session
ticked_has_session = refl

tick-round-finished_example :
    (q : CameraWorkerProxy) × (tick service
        (messages (done ∷ []) ++ datagram report ∷ [])
        (new_proxy worker)
      ≡ some q)
    × (q.task_finished
        ≡ is_active_task_finished ticked && not (is_cancelled (active_snapshot ticked).task_state))
unfolding or_before tick_manager round codes get_parent_fd lookup text_eq active_snapshot
    serialize_snapshot start_task
tick-round-finished_example =
    tick-round-finished simulated channel quiet_round
      (record { manager = tasked; last_snapshot = 1000 })
      (record { manager = ticked; last_snapshot = 1500 }) report (done ∷ []) service
      (new_proxy worker) refl (done-IsSnapshot, tt) (ground arith) refl ticked_has_session
