-- ===== src/CameraWorker/Deliveries.antt =====
-- Tests of the camera worker of app/src/camera_worker.cpp: requests, snapshots, and the proxy.
use youyeetoo_rk3588_toolkit.Prelude.{
  ◌+◌, ◌≡◌, refl, ℤ, pos, negsuc, true, false, [], ◌∷◌, ◌++◌, none, some, length, arith, Option,
}
use youyeetoo_rk3588_toolkit.Prelude.Text.{Text, codes, text_eq}
use youyeetoo_rk3588_toolkit.Prelude.Dict.{lookup}
use youyeetoo_rk3588_toolkit.Supervisor.{Supervisor, get_parent_fd}
use youyeetoo_rk3588_toolkit.WorkerChannel.{WorkerChannel, datagram}
use youyeetoo_rk3588_toolkit.Camera.{
  CameraTaskRequest, CameraControllerSnapshot, default_request, default_snapshot, completed,
  take_photo_download,
}
use youyeetoo_rk3588_toolkit.Command.{ModuleTask, default_task, camera}
use youyeetoo_rk3588_toolkit.TaskManager.{
  TaskManager, submit_module_task, submit_task, camera_tasks, tick as tick_tasks,
}
use youyeetoo_rk3588_toolkit.TaskManager.Tests.{options}
use youyeetoo_rk3588_toolkit.TaskManager.Contract.{IsExclusive, submit_module_task-IsExclusive}
use youyeetoo_rk3588_toolkit.CameraController.Tests.{SimulatedCamera, simulated}
use youyeetoo_rk3588_toolkit.CameraManager.{CameraManager, active_snapshot}
use youyeetoo_rk3588_toolkit.CameraManager.Requests.{tick as tick_manager}
use youyeetoo_rk3588_toolkit.CameraManager.Tests.{two_slots}
use youyeetoo_rk3588_toolkit.CameraWorker.Codes.{task_type_code}
use youyeetoo_rk3588_toolkit.CameraWorker.Fields.{parsed, serialize_request, parse_request}
use youyeetoo_rk3588_toolkit.CameraWorker.Snapshots.{serialize_snapshot, parse_snapshot}
use youyeetoo_rk3588_toolkit.CameraWorker.Delivery.{IsRequest, parse_request-serialize_request}
use youyeetoo_rk3588_toolkit.CameraWorker.Report.{IsSnapshot, parse_snapshot-serialize_snapshot}
use youyeetoo_rk3588_toolkit.CameraWorker.Proxy.{
  CameraWorkerProxy, new_proxy, start_task, tick, proxy_manager, is_finished_state,
}
use youyeetoo_rk3588_toolkit.CameraWorker.Loop.{CameraWorker, Round, round}
use youyeetoo_rk3588_toolkit.CameraWorker.Refinement.{
  Shows, messages, proxy_manager-IsCameraManager, tick-round-Shows,
}
use youyeetoo_rk3588_toolkit.CameraWorker.Stale.{behind, stale_snapshot_counts}

-- A request with a parameter and a path of two lines.
abbrev pub photo : CameraTaskRequest
photo = record default_request {
  task_type = take_photo_download;
  task_id = negsuc 4;
  repeat_count = pos 3;
  local_path = 97 ∷ 10 ∷ b'\\' ∷ [];
  parameters = (codes "mode", codes "a=b") ∷ [];
  delete_confirmed = true;
}

pub photo-IsRequest : IsRequest photo
unfolding lookup codes
photo-IsRequest = record {
  id_range = omega arith;
  count_range = omega arith;
  one_line_keys = (((refl, (refl, (refl, (refl, tt)))), (refl, (refl, (refl, (refl, tt))))), tt);
  distinct_keys = (refl, tt);
  no_empty_key = (refl, tt);
}

parse_request-serialize_request_example : parse_request (serialize_request photo) ≡ parsed photo
parse_request-serialize_request_example = parse_request-serialize_request photo photo-IsRequest

-- The snapshot of a task that is done, with a battery level that is no `int`.
abbrev pub done : CameraControllerSnapshot
done = record default_snapshot {
  task_state = completed;
  completed_iterations = pos 1;
  result_summary = codes "saved";
  runtime_status = record default_snapshot.runtime_status {
    battery = record default_snapshot.runtime_status.battery { battery_level = 4294967295 };
  };
}

pub done-IsSnapshot : IsSnapshot done
done-IsSnapshot = ground arith

parse_snapshot-serialize_snapshot_example :
    parse_snapshot (serialize_snapshot done) ≡ parsed (record done { outputs = [] })
parse_snapshot-serialize_snapshot_example = parse_snapshot-serialize_snapshot done done-IsSnapshot

-- The service with its camera worker on descriptor 5.
abbrev pub worker : Text
worker = codes "camera_worker"

abbrev pub service : Supervisor
service = record {
  workers =
      (
        worker,
        record {
          name = worker;
          pid = pos 100;
          parent_fd = pos 5;
          restart_count = 0;
          pending_restart = false;
          next_restart_at = 0;
        },
      )
      ∷ [];
  order = worker ∷ [];
  fds = 1;
}

-- A socket that takes whole messages.
abbrev takes_all : Text → ℤ
takes_all msg = pos (length msg)

abbrev idle : TaskManager CameraWorkerProxy
idle = record {
  camera_manager = some (new_proxy worker);
  options = options;
  bootstrapped = true;
  completion_recorded = false;
  completed_task_count = 4;
  last_task_summary = [];
  last_error = [];
}

abbrev battery_task : ModuleTask
battery_task = record default_task { category = camera; task_name = codes "camera.get_battery" }

submit_module_task-IsExclusive_example :
    IsExclusive
      (proxy_manager service takes_all)
      (submit_module_task (proxy_manager service takes_all) battery_task idle).0
unfolding submit_module_task start_task camera_tasks lookup text_eq codes serialize_request
    get_parent_fd task_type_code
submit_module_task-IsExclusive_example =
    submit_module_task-IsExclusive (proxy_manager service takes_all)
      (proxy_manager-IsCameraManager service takes_all) battery_task idle refl

-- The worker's snapshot of the task before it counts for the new one.
stale_snapshot_counts_example :
    (q : CameraWorkerProxy) × (tick service
        (datagram (serialize_snapshot done) ∷ [])
        (start_task service takes_all photo (new_proxy worker)).0
      ≡ some q)
    × ((tick_tasks (proxy_manager service takes_all) (
          behind service takes_all q
            (submit_task (proxy_manager service takes_all) photo idle).0)).completed_task_count
        ≡ 4 + 1)
unfolding submit_task start_task get_parent_fd lookup codes text_eq serialize_request task_type_code
    is_finished_state
stale_snapshot_counts_example =
    stale_snapshot_counts service takes_all photo idle (new_proxy worker) done refl refl refl
      done-IsSnapshot refl

abbrev pub channel : WorkerChannel
channel = record { fd = pos 7 }

abbrev camera_worker : CameraWorker SimulatedCamera
camera_worker = record { manager = two_slots; last_snapshot = 1000 }

-- The camera manager behind a tick, and its snapshot as a message.
or_before : Option (CameraManager SimulatedCamera) → CameraManager SimulatedCamera
or_before none = two_slots
or_before (some cm) = cm

abbrev ticked : CameraManager SimulatedCamera
ticked = or_before (tick_manager simulated two_slots)

abbrev report : Text
report = serialize_snapshot (active_snapshot ticked)

abbrev quiet_round : Round SimulatedCamera
quiet_round = record { arrivals = []; now = 1500; sent = pos (length report) }

tick-round-Shows_example :
    (q : CameraWorkerProxy) × (tick service
        (messages (done ∷ []) ++ datagram report ∷ [])
        (new_proxy worker)
      ≡ some q)
    × Shows (active_snapshot ticked) q
unfolding or_before tick_manager round codes get_parent_fd lookup text_eq active_snapshot
    serialize_snapshot
tick-round-Shows_example =
    tick-round-Shows simulated channel quiet_round camera_worker
      (record { manager = ticked; last_snapshot = 1500 }) report (done ∷ []) service
      (new_proxy worker) refl (done-IsSnapshot, tt) (ground arith) refl
