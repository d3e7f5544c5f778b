-- ===== src/CameraWorker/Proxy.antt =====
-- CameraWorkerProxy of app/src/camera_worker.cpp: the service's side of the channel to the camera
-- worker, which the task manager uses as its camera manager. The branches for a null supervisor are
-- left out: app/src/main_service.cpp gives each proxy its supervisor.
use youyeetoo_rk3588_toolkit.Prelude.{
  ℕ, ℤ, pos, minus_one, is_nonneg, eq_ℤ, Bool, true, false, ◌&&◌, List, [], ◌∷◌, Option, none, some,
  leb, length, if◌then◌else◌,
}
use youyeetoo_rk3588_toolkit.Prelude.Text.{Text}
use youyeetoo_rk3588_toolkit.Supervisor.{Supervisor, get_parent_fd, restart_count}
use youyeetoo_rk3588_toolkit.WorkerChannel.{
  RecvResult, datagram, end_of_file, would_block, recv_failed, max_message_size,
}
use youyeetoo_rk3588_toolkit.Camera.{
  CameraTaskRequest, CameraTaskState, CameraControllerSnapshot, default_snapshot, no_state, queued,
  completed, failed, timed_out, cancelled,
}
use youyeetoo_rk3588_toolkit.TaskManager.{ICameraManager}
use youyeetoo_rk3588_toolkit.CameraWorker.Fields.{
  Reading, refused, thrown, unnamed, parsed, serialize_request,
}
use youyeetoo_rk3588_toolkit.CameraWorker.Snapshots.{parse_snapshot}

pub record CameraWorkerProxy : Type 0 where
  pub worker_name : Text
  pub cached_snapshot : CameraControllerSnapshot
  pub task_active : Bool
  pub task_finished : Bool
  pub channel_alive : Bool
  pub last_seen_fd : ℤ

abbrev pub new_proxy : Text → CameraWorkerProxy
new_proxy worker_name = record {
  worker_name = worker_name;
  cached_snapshot = default_snapshot;
  task_active = false;
  task_finished = false;
  channel_alive = false;
  last_seen_fd = minus_one;
}

-- The tests of ProcessMessage on the state of the task.
unfoldable pub is_active_state : CameraTaskState → Bool
is_active_state no_state = false
is_active_state completed = false
is_active_state failed = false
is_active_state timed_out = false
is_active_state cancelled = false
is_active_state _ = true

unfoldable pub is_finished_state : CameraTaskState → Bool
is_finished_state completed = true
is_finished_state failed = true
is_finished_state timed_out = true
is_finished_state _ = false

-- ProcessMessage for a snapshot.
unfoldable pub adopt_snapshot : CameraControllerSnapshot → CameraWorkerProxy → CameraWorkerProxy
unfolding is_active_state is_finished_state
adopt_snapshot snap p = record p {
  cached_snapshot = snap;
  task_active = is_active_state snap.task_state;
  task_finished = is_finished_state snap.task_state;
}

-- What ProcessMessage does with what it has parsed; `none`: an exception, or a snapshot that the
-- model does not have.
unfoldable pub adopt :
    Reading CameraControllerSnapshot → CameraWorkerProxy → Option CameraWorkerProxy
unfolding adopt_snapshot
adopt refused p = some p
adopt thrown p = none
adopt unnamed p = none
adopt (parsed snap) p = some (adopt_snapshot snap p)

-- ProcessMessage
unfoldable pub process_message : Text → CameraWorkerProxy → Option CameraWorkerProxy
unfolding parse_snapshot adopt
process_message msg p = adopt (parse_snapshot msg) p

-- The loop of Tick, over what the calls of recv return; behind the end of the list recv would block.
unfoldable pub drain : List RecvResult → CameraWorkerProxy → Option CameraWorkerProxy
unfolding process_message
drain [] p = some p
drain (datagram msg ∷ rest) p = elim (process_message msg p) [ none ↦ none | some q ↦ drain rest q ]
drain (end_of_file ∷ rest) p = some (record p { channel_alive = false })
drain (would_block ∷ rest) p = some p
drain (recv_failed ∷ rest) p = some (record p { channel_alive = false })

-- The proxy of a worker that has been started, or started anew.
abbrev pub reconnected : ℤ → CameraWorkerProxy → CameraWorkerProxy
reconnected fd p = record p {
  last_seen_fd = fd;
  channel_alive = true;
  task_active = false;
  task_finished = false;
  cached_snapshot = default_snapshot;
}

-- Tick
unfoldable pub tick : Supervisor → List RecvResult → CameraWorkerProxy → Option CameraWorkerProxy
unfolding drain
tick supervisor arrivals p =
    let fd = get_parent_fd p.worker_name supervisor in
    if is_nonneg fd
    then drain arrivals (if eq_ℤ fd p.last_seen_fd then p else reconnected fd p)
    else some (record p { channel_alive = false })

-- StartTask; `sent` is what ::send returns for a message.
unfoldable pub start_task :
    Supervisor
    → (sent : Text → ℤ) → CameraTaskRequest
    → CameraWorkerProxy
    → CameraWorkerProxy × Bool
unfolding serialize_request
start_task supervisor sent request p =
    let msg = serialize_request request in
    let marked = record p {
      task_active = true;
      task_finished = false;
      cached_snapshot = record p.cached_snapshot {
        task_type = request.task_type;
        task_state = queued;
        result_summary = [];
        error_message = [];
      };
    } in
    if is_nonneg (get_parent_fd p.worker_name supervisor)
      && (leb (length msg) max_message_size && eq_ℤ (sent msg) (pos (length msg)))
    then (marked, true)
    else (p, false)

-- restart_count
unfoldable pub worker_restarts : Supervisor → CameraWorkerProxy → ℕ
worker_restarts supervisor p = restart_count p.worker_name supervisor

-- The proxy as the camera manager of the task manager, while the supervisor is as given.
abbrev pub proxy_manager : Supervisor → (Text → ℤ) → ICameraManager
proxy_manager supervisor sent = record {
  State = CameraWorkerProxy;
  start_task = start_task supervisor sent;
  has_active_task = λ p. p.task_active;
  is_task_finished = λ p. p.task_finished;
  snapshot = λ p. p.cached_snapshot;
}
