-- ===== src/CameraWorker/Stale.antt =====
-- A snapshot that app/src/camera_worker.cpp sent before it took a request, and the count of
-- completed tasks in app/src/task_manager.cpp.
use youyeetoo_rk3588_toolkit.Prelude.{
  ◌+◌, ◌≡◌, ap, ◌∙◌, ℤ, true, false, [], ◌∷◌, some, arith, is_nonneg,
}
use youyeetoo_rk3588_toolkit.Prelude.Text.{Text}
use youyeetoo_rk3588_toolkit.Supervisor.{Supervisor, get_parent_fd}
use youyeetoo_rk3588_toolkit.WorkerChannel.{datagram}
use youyeetoo_rk3588_toolkit.Camera.{CameraTaskRequest, CameraControllerSnapshot}
use youyeetoo_rk3588_toolkit.TaskManager.{TaskManager, submit_task, tick as tick_tasks}
use youyeetoo_rk3588_toolkit.CameraWorker.Snapshots.{serialize_snapshot}
use youyeetoo_rk3588_toolkit.CameraWorker.Report.{IsSnapshot}
use youyeetoo_rk3588_toolkit.CameraWorker.Proxy.{
  CameraWorkerProxy, tick, start_task, proxy_manager, is_finished_state,
}
use youyeetoo_rk3588_toolkit.CameraWorker.Refinement.{tick-drain, drain-Shows}

module _ (supervisor : Supervisor) (sent : Text → ℤ) where
  abbrev pub behind :
      CameraWorkerProxy → TaskManager CameraWorkerProxy → TaskManager CameraWorkerProxy
  behind q tm = record tm { camera_manager = some q }

  taken-name :
      (request : CameraTaskRequest) (p : CameraWorkerProxy)
      → (start_task supervisor sent request p).0.worker_name ≡ p.worker_name
  unfolding start_task
  taken-name request p = ground arith

  taken-open :
      (request : CameraTaskRequest) (tm : TaskManager CameraWorkerProxy) (p : CameraWorkerProxy)
      → tm.camera_manager ≡ some p
      → (submit_task (proxy_manager supervisor sent) request tm).1 ≡ true
      → ((submit_task (proxy_manager supervisor sent) request tm).0.completion_recorded ≡ false)
        × ((submit_task (proxy_manager supervisor sent) request tm).0.completed_task_count
            ≡ tm.completed_task_count)
  unfolding submit_task
  taken-open request tm p e h = ground arith

  count :
      (tm : TaskManager CameraWorkerProxy) (q : CameraWorkerProxy)
      → tm.completion_recorded ≡ false
      → q.task_finished ≡ true
      → (tick_tasks (proxy_manager supervisor sent) (behind q tm)).completed_task_count
        ≡ tm.completed_task_count + 1
  unfolding tick_tasks
  count tm q h f = ground arith

  -- If the task manager has taken a request over the proxy, the worker is there, and the next message
  -- is a snapshot of a finished task (whichever task that is, and with numbers in the ranges of their
  -- types), the proxy's tick reads it, and with the proxy behind that tick the task manager's next
  -- tick counts a completed task: a snapshot sent before the request arrived is counted again.
  pub stale_snapshot_counts :
      (request : CameraTaskRequest) (tm : TaskManager CameraWorkerProxy) (p : CameraWorkerProxy)
      (s : CameraControllerSnapshot)
      → tm.camera_manager ≡ some p
      → (submit_task (proxy_manager supervisor sent) request tm).1 ≡ true
      → is_nonneg (get_parent_fd p.worker_name supervisor) ≡ true
      → IsSnapshot s
      → is_finished_state s.task_state ≡ true
      → (q : CameraWorkerProxy) × (tick supervisor
            (datagram (serialize_snapshot s) ∷ [])
            (start_task supervisor sent request p).0
          ≡ some q)
        × ((tick_tasks (proxy_manager supervisor sent) (
              behind q
                (submit_task (proxy_manager supervisor sent) request tm).0)).completed_task_count
            ≡ tm.completed_task_count + 1)
  stale_snapshot_counts request tm p s e h runs valid finished =
      let taken : CameraWorkerProxy = (start_task supervisor sent request p).0 in
      let (p', drains) =
        tick-drain supervisor (datagram (serialize_snapshot s) ∷ []) taken
          (ap (λ n. is_nonneg (get_parent_fd n supervisor)) (taken-name request p) ∙ runs) in
      let (q, ended, shows) = drain-Shows [] s p' tt valid in
      let (open_again, kept) = taken-open request tm p e h in
      (
        q,
        drains ∙ ended,
        count (submit_task (proxy_manager supervisor sent) request tm).0 q open_again
              (shows.finished ∙ finished)
            ∙ ap (λ n. n + 1) kept,
      )
