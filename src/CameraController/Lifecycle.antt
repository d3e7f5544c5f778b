-- ===== src/CameraController/Lifecycle.antt =====
-- StartTask and CancelTask of app/src/camera_controller.cpp: which tasks are accepted, and what
-- becomes of an accepted one.
use youyeetoo_rk3588_toolkit.Prelude.{
  arith, ◌≡◌, ◌⊎◌, true, false, not, ◌&&◌, some, pos, is_positive,
}
use youyeetoo_rk3588_toolkit.Prelude.Text.{Text}
use youyeetoo_rk3588_toolkit.Camera.{CameraTaskRequest, queued}
use youyeetoo_rk3588_toolkit.CameraController.{
  Platform, CameraController, Session, start_task, cancel_task, is_no_task, adopt_request,
  reset_task, is_task_finished, is_final,
}
use youyeetoo_rk3588_toolkit.CameraController.Loop.{tick, is_photo}
use youyeetoo_rk3588_toolkit.CameraController.Finish.{IsFinished}
use youyeetoo_rk3588_toolkit.CameraController.Finish.Ticks.{tick-IsFinished}

-- A task is there exactly if the snapshot names the type of one.
unfoldable pub IsConsistent : CameraController → Type 0
IsConsistent c = is_no_task c.snapshot.task_type ≡ not c.has_task

-- A task that waits for the next tick.
unfoldable pub IsQueued : CameraTaskRequest → CameraController → Type 0
IsQueued request c =
    (c.has_task ≡ true)
    × (c.snapshot.task_state ≡ queued)
    × (c.task.request.task_type ≡ request.task_type)
    × (is_positive c.task.request.repeat_count ≡ true)
    × (c.snapshot.total_iterations ≡ c.task.request.repeat_count)
    × (c.snapshot.completed_iterations ≡ pos 0)

module _ (p : Platform) where
  open p use {Device}

  -- A request is accepted exactly if it names a task and there is none yet; then it waits for the
  -- next tick with a positive number of repetitions. Otherwise nothing changes.
  pub start_task-IsQueued :
      (request : CameraTaskRequest) (s : Session Device)
      → (let (s', accepted) = start_task p request s in
          (accepted ≡ (not s.controller.has_task && not (is_no_task request.task_type)))
          × ((accepted ≡ true) × IsQueued request s'.controller ⊎ (accepted ≡ false) × (s' ≡ s)))
  unfolding start_task IsQueued adopt_request
  start_task-IsQueued request s = ground arith

  pub start_task-IsConsistent :
      (request : CameraTaskRequest) (s : Session Device)
      → IsConsistent s.controller
      → IsConsistent (start_task p request s).0.controller
  unfolding IsConsistent start_task
  start_task-IsConsistent request s h = ground arith

  pub cancel_task-IsFinished :
      (reason : Text) (s : Session Device)
      → s.controller.has_task ≡ true
      → IsFinished (cancel_task p reason s)
  unfolding IsFinished cancel_task reset_task is_task_finished is_final is_no_task
  cancel_task-IsFinished reason s h = ground arith

  -- A task that is accepted is over behind the next tick, unless it is a photo task.
  pub start_task-tick :
      (request : CameraTaskRequest) (s : Session Device)
      → s.controller.has_task ≡ false
      → is_no_task request.task_type ≡ false
      → is_photo request.task_type ≡ false
      → (s' : Session Device) × (tick p (start_task p request s).0 ≡ some s') × IsFinished s'
  unfolding start_task adopt_request
  start_task-tick request s h k l =
      tick-IsFinished p (start_task p request s).0 (ground arith) (ground arith) (ground arith)
