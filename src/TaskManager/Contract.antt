-- ===== src/TaskManager/Contract.antt =====
-- What app/src/task_manager.cpp asks of a camera manager, and what it then gives its callers.
use youyeetoo_rk3588_toolkit.Prelude.{◌≡◌, true, false, some, arith}
use youyeetoo_rk3588_toolkit.Prelude.Text.{codes}
use youyeetoo_rk3588_toolkit.Camera.{CameraTaskRequest}
use youyeetoo_rk3588_toolkit.Command.{ModuleTask}
use youyeetoo_rk3588_toolkit.TaskManager.{
  ICameraManager, TaskManager, submit_task, submit_module_task, tick, record_completion,
  camera_request,
}
use youyeetoo_rk3588_toolkit.TaskManager.Submit.{submit_accepted}

-- A camera manager that takes a request has an active task, which is not finished.
pub record IsCameraManager (cm : ICameraManager) : Type 0 where
  pub taken_is_active :
      (request : CameraTaskRequest) (c : cm.State)
      → (cm.start_task request c).1 ≡ true
      → cm.has_active_task (cm.start_task request c).0 ≡ true
  pub taken_is_unfinished :
      (request : CameraTaskRequest) (c : cm.State)
      → (cm.start_task request c).1 ≡ true
      → cm.is_task_finished (cm.start_task request c).0 ≡ false

module _ (cm : ICameraManager) where
  open cm use {State, start_task, has_active_task, is_task_finished}

  -- The task manager holds a camera manager whose task is running.
  abbrev pub IsBusy : TaskManager State → Type 0
  IsBusy tm =
      (c : State) × (tm.camera_manager ≡ some c)
      × (has_active_task c ≡ true)
      × (is_task_finished c ≡ false)

  -- While a task is running, ticks change nothing and every request is refused with this message.
  abbrev pub IsExclusive : TaskManager State → Type 0
  IsExclusive tm =
      (tick cm tm ≡ tm)
      × ((request : CameraTaskRequest) → (submit_task cm request tm).1 ≡ false)
      × ((request : CameraTaskRequest)
          → (submit_task cm request tm).2 ≡ codes "another task is already running")

  pub IsBusy-IsExclusive : (tm : TaskManager State) → IsBusy tm → IsExclusive tm
  unfolding tick submit_task record_completion
  IsBusy-IsExclusive tm (c, e, active, unfinished) =
      (ground arith, λ request. ground arith, λ request. ground arith)

  -- With a camera manager that reports an unfinished active task once it has started one, a module
  -- task that is taken leaves the task manager so that a tick counts nothing and changes nothing, and
  -- every further request is refused because another task is running.
  pub submit_module_task-IsExclusive :
      IsCameraManager cm
      → (task : ModuleTask) (tm : TaskManager State) → (submit_module_task cm task tm).1 ≡ true
      → IsExclusive (submit_module_task cm task tm).0
  submit_module_task-IsExclusive law task tm h =
      let (c, type, there, idle, known, started, taken, reset) = submit_accepted cm task tm h in
      let request : CameraTaskRequest = camera_request type task in
      IsBusy-IsExclusive (submit_module_task cm task tm).0 (
        (start_task request c).0,
        taken,
        law.taken_is_active request c started,
        law.taken_is_unfinished request c started,
      )
