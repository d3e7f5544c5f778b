-- ===== src/TaskManager/Submit.antt =====
-- SubmitTask and SubmitModuleTask of app/src/task_manager.cpp: when a task is taken, and what a
-- refusal leaves behind.
use youyeetoo_rk3588_toolkit.Prelude.{
  ◌≡◌, ◌≢◌, true, false, [], some, arith, Option-cases, inl, inr,
}
use youyeetoo_rk3588_toolkit.Prelude.Text.{codes}
use youyeetoo_rk3588_toolkit.Prelude.Dict.{lookup}
use youyeetoo_rk3588_toolkit.Camera.{CameraTaskType}
use youyeetoo_rk3588_toolkit.Command.{ModuleTask}
use youyeetoo_rk3588_toolkit.TaskManager.{
  ICameraManager, TaskManager, submit_module_task, camera_tasks, camera_request,
}

module _ (cm : ICameraManager) where
  open cm use {State, start_task, has_active_task}

  -- A module task is taken only if it is a camera task of a known name, the camera manager is there
  -- and has no active task, and the manager itself starts the request; the request carries the
  -- task's own fields, and the record of the last completion is reset.
  pub submit_accepted :
      (task : ModuleTask) (tm : TaskManager State)
      → (submit_module_task cm task tm).1 ≡ true
      → (c : State) × (type : CameraTaskType) × (tm.camera_manager ≡ some c)
        × (has_active_task c ≡ false)
        × (lookup task.task_name camera_tasks ≡ some type)
        × ((start_task (camera_request type task) c).1 ≡ true)
        × ((submit_module_task cm task tm).0.camera_manager
            ≡ some (start_task (camera_request type task) c).0)
        × ((submit_module_task cm task tm).0.completion_recorded ≡ false)
  unfolding submit_module_task
  submit_accepted task tm h = elim (Option-cases (lookup task.task_name camera_tasks)) [
    | inl e ↦ absurd (ground arith)
    | inr (type, e) ↦ elim (Option-cases tm.camera_manager) [
      | inl e' ↦ absurd (ground arith)
      | inr (c, e') ↦ (c, type, e', ground arith, e, ground arith, ground arith, ground arith)
    ]
  ]

  -- A refused module task leaves its reason, which is not empty, both with the caller and in
  -- `last_error`; no completion is counted or forgotten, and the last task's summary stays.
  pub submit_refused :
      (task : ModuleTask) (tm : TaskManager State)
      → (submit_module_task cm task tm).1 ≡ false
      → ((submit_module_task cm task tm).2 ≢ [])
        × ((submit_module_task cm task tm).0.last_error ≡ (submit_module_task cm task tm).2)
        × ((submit_module_task cm task tm).0.completed_task_count ≡ tm.completed_task_count)
        × ((submit_module_task cm task tm).0.completion_recorded ≡ tm.completion_recorded)
        × ((submit_module_task cm task tm).0.last_task_summary ≡ tm.last_task_summary)
  unfolding submit_module_task codes
  submit_refused task tm h = ground arith
