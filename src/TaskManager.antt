-- ===== src/TaskManager.antt =====
-- app/src/task_manager.cpp: one camera task at a time, over the interface of
-- app/include/camera_interface.h. A message for the caller is returned beside the result; it is
-- what `*error_message` holds afterwards, given that it was empty before.
pub mod Submit
pub mod Count
pub mod Contract
pub mod Tests
use youyeetoo_rk3588_toolkit.Prelude.{
  ℕ, zero, suc, ◌+◌, Bool, true, false, not, ◌&&◌, ◌||◌, List, [], ◌∷◌, ◌++◌, Option, none, some, ℤ,
  if◌then◌else◌,
}
use youyeetoo_rk3588_toolkit.Prelude.Text.{Text, codes, text_eq, is_empty}
use youyeetoo_rk3588_toolkit.Prelude.Dict.{lookup}
use youyeetoo_rk3588_toolkit.Camera.{
  CameraTaskRequest, CameraTaskType, CameraControllerSnapshot, CameraAppOptions, default_request,
  take_photo_download, set_mode, set_param, get_param, get_media_time, get_log, list_devices,
  preview_start, preview_stop, shutdown_maint, start_recording, stop_recording,
  start_extended_capture, stop_extended_capture, list_media, download_media, batch_download,
  delete_media, delete_all_media, initialize, get_status, get_capture_status, get_battery,
  get_storage,
}
use youyeetoo_rk3588_toolkit.Command.{
  ModuleTask, CommandCategory, unknown, system, boot, usb, camera, storage, narrowband, ota_receive,
  downlink, log,
}

-- ICameraManager: CameraWorkerProxy in the service, CameraManager in the worker.
pub record ICameraManager : Type 1 where
  pub State : Type 0
  pub start_task : CameraTaskRequest → State → State × Bool
  pub has_active_task : State → Bool
  pub is_task_finished : State → Bool
  pub snapshot : State → CameraControllerSnapshot

-- `camera_manager` is `none` for a null pointer.
pub record TaskManager (C : Type 0) : Type 0 where
  pub camera_manager : Option C
  pub options : CameraAppOptions
  pub bootstrapped : Bool
  pub completion_recorded : Bool
  pub completed_task_count : ℕ
  pub last_task_summary : Text
  pub last_error : Text

-- The state behind a call, its Boolean result, and the caller's message.
abbrev pub Reply : Type 0 → Type 0
Reply C = TaskManager C × Bool × Text

unfoldable pub configure : {C : Type 0} → CameraAppOptions → TaskManager C → TaskManager C
configure options tm = record tm {
  options = options;
  bootstrapped = false;
  completion_recorded = false;
  completed_task_count = 0;
  last_task_summary = [];
  last_error = [];
}

abbrev refuse : {C : Type 0} → Text → TaskManager C → Reply C
refuse message tm = (record tm { last_error = message }, false, message)

unfoldable pub bootstrap : {C : Type 0} → TaskManager C → Reply C
bootstrap tm = elim tm.camera_manager [
  | none ↦ refuse (codes "task manager has no camera manager") (record tm { bootstrapped = true })
  | some c ↦ (
    record tm {
      bootstrapped = true;
      last_task_summary = codes "service bootstrapped without startup task";
    },
    true,
    [],
  )
]

unfoldable pub set_interface_status : {C : Type 0} → Text → TaskManager C → TaskManager C
set_interface_status status tm = record tm { last_task_summary = status }

-- The names of the camera tasks, in the order of the tests.
unfoldable pub camera_tasks : List (Text × CameraTaskType)
camera_tasks =
    (codes "camera.init", initialize)
    ∷ (codes "camera.get_status", get_status)
    ∷ (codes "camera.get_capture_status", get_capture_status)
    ∷ (codes "camera.get_battery", get_battery)
    ∷ (codes "camera.get_storage", get_storage)
    ∷ (codes "camera.take_photo_download", take_photo_download)
    ∷ (codes "camera.set_mode", set_mode)
    ∷ (codes "camera.set_param", set_param)
    ∷ (codes "camera.get_param", get_param)
    ∷ (codes "camera.get_media_time", get_media_time)
    ∷ (codes "camera.get_log", get_log)
    ∷ (codes "camera.list_devices", list_devices)
    ∷ (codes "camera.preview.start", preview_start)
    ∷ (codes "camera.preview.stop", preview_stop)
    ∷ (codes "camera.shutdown_maint", shutdown_maint)
    ∷ (codes "camera.start_recording", start_recording)
    ∷ (codes "camera.stop_recording", stop_recording)
    ∷ (codes "camera.ext_capture.start", start_extended_capture)
    ∷ (codes "camera.ext_capture.stop", stop_extended_capture)
    ∷ (codes "camera.list_media", list_media)
    ∷ (codes "camera.download_media", download_media)
    ∷ (codes "camera.batch_download", batch_download)
    ∷ (codes "camera.delete_media", delete_media)
    ∷ (codes "camera.delete_all_media", delete_all_media)
    ∷ []

-- The parameter, or the given value where there is none.
abbrev parameter_or : Text → Text → List (Text × Text) → Text
parameter_or key default params = elim (lookup key params) [ none ↦ default | some value ↦ value ]

-- The camera request that a module task stands for, but for its type.
unfoldable pub camera_request : CameraTaskType → ModuleTask → CameraTaskRequest
camera_request type task = record default_request {
  task_type = type;
  repeat_count = task.repeat_count;
  output_dir = task.output_dir;
  remote_path = task.remote_path;
  local_path = task.local_path;
  parameters = task.parameters;
  extended_mode = parameter_or (codes "mode") [] task.parameters;
  batch_time_from = parameter_or (codes "time_from") [] task.parameters;
  batch_time_to = parameter_or (codes "time_to") [] task.parameters;
  target_camera_serial = parameter_or (codes "camera_serial") [] task.parameters;
  delete_confirmed = task.delete_confirmed;
}

abbrev is_camera : CommandCategory → Bool
is_camera camera = true
is_camera _ = false

module _ (cm : ICameraManager) where
  open cm use {State, start_task, has_active_task, is_task_finished, snapshot}

  -- Tick's body for a camera manager that is there.
  pub record_completion : State → TaskManager State → TaskManager State
  record_completion c tm =
      if not tm.completion_recorded && is_task_finished c
      then record tm {
        completion_recorded = true;
        completed_task_count = tm.completed_task_count + 1;
        last_task_summary =
            if is_empty (snapshot c).result_summary
            then codes "task finished without summary"
            else (snapshot c).result_summary;
        last_error =
            if is_empty (snapshot c).error_message
            then tm.last_error
            else (snapshot c).error_message;
      }
      else tm

  unfoldable pub tick : TaskManager State → TaskManager State
  unfolding record_completion
  tick tm = elim tm.camera_manager [ none ↦ tm | some c ↦ record_completion c tm ]

  -- SubmitTask for a camera manager that is there and free.
  start : CameraTaskRequest → State → TaskManager State → Reply State
  start request c tm =
      let (c', started) = start_task request c in
      let asked : TaskManager State = record tm { camera_manager = some c' } in
      if started
      then (
        record asked {
          completion_recorded = false;
          last_error = [];
          last_task_summary = codes "task submitted";
        },
        true,
        [],
      )
      else refuse (codes "camera task submission failed") asked

  unfoldable pub submit_task : CameraTaskRequest → TaskManager State → Reply State
  unfolding start
  submit_task request tm = elim tm.camera_manager [
    | none ↦ refuse (codes "camera manager is null") tm
    | some c ↦
        if has_active_task c
        then refuse (codes "another task is already running") tm
        else start request c tm
  ]

  unfoldable pub submit_module_task : ModuleTask → TaskManager State → Reply State
  unfolding submit_task camera_request
  submit_module_task task tm =
      if is_camera task.category
      then (elim (lookup task.task_name camera_tasks) [
        | none ↦ refuse (codes "unsupported camera module task: " ++ task.task_name) tm
        | some type ↦ submit_task (camera_request type task) tm
      ])
      else refuse (codes "task manager only supports camera module tasks") tm

  -- TaskManager::HasActiveTask
  unfoldable pub task_active : TaskManager State → Bool
  task_active tm = elim tm.camera_manager [ none ↦ false | some c ↦ has_active_task c ]
