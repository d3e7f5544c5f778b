-- ===== src/CameraController.antt =====
-- app/src/camera_controller.cpp: one camera, its connection and its one task. The camera behind the
-- SDK adapter, the clocks and the directories are the interface `Platform`; time, in milliseconds,
-- passes in the calls of the adapter and between ticks. The pointers to the adapter and to the data
-- store are never null here: app/src/camera_manager.cpp makes both with the controller. This file
-- has the state and its transitions, CameraController.Connection the connection,
-- CameraController.Queries and CameraController.Media the tasks, CameraController.Photo the photo
-- task, and CameraController.Loop the tick.
pub mod Connection
pub mod Names
pub mod Files
pub mod Entries
pub mod Results
pub mod Supplements
pub mod Queries
pub mod Recording
pub mod Selection
pub mod Downloads
pub mod Media
pub mod Photo
pub mod Loop
pub mod Finish
pub mod Lifecycle
pub mod Safety
pub mod Tests
use youyeetoo_rk3588_toolkit.Prelude.{
  ℕ, zero, suc, ◌+◌, Bool, true, false, not, ◌&&◌, ◌||◌, List, [], ◌∷◌, ◌++◌, Option, none, some, ℤ,
  pos, negsuc, is_positive, add_ℤ, if◌then◌else◌, ltb, eq_ℤ,
}
use youyeetoo_rk3588_toolkit.Prelude.Text.{Text, codes, is_empty}
use youyeetoo_rk3588_toolkit.Result.{Result, ok, err}
use youyeetoo_rk3588_toolkit.FileSystem.{FileSystem}
use youyeetoo_rk3588_toolkit.UserDataStore.{default_output_dir}
use youyeetoo_rk3588_toolkit.Camera.{
  CameraTaskRequest, CameraTaskType, CameraTaskState, CameraDeviceState, CameraControllerSnapshot,
  CameraAppOptions, CameraInfo, BatteryInfo, StorageInfo, default_request, no_task, queued,
  completed, failed, timed_out, cancelled, unavailable, connecting, idle, busy, error_recover,
  fatal, no_state, precheck, capturing, configuring, recording, stopping_record, listing,
  downloading, deleting, verifying,
}

pub record CaptureResult : Type 0 where
  pub origin_urls : List Text
  pub low_resolution_urls : List Text

abbrev pub Parameters : Type 0
Parameters = List (Text × Text)

-- The camera behind CameraSdkAdapter, with the clocks and the directories. An operation with an
-- error text gives it as `some` where it fails, or as `err`.
pub record Platform : Type 1 where
  pub Device : Type 0
  -- The steady clock, and the text of the local time.
  pub clock : Device → ℕ
  pub timestamp : Device → Text
  -- The text of the error of a rename that failed.
  pub rename_error : Text → Text → Device → Text
  pub create_directories : Text → Device → Option Text × Device
  pub is_connected : Device → Bool
  pub current_serial_number : Device → Text
  pub current_camera_info : Device → CameraInfo
  pub capture_current_status : Device → Bool
  pub get_camera_media_time : Device → ℤ
  pub get_camera_log_file_url : Device → Text
  pub list_cameras : Device → List CameraInfo × Device
  pub open_camera : Text → ℤ → Device → Bool × Device
  pub get_battery_status : Device → Option BatteryInfo × Device
  pub get_storage_state : Device → Option StorageInfo × Device
  pub set_normal_photo_mode : Device → Bool × Device
  pub set_capture_mode : Text → Device → Option Text × Device
  pub set_capture_parameters : Parameters → Device → Result Text × Device
  pub get_capture_parameters : Parameters → Device → Result (Text × Text)
  pub take_photo : Device → CaptureResult × Device
  pub start_recording : Parameters → Device → Result Text × Device
  pub stop_recording : Device → CaptureResult × Device
  pub start_extended_capture : Text → Device → Option Text × Device
  pub stop_extended_capture : Text → Device → (CaptureResult × Text) × Device
  pub list_media : Device → List Text × Device
  pub get_media_count : Device → Option ℤ × Device
  pub start_preview : Parameters → Device → Result Text × Device
  pub stop_preview : Device → Result Text × Device
  pub shutdown_for_maintenance : Device → Option Text × Device
  -- The remote and the local path, and the timeout; the file is written by the SDK.
  pub download_media : Text → Text → ℤ → Device → FileSystem → Option Text × Device × FileSystem
  pub delete_media : Text → Device → Bool × Device

pub record TaskContext : Type 0 where
  pub request : CameraTaskRequest
  pub pending_remote_urls : List Text
  pub download_index : ℕ
  pub state_since : ℕ
  pub deadline : ℕ

-- TaskContext{}, made at the given time.
abbrev pub new_task : ℕ → TaskContext
new_task now = record {
  request = default_request;
  pending_remote_urls = [];
  download_index = 0;
  state_since = now;
  deadline = now;
}

-- `camera_namespace` is that of the user data store.
pub record CameraController : Type 0 where
  pub options : CameraAppOptions
  pub snapshot : CameraControllerSnapshot
  pub task : TaskContext
  pub has_task : Bool
  pub device_list_supplements : List CameraInfo
  pub next_poll_time : ℕ
  pub next_reconnect_time : ℕ
  pub camera_namespace : Text

-- What the controller works on. `next_id` is the static counter of NextTaskId.
pub record Session (Device : Type 0) : Type 0 where
  pub controller : CameraController
  pub files : FileSystem
  pub device : Device
  pub next_id : ℕ

unfoldable pub is_no_task : CameraTaskType → Bool
is_no_task no_task = true
is_no_task _ = false

abbrev pub is_busy : CameraDeviceState → Bool
is_busy busy = true
is_busy _ = false

-- IsTaskFinished, of the state of the task.
unfoldable pub is_final : CameraTaskState → Bool
is_final completed = true
is_final failed = true
is_final timed_out = true
is_final cancelled = true
is_final _ = false

unfoldable pub is_task_finished : CameraController → Bool
unfolding is_final
is_task_finished c = is_final c.snapshot.task_state

unfoldable pub set_device_list_supplements : List CameraInfo → CameraController → CameraController
set_device_list_supplements cameras c = record c { device_list_supplements = cameras }

unfoldable pub set_device_state : CameraDeviceState → CameraController → CameraController
set_device_state state c = record c { snapshot = record c.snapshot { device_state = state } }

-- ResetTask, at the time `now`.
unfoldable pub reset_task : ℕ → CameraController → CameraController
reset_task now c = record c {
  has_task = false;
  task = new_task now;
  snapshot = record c.snapshot {
    task_type = no_task;
    device_state = if is_busy c.snapshot.device_state then idle else c.snapshot.device_state;
  };
}

-- SetTaskState, at the time `now`.
unfoldable pub set_task_state : ℕ → CameraTaskState → CameraController → CameraController
set_task_state now state c = record c {
  snapshot = record c.snapshot { task_state = state };
  task = record c.task { state_since = now; deadline = add_ℤ now c.options.timeout_ms };
}

-- FailTask, at the time `now`, with a camera that is connected or not.
unfoldable pub fail_task :
    (connected : Bool) (now : ℕ) → CameraTaskState → Text → CameraController → CameraController
unfolding reset_task
fail_task connected now state error_message c = reset_task now (record c {
  snapshot = record c.snapshot {
    error_message = error_message;
    result_summary = [];
    task_state = state;
    device_state = if connected then idle else error_recover;
  };
  next_reconnect_time =
      if connected then c.next_reconnect_time else add_ℤ now c.options.poll_interval_ms;
})

unfoldable pub complete_task : ℕ → Text → CameraController → CameraController
unfolding reset_task
complete_task now summary c = reset_task now (record c {
  snapshot = record c.snapshot {
    result_summary = summary;
    error_message = [];
    task_state = completed;
    device_state = idle;
  };
})

-- The request as the task keeps it.
unfoldable pub adopt_request :
    ℕ → FileSystem → CameraController → CameraTaskRequest → CameraTaskRequest
unfolding default_output_dir
adopt_request id files c request = record request {
  task_id = if eq_ℤ request.task_id (pos 0) then pos id else request.task_id;
  repeat_count = if is_positive request.repeat_count then request.repeat_count else pos 1;
  output_dir =
      if is_empty request.output_dir
      then default_output_dir c.camera_namespace files
      else request.output_dir;
}

module _ (p : Platform) where
  open p use {Device, clock, is_connected}

  unfoldable pub configure : CameraAppOptions → Session Device → Session Device
  configure options s = record s {
    controller = record s.controller {
      options = options;
      next_poll_time = clock s.device;
      next_reconnect_time = clock s.device;
    };
  }

  -- StartTask
  unfoldable pub start_task : CameraTaskRequest → Session Device → Session Device × Bool
  unfolding adopt_request is_no_task
  start_task request s =
      let c = s.controller in
      let fresh_id = eq_ℤ request.task_id (pos 0) in
      let adopted = adopt_request s.next_id s.files c request in
      let now = clock s.device in
      if c.has_task || is_no_task request.task_type then (s, false) else (
        record s {
          next_id = if fresh_id then s.next_id + 1 else s.next_id;
          controller = record c {
            has_task = true;
            task = record (new_task now) {
              request = adopted;
              deadline = add_ℤ now c.options.timeout_ms;
            };
            snapshot = record c.snapshot {
              task_type = request.task_type;
              task_state = queued;
              completed_iterations = pos 0;
              total_iterations = adopted.repeat_count;
              outputs = [];
              result_summary = [];
              error_message = [];
            };
          };
        },
        true,
      )

  -- CancelTask
  unfoldable pub cancel_task : Text → Session Device → Session Device
  unfolding reset_task
  cancel_task reason s =
      let c = s.controller in
      if c.has_task
      then record s {
        controller = reset_task (clock s.device) (record c {
          snapshot = record c.snapshot { error_message = reason; task_state = cancelled };
        });
      }
      else s

  -- The calls that the tasks make of FailTask with `Failed`, of CompleteTask, and of SetDeviceState
  -- and SetTaskState at their beginning.
  unfoldable pub fail : Text → Session Device → Session Device
  unfolding fail_task
  fail error_message s = record s {
    controller =
        fail_task (is_connected s.device) (clock s.device) failed error_message s.controller;
  }

  unfoldable pub complete : Text → Session Device → Session Device
  unfolding complete_task
  complete summary s = record s { controller = complete_task (clock s.device) summary s.controller }

  unfoldable pub enter : CameraTaskState → Session Device → Session Device
  unfolding set_task_state set_device_state
  enter state s = record s {
    controller = set_task_state (clock s.device) state (set_device_state busy s.controller);
  }

  -- The check that begins most tasks.
  unfoldable pub when_connected :
      (Session Device → Session Device) → Session Device → Session Device
  when_connected body s =
      if is_connected s.device then body s else fail (codes "camera is not connected") s

  -- A call that failed ends the task with its error.
  unfoldable pub unless_failed : Option Text → Session Device → Session Device → Session Device
  unless_failed none s next = next
  unless_failed (some message) s next = fail message s
