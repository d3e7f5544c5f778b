-- ===== src/Camera.antt =====
-- The data of the camera subsystem: app/include/camera_controller.h and the status records of
-- app/include/camera_app.h.
use youyeetoo_rk3588_toolkit.Prelude.{ℕ, List, [], Bool, false, ℤ, pos, minus_one}
use youyeetoo_rk3588_toolkit.Prelude.Text.{Text}

pub data CameraDeviceState : Type 0 where
  unavailable connecting idle busy error_recover fatal : CameraDeviceState

pub data CameraTaskType : Type 0 where
  no_task auto_photo_sequence take_photo_download set_mode set_param get_param : CameraTaskType
  get_media_time get_log list_devices preview_start preview_stop : CameraTaskType
  shutdown_maint start_recording stop_recording start_extended_capture : CameraTaskType
  stop_extended_capture list_media download_media batch_download delete_media : CameraTaskType
  delete_all_media initialize get_status get_capture_status get_battery : CameraTaskType
  get_storage : CameraTaskType

pub data CameraTaskState : Type 0 where
  no_state queued precheck capturing configuring recording stopping_record listing : CameraTaskState
  downloading deleting verifying completed failed timed_out cancelled : CameraTaskState

pub record CameraTaskRequest : Type 0 where
  pub task_type : CameraTaskType
  pub task_id : ℤ
  pub repeat_count : ℤ
  pub output_dir : Text
  pub remote_path : Text
  pub local_path : Text
  pub extended_mode : Text
  pub batch_time_from : Text
  pub batch_time_to : Text
  pub target_camera_serial : Text
  pub parameters : List (Text × Text)
  pub delete_confirmed : Bool

-- A request with the default member initialisers.
abbrev pub default_request : CameraTaskRequest
default_request = record {
  task_type = no_task;
  task_id = pos 0;
  repeat_count = pos 1;
  output_dir = [];
  remote_path = [];
  local_path = [];
  extended_mode = [];
  batch_time_from = [];
  batch_time_to = [];
  target_camera_serial = [];
  parameters = [];
  delete_confirmed = false;
}

pub record CameraInfo : Type 0 where
  pub serial_number : Text
  pub camera_name : Text
  pub firmware_version : Text
  pub model_key : Text
  pub capabilities : Text

pub record BatteryInfo : Type 0 where
  pub power_type : Text
  pub battery_level : ℕ
  pub battery_scale : ℕ

pub record StorageInfo : Type 0 where
  pub storage_state : Text
  pub free_space : ℕ
  pub total_space : ℕ

pub record CameraRuntimeStatus : Type 0 where
  pub connected : Bool
  pub is_capturing : Bool
  pub battery_ok : Bool
  pub storage_ok : Bool
  pub media_time_ok : Bool
  pub battery : BatteryInfo
  pub storage : StorageInfo
  pub media_time : ℤ
  pub recent_error : Text

pub record CameraControllerSnapshot : Type 0 where
  pub device_state : CameraDeviceState
  pub task_type : CameraTaskType
  pub task_state : CameraTaskState
  pub runtime_status : CameraRuntimeStatus
  pub recover_attempts : ℤ
  pub completed_iterations : ℤ
  pub total_iterations : ℤ
  pub outputs : List Text
  pub result_summary : Text
  pub error_message : Text

abbrev pub default_status : CameraRuntimeStatus
default_status = record {
  connected = false;
  is_capturing = false;
  battery_ok = false;
  storage_ok = false;
  media_time_ok = false;
  battery = record { power_type = []; battery_level = 0; battery_scale = 0 };
  storage = record { storage_state = []; free_space = 0; total_space = 0 };
  media_time = minus_one;
  recent_error = [];
}

abbrev pub default_snapshot : CameraControllerSnapshot
default_snapshot = record {
  device_state = unavailable;
  task_type = no_task;
  task_state = no_state;
  runtime_status = default_status;
  recover_attempts = pos 0;
  completed_iterations = pos 0;
  total_iterations = pos 0;
  outputs = [];
  result_summary = [];
  error_message = [];
}

pub record CameraAppOptions : Type 0 where
  pub debug : Bool
  pub timeout_ms : ℤ
  pub poll_interval_ms : ℤ
  pub loop_interval_ms : ℤ
  pub max_loops : ℤ
  pub log_path : Text
  pub serial_number : Text
  pub default_output_dir : Text
  pub telemetry_command_defs : Text
  pub telemetry_command_inbox : Text
  pub port_map_path : Text
  pub can_config_path : Text
