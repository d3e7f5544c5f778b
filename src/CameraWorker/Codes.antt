-- ===== src/CameraWorker/Codes.antt =====
-- The numbers that the messages of app/src/camera_worker.cpp give for the enumerations of
-- app/include/camera_controller.h: the casts of their values to `int`.
use youyeetoo_rk3588_toolkit.Prelude.{ℕ, List, [], ◌∷◌}
use youyeetoo_rk3588_toolkit.Camera.{
  CameraDeviceState, CameraTaskType, CameraTaskState, unavailable, connecting, idle, busy,
  error_recover, fatal, no_task, auto_photo_sequence, take_photo_download, set_mode, set_param,
  get_param, get_media_time, get_log, list_devices, preview_start, preview_stop, shutdown_maint,
  start_recording, stop_recording, start_extended_capture, stop_extended_capture, list_media,
  download_media, batch_download, delete_media, delete_all_media, initialize, get_status,
  get_capture_status, get_battery, get_storage, no_state, queued, precheck, capturing, configuring,
  recording, stopping_record, listing, downloading, deleting, verifying, completed, failed,
  timed_out, cancelled,
}

-- static_cast<int> of a device state
unfoldable pub device_state_code : CameraDeviceState → ℕ
device_state_code unavailable = 0
device_state_code connecting = 1
device_state_code idle = 2
device_state_code busy = 3
device_state_code error_recover = 4
device_state_code fatal = 5

-- The values of CameraDeviceState by their numbers.
unfoldable pub device_states : List CameraDeviceState
device_states = unavailable ∷ connecting ∷ idle ∷ busy ∷ error_recover ∷ fatal ∷ []

-- static_cast<int> of the kind of a task
unfoldable pub task_type_code : CameraTaskType → ℕ
task_type_code no_task = 0
task_type_code auto_photo_sequence = 1
task_type_code take_photo_download = 2
task_type_code set_mode = 3
task_type_code set_param = 4
task_type_code get_param = 5
task_type_code get_media_time = 6
task_type_code get_log = 7
task_type_code list_devices = 8
task_type_code preview_start = 9
task_type_code preview_stop = 10
task_type_code shutdown_maint = 11
task_type_code start_recording = 12
task_type_code stop_recording = 13
task_type_code start_extended_capture = 14
task_type_code stop_extended_capture = 15
task_type_code list_media = 16
task_type_code download_media = 17
task_type_code batch_download = 18
task_type_code delete_media = 19
task_type_code delete_all_media = 20
task_type_code initialize = 21
task_type_code get_status = 22
task_type_code get_capture_status = 23
task_type_code get_battery = 24
task_type_code get_storage = 25

-- The values of CameraTaskType by their numbers.
unfoldable pub task_types : List CameraTaskType
task_types =
    no_task ∷ auto_photo_sequence ∷ take_photo_download ∷ set_mode ∷ set_param ∷ get_param
    ∷ get_media_time ∷ get_log ∷ list_devices ∷ preview_start ∷ preview_stop ∷ shutdown_maint
    ∷ start_recording ∷ stop_recording ∷ start_extended_capture ∷ stop_extended_capture ∷ list_media
    ∷ download_media ∷ batch_download ∷ delete_media ∷ delete_all_media ∷ initialize ∷ get_status
    ∷ get_capture_status ∷ get_battery ∷ get_storage ∷ []

-- static_cast<int> of the state of a task
unfoldable pub task_state_code : CameraTaskState → ℕ
task_state_code no_state = 0
task_state_code queued = 1
task_state_code precheck = 2
task_state_code capturing = 3
task_state_code configuring = 4
task_state_code recording = 5
task_state_code stopping_record = 6
task_state_code listing = 7
task_state_code downloading = 8
task_state_code deleting = 9
task_state_code verifying = 10
task_state_code completed = 11
task_state_code failed = 12
task_state_code timed_out = 13
task_state_code cancelled = 14

-- The values of CameraTaskState by their numbers.
unfoldable pub task_states : List CameraTaskState
task_states =
    no_state ∷ queued ∷ precheck ∷ capturing ∷ configuring ∷ recording ∷ stopping_record ∷ listing
    ∷ downloading ∷ deleting ∷ verifying ∷ completed ∷ failed ∷ timed_out ∷ cancelled ∷ []
