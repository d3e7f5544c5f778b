-- ===== src/CameraController/Names.antt =====
-- The names of the states and task types in app/src/camera_controller.cpp.
use youyeetoo_rk3588_toolkit.Prelude.Text.{Text, codes}
use youyeetoo_rk3588_toolkit.Camera.{
  CameraDeviceState, CameraTaskType, CameraTaskState, unavailable, connecting, idle, busy,
  error_recover, fatal, no_task, auto_photo_sequence, take_photo_download, set_mode, set_param,
  get_param, get_media_time, get_log, list_devices, preview_start, preview_stop, shutdown_maint,
  start_recording, stop_recording, start_extended_capture, stop_extended_capture, list_media,
  download_media, batch_download, delete_media, delete_all_media, initialize, get_status,
  get_capture_status, get_battery, get_storage, no_state, queued, precheck, capturing, configuring,
  recording, stopping_record, listing, downloading, deleting, verifying, completed, failed,
  timed_out, cancelled,
}

-- DeviceStateToString
unfoldable pub device_state_to_string : CameraDeviceState → Text
device_state_to_string unavailable = codes "UNAVAILABLE"
device_state_to_string connecting = codes "CONNECTING"
device_state_to_string idle = codes "IDLE"
device_state_to_string busy = codes "BUSY"
device_state_to_string error_recover = codes "ERROR_RECOVER"
device_state_to_string fatal = codes "FATAL"

-- TaskTypeToString
unfoldable pub task_type_to_string : CameraTaskType → Text
task_type_to_string no_task = codes "NONE"
task_type_to_string auto_photo_sequence = codes "AUTO_PHOTO_SEQUENCE"
task_type_to_string take_photo_download = codes "TAKE_PHOTO_DOWNLOAD"
task_type_to_string set_mode = codes "SET_MODE"
task_type_to_string set_param = codes "SET_PARAM"
task_type_to_string get_param = codes "GET_PARAM"
task_type_to_string get_media_time = codes "GET_MEDIA_TIME"
task_type_to_string get_log = codes "GET_LOG"
task_type_to_string list_devices = codes "LIST_DEVICES"
task_type_to_string preview_start = codes "PREVIEW_START"
task_type_to_string preview_stop = codes "PREVIEW_STOP"
task_type_to_string shutdown_maint = codes "SHUTDOWN_MAINT"
task_type_to_string start_recording = codes "START_RECORDING"
task_type_to_string stop_recording = codes "STOP_RECORDING"
task_type_to_string start_extended_capture = codes "START_EXTENDED_CAPTURE"
task_type_to_string stop_extended_capture = codes "STOP_EXTENDED_CAPTURE"
task_type_to_string list_media = codes "LIST_MEDIA"
task_type_to_string download_media = codes "DOWNLOAD_MEDIA"
task_type_to_string batch_download = codes "BATCH_DOWNLOAD"
task_type_to_string delete_media = codes "DELETE_MEDIA"
task_type_to_string delete_all_media = codes "DELETE_ALL_MEDIA"
task_type_to_string initialize = codes "INITIALIZE"
task_type_to_string get_status = codes "GET_STATUS"
task_type_to_string get_capture_status = codes "GET_CAPTURE_STATUS"
task_type_to_string get_battery = codes "GET_BATTERY"
task_type_to_string get_storage = codes "GET_STORAGE"

-- TaskStateToString
unfoldable pub task_state_to_string : CameraTaskState → Text
task_state_to_string no_state = codes "NONE"
task_state_to_string queued = codes "QUEUED"
task_state_to_string precheck = codes "PRECHECK"
task_state_to_string capturing = codes "CAPTURING"
task_state_to_string configuring = codes "CONFIGURING"
task_state_to_string recording = codes "RECORDING"
task_state_to_string stopping_record = codes "STOPPING_RECORD"
task_state_to_string listing = codes "LISTING"
task_state_to_string downloading = codes "DOWNLOADING"
task_state_to_string deleting = codes "DELETING"
task_state_to_string verifying = codes "VERIFYING"
task_state_to_string completed = codes "COMPLETED"
task_state_to_string failed = codes "FAILED"
task_state_to_string timed_out = codes "TIMEOUT"
task_state_to_string cancelled = codes "CANCELLED"
