-- ===== src/CameraController/Tests.antt =====
-- Runs of the camera controller on a simulated camera.
use youyeetoo_rk3588_toolkit.Prelude.{
  ◌≡◌, refl, ℕ, Bool, true, false, [], ◌∷◌, ◌++◌, Option, none, some, ℤ, pos, if◌then◌else◌, ◌⊎◌,
  ◌&&◌, arith,
}
use youyeetoo_rk3588_toolkit.Prelude.Text.{codes, is_empty}
use youyeetoo_rk3588_toolkit.Result.{ok}
use youyeetoo_rk3588_toolkit.FileSystem.{FileSystem, write_file}
use youyeetoo_rk3588_toolkit.Camera.{
  CameraTaskRequest, default_request, default_snapshot, CameraAppOptions, list_devices,
  delete_all_media, auto_photo_sequence, error_recover,
}
use youyeetoo_rk3588_toolkit.CameraController.{
  Platform, CameraController, Session, new_task, start_task,
}
use youyeetoo_rk3588_toolkit.CameraController.Loop.{tick}
use youyeetoo_rk3588_toolkit.CameraController.Loop.{run_task}
use youyeetoo_rk3588_toolkit.Camera.{failed}
use youyeetoo_rk3588_toolkit.CameraController.{is_no_task}
use youyeetoo_rk3588_toolkit.CameraController.Connection.Recovery.{
  failing_rounds, failing_rounds-starve,
}
use youyeetoo_rk3588_toolkit.CameraController.Files.{json_escape, write_text_file}
use youyeetoo_rk3588_toolkit.CameraController.Files.Json.{
  read_json_string, is_plain, read_json_string-json_escape,
}
use youyeetoo_rk3588_toolkit.CameraController.Selection.{
  normalize_time_filter_token, is_selected, extract_media_timestamp_token,
}
use youyeetoo_rk3588_toolkit.CameraController.Selection.Window.{in_window, is_selected-in_window}
use youyeetoo_rk3588_toolkit.CameraController.Downloads.{finalize_single_download, part_path}
use youyeetoo_rk3588_toolkit.CameraController.Downloads.Atomic.{
  WritesOnlyTarget, fetch, finalize_single_download_atomic,
}
use youyeetoo_rk3588_toolkit.CameraController.Finish.{IsFinished}
use youyeetoo_rk3588_toolkit.CameraController.Finish.Ticks.{tick-IsFinished, tick-ends}
use youyeetoo_rk3588_toolkit.CameraController.Safety.{IsPermitted, unconfirmed_delete_keeps_camera}

-- A camera that can be opened or not, and takes every order.
pub record SimulatedCamera : Type 0 where
  pub now : ℕ
  pub is_open : Bool
  pub can_open : Bool

abbrev pub simulated : Platform
simulated = record {
  Device = SimulatedCamera;
  clock = λ d. d.now;
  timestamp = λ d. codes "2025-01-01 00:00:00";
  rename_error = λ from to d. codes "Permission denied";
  create_directories = λ path d. (none, d);
  is_connected = λ d. d.is_open;
  current_serial_number = λ d. if d.is_open then codes "S1" else [];
  current_camera_info = λ d. record {
    serial_number = codes "S1";
    camera_name = [];
    firmware_version = [];
    model_key = [];
    capabilities = [];
  };
  capture_current_status = λ d. false;
  get_camera_media_time = λ d. pos 60;
  get_camera_log_file_url = λ d. [];
  list_cameras = λ d. ([], d);
  open_camera = λ serial timeout d. (d.can_open, record d { is_open = d.can_open });
  get_battery_status = λ d. (none, d);
  get_storage_state = λ d. (none, d);
  set_normal_photo_mode = λ d. (true, d);
  set_capture_mode = λ mode d. (none, d);
  set_capture_parameters = λ ps d. (ok [], d);
  get_capture_parameters = λ ps d. ok ([], []);
  take_photo =
      λ d. (record { origin_urls = codes "/DCIM/IMG_1.insp" ∷ []; low_resolution_urls = [] }, d);
  start_recording = λ ps d. (ok [], d);
  stop_recording = λ d. (record { origin_urls = []; low_resolution_urls = [] }, d);
  start_extended_capture = λ mode d. (none, d);
  stop_extended_capture =
      λ mode d. ((record { origin_urls = []; low_resolution_urls = [] }, []), d);
  list_media = λ d. ([], d);
  get_media_count = λ d. (some (pos 0), d);
  start_preview = λ ps d. (ok [], d);
  stop_preview = λ d. (ok [], d);
  shutdown_for_maintenance = λ d. (none, d);
  download_media = λ remote path timeout d files. (none, d, write_file path (codes "JPEG") files);
  delete_media = λ path d. (true, d);
}

abbrev pub empty_disk : FileSystem
empty_disk = record { contents = λ path. none; writable = λ path. true }

abbrev pub two_second_options : CameraAppOptions
two_second_options = record {
  debug = false;
  timeout_ms = pos 30000;
  poll_interval_ms = pos 2000;
  loop_interval_ms = pos 100;
  max_loops = pos 0;
  log_path = [];
  serial_number = [];
  default_output_dir = [];
  telemetry_command_defs = [];
  telemetry_command_inbox = [];
  port_map_path = [];
  can_config_path = [];
}

abbrev pub fresh_controller : CameraController
fresh_controller = record {
  options = two_second_options;
  snapshot = default_snapshot;
  task = new_task 0;
  has_task = false;
  device_list_supplements = [];
  next_poll_time = 0;
  next_reconnect_time = 0;
  camera_namespace = [];
}

-- A session with a camera that is connected, and one with a camera that cannot be opened.
abbrev pub ready : Session SimulatedCamera
ready = record {
  controller = fresh_controller;
  files = empty_disk;
  device = record { now = 1000; is_open = true; can_open = true };
  next_id = 1;
}

-- A camera that cannot be opened, after ten failed attempts.
abbrev lost : Session SimulatedCamera
lost = record ready {
  controller = record fresh_controller {
    snapshot = record default_snapshot { recover_attempts = pos 10; device_state = error_recover };
  };
  device = record { now = 1000; is_open = false; can_open = false };
}

abbrev pub listing_request : CameraTaskRequest
listing_request = record default_request { task_type = list_devices }

abbrev pub photo_request : CameraTaskRequest
photo_request = record default_request {
  task_type = auto_photo_sequence;
  repeat_count = pos 2;
  output_dir = codes "/data";
}

abbrev delete_all_request : CameraTaskRequest
delete_all_request = record default_request {
  task_type = delete_all_media;
  delete_confirmed = true;
}

abbrev with_request : CameraTaskRequest → Session SimulatedCamera
with_request request = record ready {
  controller = record fresh_controller {
    has_task = true;
    task = record (new_task 1000) { request = request; deadline = 31000 };
  };
}

-- The tick of a photo task takes both photos.
photos_completed : Option (Session SimulatedCamera) → Option ℤ
photos_completed none = none
photos_completed (some s) = some s.controller.snapshot.completed_iterations

two_photos :
    photos_completed (tick simulated (start_task simulated photo_request ready).0) ≡ some (pos 2)
unfolding photos_completed tick start_task codes write_text_file write_file
two_photos = refl

tick-IsFinished_example :
    (s' : Session SimulatedCamera) × (tick simulated (with_request listing_request) ≡ some s')
    × IsFinished s'
unfolding is_no_task
tick-IsFinished_example = tick-IsFinished simulated (with_request listing_request) refl refl refl

tick-ends_example :
    (s' : Session SimulatedCamera) × (tick simulated (start_task simulated photo_request ready).0
      ≡ some s')
tick-ends_example = tick-ends simulated (start_task simulated photo_request ready).0

simulated-WritesOnlyTarget : WritesOnlyTarget simulated
unfolding write_file
simulated-WritesOnlyTarget remote_path path timeout_ms device fs q h = ground arith

finalize_single_download_atomic_example :
    (let after =
        (finalize_single_download simulated
            (codes "/a.jpg")
            (codes "/data/a.jpg")
            ready).1.files.contents
          (codes "/data/a.jpg") in
      let (failure, device, files) = fetch simulated (codes "/a.jpg") (codes "/data/a.jpg") ready in
      (after ≡ none)
      ⊎ ((failure ≡ none) × (after ≡ files.contents (part_path (codes "/data/a.jpg")))))
finalize_single_download_atomic_example =
    finalize_single_download_atomic simulated simulated-WritesOnlyTarget (codes "/a.jpg")
      (codes "/data/a.jpg") ready

failing_rounds-starve_example :
    (failing_rounds simulated (5000 ∷ 25000 ∷ 45000 ∷ 65000 ∷ []) (codes "timeout") lost).device
    ≡ lost.device
failing_rounds-starve_example =
    failing_rounds-starve simulated (5000 ∷ 25000 ∷ 45000 ∷ 65000 ∷ []) (codes "timeout") lost refl
      refl

is_selected-in_window_example :
    (let time_from = normalize_time_filter_token (codes "2025-01-02 00:00:00") in
      let time_to = normalize_time_filter_token [] in
      is_selected time_from time_to (codes "/DCIM/IMG_20250103_101500_00.insp") ≡ (
        if is_empty time_from && is_empty time_to
        then true
        else elim (extract_media_timestamp_token (codes "/DCIM/IMG_20250103_101500_00.insp")) [
          | none ↦ false
          | some t ↦ in_window time_from time_to t
        ]))
is_selected-in_window_example =
    is_selected-in_window (codes "2025-01-02 00:00:00") []
      (codes "/DCIM/IMG_20250103_101500_00.insp")

read_json_string-json_escape_example :
    read_json_string (json_escape (codes "a\"b") ++ (34 ∷ codes "}"))
    ≡ (if is_plain (codes "a\"b") then some (codes "a\"b", codes "}") else none)
read_json_string-json_escape_example = read_json_string-json_escape (codes "a\"b") (codes "}")

unconfirmed_delete_keeps_camera_example :
    IsPermitted delete_all_media delete_all_request
    ⊎ (((run_task simulated delete_all_media (with_request delete_all_request)).device
          ≡ ready.device)
        × ((run_task simulated delete_all_media
              (with_request delete_all_request)).controller.snapshot.task_state
            ≡ failed))
unconfirmed_delete_keeps_camera_example =
    unconfirmed_delete_keeps_camera simulated delete_all_media (with_request delete_all_request)
