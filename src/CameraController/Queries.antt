-- ===== src/CameraController/Queries.antt =====
-- The tasks of app/src/camera_controller.cpp that set or ask something of the camera. Each of them
-- ends in one call.
pub mod Status
use youyeetoo_rk3588_toolkit.Prelude.{
  Bool, true, false, [], ◌∷◌, ◌++◌, none, some, pos, is_nonneg, add_ℤ, length, if◌then◌else◌,
}
use youyeetoo_rk3588_toolkit.Prelude.Text.{Text, codes, is_empty}
use youyeetoo_rk3588_toolkit.Prelude.Dict.{lookup}
use youyeetoo_rk3588_toolkit.Number.{to_string}
use youyeetoo_rk3588_toolkit.Result.{Result, ok, err}
use youyeetoo_rk3588_toolkit.Camera.{
  CameraControllerSnapshot, connecting, configuring, listing, precheck,
}
use youyeetoo_rk3588_toolkit.CameraController.{
  Platform, Session, set_device_state, set_task_state, fail, complete, enter, when_connected,
  unless_failed,
}
use youyeetoo_rk3588_toolkit.CameraController.Connection.{collect_runtime_status}
use youyeetoo_rk3588_toolkit.CameraController.Supplements.{add_supplements}
use youyeetoo_rk3588_toolkit.CameraController.Files.{int_text}
use youyeetoo_rk3588_toolkit.CameraController.Results.{
  active_serial_number, write_param_query_result_file, write_media_time_result_file,
  write_log_query_result_file, write_device_list_result_file,
}

abbrev pub yes_no : Bool → Text
yes_no b = codes (if b then "yes" else "no")

abbrev pub or_text : Text → Text → Text
or_text summary default = if is_empty summary then default else summary

module _ (p : Platform) where
  open p use {
    Device, clock, is_connected, capture_current_status, get_camera_media_time,
    get_camera_log_file_url, list_cameras, open_camera, get_battery_status, get_storage_state,
    set_capture_mode, set_capture_parameters, get_capture_parameters, start_recording,
    stop_recording, start_extended_capture, stop_extended_capture, start_preview, stop_preview,
    shutdown_for_maintenance,
  }

  abbrev pub with_device : Device → Session Device → Session Device
  with_device device s = record s { device = device }

  abbrev pub on_snapshot :
      (CameraControllerSnapshot → CameraControllerSnapshot) → Session Device → Session Device
  on_snapshot f s = record s {
    controller = record s.controller { snapshot = f s.controller.snapshot };
  }

  -- CompleteTask after one iteration.
  unfoldable pub finish : Text → Session Device → Session Device
  unfolding complete
  finish summary s =
      complete p summary (on_snapshot (λ n. record n { completed_iterations = pos 1 }) s)

  -- The same with one output, which the summary names.
  unfoldable pub finish_output : Text → Text → Session Device → Session Device
  unfolding finish
  finish_output summary path s =
      finish (summary ++ codes " output=" ++ path)
        (on_snapshot (λ n. record n { outputs = path ∷ [] }) s)

  -- A call with a result: its error ends the task.
  unfoldable pub on_result {ℓ} :
      {A : Type ℓ}
      → Result A
      → (A → Session Device → Session Device)
      → Session Device
      → Session Device
  unfolding fail
  on_result (ok a) next s = next a s
  on_result (err message) next s = fail p message s

  unfoldable pub begin_set_mode : Session Device → Session Device
  unfolding when_connected fail enter unless_failed finish
  begin_set_mode = when_connected p (λ s.
      elim (lookup (codes "mode") s.controller.task.request.parameters) [
        | none ↦ fail p (codes "set mode requires mode parameter") s
        | some mode ↦
            let busy_now = enter p configuring s in
            let (failure, device) = set_capture_mode mode busy_now.device in
            let s' = with_device device busy_now in
            if is_empty mode
            then fail p (codes "set mode requires mode parameter") s
            else unless_failed p failure s' (finish (codes "camera mode set mode=" ++ mode) s')
      ])

  unfoldable pub begin_set_param : Session Device → Session Device
  unfolding when_connected enter on_result finish
  begin_set_param = when_connected p (λ s.
      let s1 = enter p configuring s in
      let (result, device) =
        set_capture_parameters s.controller.task.request.parameters s1.device in
      on_result result (λ summary. finish (or_text summary (codes "camera parameters applied")))
        (with_device device s1))

  unfoldable pub begin_get_param : Session Device → Session Device
  unfolding when_connected enter on_result finish_output write_param_query_result_file
  begin_get_param = when_connected p (λ s.
      let s1 = enter p configuring s in
      on_result (get_capture_parameters s.controller.task.request.parameters s1.device)
        (λ answer s2.
          let (written, s3) = write_param_query_result_file p answer.0 s2 in
          on_result written
            (λ path. finish_output (or_text answer.1 (codes "camera parameters queried")) path) s3)
        s1)

  unfoldable pub begin_get_media_time : Session Device → Session Device
  unfolding when_connected enter fail on_result finish_output write_media_time_result_file
  begin_get_media_time = when_connected p (λ s.
      let s1 = enter p configuring s in
      let media_time = get_camera_media_time s1.device in
      let (written, s2) = write_media_time_result_file p media_time s1 in
      if is_nonneg media_time
      then on_result written
          (λ path s3. finish_output (codes "camera media time=" ++ int_text media_time) path (
            on_snapshot
              (λ n. record n {
                runtime_status = record n.runtime_status {
                  media_time = media_time;
                  media_time_ok = true;
                };
              })
              s3))
          s2
      else fail p (codes "camera media time unavailable") s1)

  unfoldable pub begin_get_log : Session Device → Session Device
  unfolding when_connected enter fail on_result finish_output write_log_query_result_file
  begin_get_log = when_connected p (λ s.
      let s1 = enter p configuring s in
      let log_url = get_camera_log_file_url s1.device in
      let (written, s2) = write_log_query_result_file p log_url s1 in
      if is_empty log_url
      then fail p (codes "camera log url unavailable") s1
      else on_result written (λ path. finish_output (codes "camera log url=" ++ log_url) path) s2)

  unfoldable pub begin_list_devices : Session Device → Session Device
  unfolding enter complete on_result write_device_list_result_file add_supplements to_string
  begin_list_devices s =
      let s1 = enter p listing s in
      let (listed, device) = list_cameras s1.device in
      let cameras = add_supplements s.controller.device_list_supplements listed in
      let (written, s2) = write_device_list_result_file p cameras (with_device device s1) in
      on_result written
        (λ path s3.
          complete p
            (codes "listed camera devices count="
              ++ to_string (length cameras)
              ++ codes " output="
              ++ path)
            (on_snapshot
              (λ n. record n {
                completed_iterations = pos (length cameras);
                total_iterations = pos (length cameras);
                outputs = path ∷ [];
              })
              s3))
        s2
