-- ===== src/CameraController/Queries/Status.antt =====
-- The tasks of app/src/camera_controller.cpp that open the camera, ask for its status, and start and
-- stop the preview.
use youyeetoo_rk3588_toolkit.Prelude.{true, false, [], ◌++◌, none, some, pos, add_ℤ, if◌then◌else◌}
use youyeetoo_rk3588_toolkit.Prelude.Text.{Text, codes}
use youyeetoo_rk3588_toolkit.Number.{to_string}
use youyeetoo_rk3588_toolkit.Camera.{connecting, configuring, precheck}
use youyeetoo_rk3588_toolkit.CameraController.{
  Platform, Session, set_device_state, set_task_state, fail, enter, when_connected, unless_failed,
}
use youyeetoo_rk3588_toolkit.CameraController.Connection.{collect_runtime_status}
use youyeetoo_rk3588_toolkit.CameraController.Results.{active_serial_number}
use youyeetoo_rk3588_toolkit.CameraController.Queries.{
  with_device, on_snapshot, finish, on_result, yes_no, or_text,
}

module _ (p : Platform) where
  open p use {
    Device, clock, is_connected, capture_current_status, get_camera_media_time,
    get_camera_log_file_url, list_cameras, open_camera, get_battery_status, get_storage_state,
    set_capture_mode, set_capture_parameters, get_capture_parameters, start_recording,
    stop_recording, start_extended_capture, stop_extended_capture, start_preview, stop_preview,
    shutdown_for_maintenance,
  }

  -- What both ways of BeginInitializeTask to success have in common.
  unfoldable pub initialized : Text → Session Device → Session Device
  unfolding finish active_serial_number collect_runtime_status
  initialized summary s = finish p (summary ++ active_serial_number p s) (
      on_snapshot p
        (λ n. record n {
          runtime_status = collect_runtime_status (is_connected s.device) s.controller;
        })
        s)

  unfoldable pub begin_initialize : Session Device → Session Device
  unfolding initialized fail set_task_state set_device_state
  begin_initialize s =
      let s1 = record s {
        controller =
            set_task_state (clock s.device) precheck (set_device_state connecting s.controller);
      } in
      let s2 = on_snapshot p (λ n. record n { recover_attempts = pos 0 }) s1 in
      let s3 = record s2 {
        controller = record s2.controller { next_reconnect_time = clock s2.device };
      } in
      let options = s3.controller.options in
      let (success, device) = open_camera options.serial_number options.timeout_ms s3.device in
      let s4 = with_device p device s3 in
      if is_connected s.device
      then initialized (codes "camera already initialized serial=") s2
      else if success
      then initialized (codes "camera initialized serial=") s4
      else fail p (codes "camera initialization failed; automatic retry scheduled") (record s4 {
        controller = record s4.controller {
          snapshot = record s4.controller.snapshot { recover_attempts = pos 1 };
          next_reconnect_time = add_ℤ (clock s4.device) options.poll_interval_ms;
        };
      })

  unfoldable pub begin_get_status : Session Device → Session Device
  unfolding when_connected enter finish
  begin_get_status = when_connected p (λ s.
      let s1 = enter p configuring s in
      let is_capturing = capture_current_status s1.device in
      finish p (codes "camera status connected=yes capturing=" ++ yes_no is_capturing) (
        on_snapshot p
          (λ n. record n {
            runtime_status = record n.runtime_status {
              connected = true;
              is_capturing = is_capturing;
              recent_error = [];
            };
          })
          s1))

  unfoldable pub begin_get_battery : Session Device → Session Device
  unfolding when_connected enter fail finish to_string
  begin_get_battery = when_connected p (λ s.
      let s1 = enter p configuring s in
      let (answer, device) = get_battery_status s1.device in
      let s2 = with_device p device s1 in
      elim answer [
        | none ↦ fail p (codes "failed to query camera battery") (
            on_snapshot p
              (λ n. record n { runtime_status = record n.runtime_status { battery_ok = false } })
              s2)
        | some battery ↦
            finish p
              (codes "camera battery="
                ++ to_string battery.battery_level
                ++ codes "/"
                ++ to_string battery.battery_scale
                ++ codes " power_type="
                ++ battery.power_type)
              (on_snapshot p
                (λ n. record n {
                  runtime_status = record n.runtime_status {
                    connected = true;
                    battery = battery;
                    battery_ok = true;
                    recent_error = [];
                  };
                })
                s2)
      ])

  unfoldable pub begin_get_storage : Session Device → Session Device
  unfolding when_connected enter fail finish to_string
  begin_get_storage = when_connected p (λ s.
      let s1 = enter p configuring s in
      let (answer, device) = get_storage_state s1.device in
      let s2 = with_device p device s1 in
      elim answer [
        | none ↦ fail p (codes "failed to query camera storage") (
            on_snapshot p
              (λ n. record n { runtime_status = record n.runtime_status { storage_ok = false } })
              s2)
        | some storage ↦
            finish p
              (codes "camera storage state="
                ++ storage.storage_state
                ++ codes " free="
                ++ to_string storage.free_space
                ++ codes " total="
                ++ to_string storage.total_space)
              (on_snapshot p
                (λ n. record n {
                  runtime_status = record n.runtime_status {
                    connected = true;
                    storage = storage;
                    storage_ok = true;
                    recent_error = [];
                  };
                })
                s2)
      ])

  unfoldable pub begin_preview_start : Session Device → Session Device
  unfolding when_connected enter on_result finish
  begin_preview_start = when_connected p (λ s.
      let s1 = enter p configuring s in
      let (result, device) = start_preview s.controller.task.request.parameters s1.device in
      on_result p result (λ summary. finish p (or_text summary (codes "camera preview started")))
        (with_device p device s1))

  unfoldable pub begin_preview_stop : Session Device → Session Device
  unfolding when_connected enter on_result finish
  begin_preview_stop = when_connected p (λ s.
      let s1 = enter p configuring s in
      let (result, device) = stop_preview s1.device in
      on_result p result (λ summary. finish p (or_text summary (codes "camera preview stopped")))
        (with_device p device s1))

  unfoldable pub begin_shutdown_maint : Session Device → Session Device
  unfolding when_connected enter unless_failed finish
  begin_shutdown_maint = when_connected p (λ s.
      let s1 = enter p configuring s in
      let (failure, device) = shutdown_for_maintenance s1.device in
      let s2 = with_device p device s1 in
      unless_failed p failure s2 (finish p (codes "camera maintenance shutdown requested") s2))
