-- ===== src/CameraController/Finish.antt =====
-- The tasks of app/src/camera_controller.cpp that are no photo tasks end in the tick that runs them:
-- those that ask or set something, CameraController.Finish.Media for the media, and
-- CameraController.Finish.Ticks for the tick.
pub mod Media
pub mod Ticks
use youyeetoo_rk3588_toolkit.Prelude.{
  arith, ap, ◌∙◌, ℕ, ltb, refl, List, [], ◌∷◌, Option, none, some, ℤ, if◌then◌else◌, ◌≡◌, Bool,
  true, false,
}
use youyeetoo_rk3588_toolkit.Prelude.Text.{Text}
use youyeetoo_rk3588_toolkit.Result.{Result, ok, err}
use youyeetoo_rk3588_toolkit.Camera.{
  CameraTaskType, listing, downloading, timed_out, no_task, auto_photo_sequence,
  take_photo_download, set_mode, set_param, get_param, get_media_time, get_log, list_devices,
  preview_start, preview_stop, shutdown_maint, start_recording, stop_recording,
  start_extended_capture, stop_extended_capture, list_media, download_media, batch_download,
  delete_media, delete_all_media, initialize, get_status, get_capture_status, get_battery,
  get_storage,
}
use youyeetoo_rk3588_toolkit.CameraController.{
  enter, set_device_state, TaskContext, is_no_task, Session, Platform, is_final, is_task_finished,
  fail_task, complete_task, fail, complete, reset_task, when_connected, unless_failed,
}
use youyeetoo_rk3588_toolkit.CameraController.Queries.{
  on_snapshot, finish, finish_output, on_result, begin_set_mode, begin_set_param, begin_get_param,
  begin_get_media_time, begin_get_log, begin_list_devices,
}
use youyeetoo_rk3588_toolkit.CameraController.Queries.Status.{
  initialized, begin_initialize, begin_get_status, begin_get_battery, begin_get_storage,
  begin_preview_start, begin_preview_stop, begin_shutdown_maint,
}
use youyeetoo_rk3588_toolkit.CameraController.Recording.{
  end_capture, begin_record_start, begin_record_stop, begin_extended_capture_start,
  begin_extended_capture_stop,
}
use youyeetoo_rk3588_toolkit.CameraController.Files.{join_path, file_name_from_url}
use youyeetoo_rk3588_toolkit.CameraController.Downloads.{
  finalize_single_download, download_failed, fetched, renamed, record_download,
}
use youyeetoo_rk3588_toolkit.CameraController.Media.{
  report_media, ask_media, download_all, download_batch, batch_of, begin_list_media,
  begin_download_media, begin_batch_download,
}
use youyeetoo_rk3588_toolkit.CameraController.Media.Deletion.{
  begin_delete_media, begin_delete_all_media,
}
use youyeetoo_rk3588_toolkit.CameraController.Connection.{
  tick_connection, try_open, after_attempt, enter_fatal, leave_fatal, stay_connected,
  wait_reconnect, tick_status_poll,
}
use youyeetoo_rk3588_toolkit.CameraController.Loop.{
  run_task, tick_photo, dispatch_task, tick_task, tick, is_photo,
}

-- The task is over, and its state says how.
unfoldable pub IsFinished : {D : Type 0} → Session D → Type 0
IsFinished s =
    (s.controller.has_task ≡ false)
    × (is_no_task s.controller.snapshot.task_type ≡ true)
    × (is_task_finished s.controller ≡ true)

module _ (p : Platform) where
  open p use {Device}

  pub if-IsFinished :
      (b : Bool) (x y : Session Device)
      → IsFinished x
      → IsFinished y
      → IsFinished (if b then x else y)
  if-IsFinished true x y h k = h
  if-IsFinished false x y h k = k

  pub fail-IsFinished : (message : Text) (s : Session Device) → IsFinished (fail p message s)
  unfolding fail fail_task reset_task IsFinished is_no_task is_task_finished is_final
  fail-IsFinished message s = (refl, refl, refl)

  pub complete-IsFinished :
      (summary : Text) (s : Session Device) → IsFinished (complete p summary s)
  unfolding complete complete_task reset_task IsFinished is_no_task is_task_finished is_final
  complete-IsFinished summary s = (refl, refl, refl)

  pub on_result-IsFinished {ℓ} :
      {A : Type ℓ} (r : Result A) (next : A → Session Device → Session Device) (s : Session Device)
      → ((a : A) (t : Session Device) → IsFinished (next a t))
      → IsFinished (on_result p r next s)
  unfolding on_result
  on_result-IsFinished (ok a) next s h = h a s
  on_result-IsFinished (err e) next s h = fail-IsFinished e s

  pub unless_failed-IsFinished :
      (failure : Option Text) (s next : Session Device)
      → IsFinished next
      → IsFinished (unless_failed p failure s next)
  unfolding unless_failed
  unless_failed-IsFinished none s next h = h
  unless_failed-IsFinished (some message) s next h = fail-IsFinished message s

  -- A result for which either the task is over or the rest of the task ends it.
  pub unless-IsFinished :
      (b : Bool) (x y : Session Device)
      → IsFinished x
      → (b ≡ false → IsFinished y)
      → IsFinished (if b then x else y)
  unless-IsFinished true x y h k = h
  unless-IsFinished false x y h k = k refl

  pub begin_set_mode-IsFinished : (s : Session Device) → IsFinished (begin_set_mode p s)
  unfolding begin_set_mode when_connected unless_failed finish finish_output fail fail_task complete
      complete_task reset_task IsFinished is_no_task is_task_finished is_final on_result
  begin_set_mode-IsFinished s = ground arith

  pub begin_set_param-IsFinished : (s : Session Device) → IsFinished (begin_set_param p s)
  unfolding begin_set_param when_connected unless_failed finish finish_output fail fail_task
      complete complete_task reset_task IsFinished is_no_task is_task_finished is_final on_result
  begin_set_param-IsFinished s = ground arith

  pub begin_get_param-IsFinished : (s : Session Device) → IsFinished (begin_get_param p s)
  unfolding begin_get_param when_connected unless_failed finish finish_output fail fail_task
      complete complete_task reset_task IsFinished is_no_task is_task_finished is_final on_result
  begin_get_param-IsFinished s = ground arith

  pub begin_get_media_time-IsFinished : (s : Session Device) → IsFinished (begin_get_media_time p s)
  unfolding begin_get_media_time when_connected unless_failed finish finish_output fail fail_task
      complete complete_task reset_task IsFinished is_no_task is_task_finished is_final on_result
  begin_get_media_time-IsFinished s = ground arith

  pub begin_get_log-IsFinished : (s : Session Device) → IsFinished (begin_get_log p s)
  unfolding begin_get_log when_connected unless_failed finish finish_output fail fail_task complete
      complete_task reset_task IsFinished is_no_task is_task_finished is_final on_result
  begin_get_log-IsFinished s = ground arith

  pub begin_list_devices-IsFinished : (s : Session Device) → IsFinished (begin_list_devices p s)
  unfolding begin_list_devices when_connected unless_failed finish finish_output fail fail_task
      complete complete_task reset_task IsFinished is_no_task is_task_finished is_final on_result
  begin_list_devices-IsFinished s = ground arith

  pub begin_initialize-IsFinished : (s : Session Device) → IsFinished (begin_initialize p s)
  unfolding begin_initialize when_connected unless_failed finish finish_output fail fail_task
      complete complete_task reset_task IsFinished is_no_task is_task_finished is_final on_result
      initialized
  begin_initialize-IsFinished s = ground arith

  pub begin_get_status-IsFinished : (s : Session Device) → IsFinished (begin_get_status p s)
  unfolding begin_get_status when_connected unless_failed finish finish_output fail fail_task
      complete complete_task reset_task IsFinished is_no_task is_task_finished is_final on_result
  begin_get_status-IsFinished s = ground arith

  pub begin_get_battery-IsFinished : (s : Session Device) → IsFinished (begin_get_battery p s)
  unfolding begin_get_battery when_connected unless_failed finish finish_output fail fail_task
      complete complete_task reset_task IsFinished is_no_task is_task_finished is_final on_result
  begin_get_battery-IsFinished s = ground arith

  pub begin_get_storage-IsFinished : (s : Session Device) → IsFinished (begin_get_storage p s)
  unfolding begin_get_storage when_connected unless_failed finish finish_output fail fail_task
      complete complete_task reset_task IsFinished is_no_task is_task_finished is_final on_result
  begin_get_storage-IsFinished s = ground arith

  pub begin_preview_start-IsFinished : (s : Session Device) → IsFinished (begin_preview_start p s)
  unfolding begin_preview_start when_connected unless_failed finish finish_output fail fail_task
      complete complete_task reset_task IsFinished is_no_task is_task_finished is_final on_result
  begin_preview_start-IsFinished s = ground arith

  pub begin_preview_stop-IsFinished : (s : Session Device) → IsFinished (begin_preview_stop p s)
  unfolding begin_preview_stop when_connected unless_failed finish finish_output fail fail_task
      complete complete_task reset_task IsFinished is_no_task is_task_finished is_final on_result
  begin_preview_stop-IsFinished s = ground arith

  pub begin_shutdown_maint-IsFinished : (s : Session Device) → IsFinished (begin_shutdown_maint p s)
  unfolding begin_shutdown_maint when_connected unless_failed finish finish_output fail fail_task
      complete complete_task reset_task IsFinished is_no_task is_task_finished is_final on_result
  begin_shutdown_maint-IsFinished s = ground arith

  pub begin_record_start-IsFinished : (s : Session Device) → IsFinished (begin_record_start p s)
  unfolding begin_record_start when_connected unless_failed finish finish_output fail fail_task
      complete complete_task reset_task IsFinished is_no_task is_task_finished is_final on_result
  begin_record_start-IsFinished s = ground arith

  pub begin_record_stop-IsFinished : (s : Session Device) → IsFinished (begin_record_stop p s)
  unfolding begin_record_stop when_connected unless_failed finish finish_output fail fail_task
      complete complete_task reset_task IsFinished is_no_task is_task_finished is_final on_result
      end_capture
  begin_record_stop-IsFinished s = ground arith

  pub begin_extended_capture_start-IsFinished :
      (s : Session Device) → IsFinished (begin_extended_capture_start p s)
  unfolding begin_extended_capture_start when_connected unless_failed finish finish_output fail
      fail_task complete complete_task reset_task IsFinished is_no_task is_task_finished is_final
      on_result
  begin_extended_capture_start-IsFinished s = ground arith

  pub begin_extended_capture_stop-IsFinished :
      (s : Session Device) → IsFinished (begin_extended_capture_stop p s)
  unfolding begin_extended_capture_stop when_connected unless_failed finish finish_output fail
      fail_task complete complete_task reset_task IsFinished is_no_task is_task_finished is_final
      on_result end_capture
  begin_extended_capture_stop-IsFinished s = ground arith
