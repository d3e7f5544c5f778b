-- ===== src/CameraController/Loop.antt =====
-- TickTask and Tick of app/src/camera_controller.cpp.
use youyeetoo_rk3588_toolkit.Prelude.{ℕ, Bool, true, false, Option, some, ltb, if◌then◌else◌}
use youyeetoo_rk3588_toolkit.Prelude.Text.{codes}
use youyeetoo_rk3588_toolkit.Camera.{
  CameraTaskType, CameraTaskState, no_task, auto_photo_sequence, take_photo_download, set_mode,
  set_param, get_param, get_media_time, get_log, list_devices, preview_start, preview_stop,
  shutdown_maint, start_recording, stop_recording, start_extended_capture, stop_extended_capture,
  list_media, download_media, batch_download, delete_media, delete_all_media, initialize,
  get_status, get_capture_status, get_battery, get_storage, queued, precheck, capturing,
  downloading, verifying, timed_out,
}
use youyeetoo_rk3588_toolkit.CameraController.{Platform, Session, fail_task}
use youyeetoo_rk3588_toolkit.CameraController.Connection.{tick_connection, tick_status_poll}
use youyeetoo_rk3588_toolkit.CameraController.Queries.{
  begin_set_mode, begin_set_param, begin_get_param, begin_get_media_time, begin_get_log,
  begin_list_devices,
}
use youyeetoo_rk3588_toolkit.CameraController.Queries.Status.{
  begin_initialize, begin_get_status, begin_get_battery, begin_get_storage, begin_preview_start,
  begin_preview_stop, begin_shutdown_maint,
}
use youyeetoo_rk3588_toolkit.CameraController.Recording.{
  begin_record_start, begin_record_stop, begin_extended_capture_start, begin_extended_capture_stop,
}
use youyeetoo_rk3588_toolkit.CameraController.Media.{
  begin_list_media, begin_download_media, begin_batch_download,
}
use youyeetoo_rk3588_toolkit.CameraController.Media.Deletion.{
  begin_delete_media, begin_delete_all_media,
}
use youyeetoo_rk3588_toolkit.CameraController.Photo.{continue_photo, photos}

abbrev begins_photo : CameraTaskState → Bool
begins_photo queued = true
begins_photo precheck = true
begins_photo _ = false

abbrev continues_photo : CameraTaskState → Bool
continues_photo capturing = true
continues_photo downloading = true
continues_photo verifying = true
continues_photo _ = false

-- The tasks that TickTask runs as photo tasks.
abbrev pub is_photo : CameraTaskType → Bool
is_photo auto_photo_sequence = true
is_photo take_photo_download = true
is_photo _ = false

module _ (p : Platform) where
  open p use {Device, clock, is_connected}

  -- The case of TickTask for the photo tasks.
  unfoldable pub tick_photo : ℕ → Session Device → Option (Session Device)
  unfolding photos continue_photo
  tick_photo now s =
      let state = s.controller.snapshot.task_state in
      if begins_photo state
      then photos p now (true, s)
      else if continues_photo state
      then photos p now (continue_photo p now s)
      else some s

  -- The other cases of the switch of TickTask.
  unfoldable pub run_task : CameraTaskType → Session Device → Session Device
  unfolding begin_set_mode begin_set_param begin_get_param begin_get_media_time begin_get_log
      begin_list_devices begin_initialize begin_get_status begin_get_battery begin_get_storage
      begin_preview_start begin_preview_stop begin_shutdown_maint begin_record_start
      begin_record_stop begin_extended_capture_start begin_extended_capture_stop begin_list_media
      begin_download_media begin_batch_download begin_delete_media begin_delete_all_media
  run_task no_task s = s
  run_task auto_photo_sequence s = s
  run_task take_photo_download s = s
  run_task set_mode s = begin_set_mode p s
  run_task set_param s = begin_set_param p s
  run_task get_param s = begin_get_param p s
  run_task get_media_time s = begin_get_media_time p s
  run_task get_log s = begin_get_log p s
  run_task list_devices s = begin_list_devices p s
  run_task preview_start s = begin_preview_start p s
  run_task preview_stop s = begin_preview_stop p s
  run_task shutdown_maint s = begin_shutdown_maint p s
  run_task start_recording s = begin_record_start p s
  run_task stop_recording s = begin_record_stop p s
  run_task start_extended_capture s = begin_extended_capture_start p s
  run_task stop_extended_capture s = begin_extended_capture_stop p s
  run_task list_media s = begin_list_media p s
  run_task download_media s = begin_download_media p s
  run_task batch_download s = begin_batch_download p s
  run_task delete_media s = begin_delete_media p s
  run_task delete_all_media s = begin_delete_all_media p s
  run_task initialize s = begin_initialize p s
  run_task get_status s = begin_get_status p s
  run_task get_capture_status s = begin_get_status p s
  run_task get_battery s = begin_get_battery p s
  run_task get_storage s = begin_get_storage p s

  -- The switch of TickTask.
  unfoldable pub dispatch_task : ℕ → Session Device → Option (Session Device)
  unfolding tick_photo run_task
  dispatch_task now s =
      let type = s.controller.task.request.task_type in
      if is_photo type then tick_photo now s else some (run_task type s)

  -- TickTask
  unfoldable pub tick_task : ℕ → Session Device → Option (Session Device)
  unfolding fail_task dispatch_task
  tick_task now s =
      if s.controller.has_task
      then if ltb s.controller.task.deadline now
        then some (record s {
          controller =
              fail_task (is_connected s.device) (clock s.device) timed_out
                (codes "task deadline exceeded") s.controller;
        })
        else dispatch_task now s
      else some s

  -- Tick
  unfoldable pub tick : Session Device → Option (Session Device)
  unfolding tick_connection tick_status_poll tick_task
  tick s =
      let now = clock s.device in tick_task now (tick_status_poll p now (tick_connection p now s))
