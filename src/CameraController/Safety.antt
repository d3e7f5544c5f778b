-- ===== src/CameraController/Safety.antt =====
-- What the tasks of app/src/camera_controller.cpp do not do to the camera: without a connection,
-- and without a confirmation.
use youyeetoo_rk3588_toolkit.Prelude.{
  arith, ◌≡◌, refl, Bool, true, false, ◌&&◌, if◌then◌else◌, ◌⊎◌, inl, inr, Bool-cases, Option-cases,
  some,
}
use youyeetoo_rk3588_toolkit.Prelude.Text.{codes, text_eq_iff}
use youyeetoo_rk3588_toolkit.Prelude.Dict.{lookup}
use youyeetoo_rk3588_toolkit.Camera.{
  CameraTaskType, CameraTaskRequest, failed, no_task, auto_photo_sequence, take_photo_download,
  set_mode, set_param, get_param, get_media_time, get_log, list_devices, preview_start,
  preview_stop, shutdown_maint, start_recording, stop_recording, start_extended_capture,
  stop_extended_capture, list_media, download_media, batch_download, delete_media, delete_all_media,
  initialize, get_status, get_capture_status, get_battery, get_storage,
}
use youyeetoo_rk3588_toolkit.CameraController.{
  Platform, Session, fail, fail_task, reset_task, when_connected, enter,
}
use youyeetoo_rk3588_toolkit.CameraController.Queries.{
  begin_set_mode, begin_set_param, begin_get_param, begin_get_media_time, begin_get_log,
}
use youyeetoo_rk3588_toolkit.CameraController.Queries.Status.{
  begin_get_status, begin_get_battery, begin_get_storage, begin_preview_start, begin_preview_stop,
  begin_shutdown_maint,
}
use youyeetoo_rk3588_toolkit.CameraController.Recording.{
  begin_record_start, begin_record_stop, begin_extended_capture_start, begin_extended_capture_stop,
}
use youyeetoo_rk3588_toolkit.CameraController.Media.{
  begin_list_media, begin_download_media, begin_batch_download,
}
use youyeetoo_rk3588_toolkit.CameraController.Media.Deletion.{
  begin_delete_media, begin_delete_all_media, confirms_delete_all,
}
use youyeetoo_rk3588_toolkit.CameraController.Loop.{run_task}

-- The tasks that delete what the camera holds, and what each asks for before it does.
unfoldable pub is_confirmed : {D : Type 0} → CameraTaskType → Session D → Bool
is_confirmed delete_media s = s.controller.task.request.delete_confirmed
is_confirmed delete_all_media s =
    s.controller.task.request.delete_confirmed && confirms_delete_all s.controller.task.request
is_confirmed _ s = true

-- What a request must say for the camera to lose media.
abbrev pub IsPermitted : CameraTaskType → CameraTaskRequest → Type 0
IsPermitted delete_media request = request.delete_confirmed ≡ true
IsPermitted delete_all_media request =
    (request.delete_confirmed ≡ true)
    × (lookup (codes "confirm") request.parameters ≡ some (codes "DELETE_ALL"))
IsPermitted _ request = Unit

is_confirmed-IsPermitted :
    {D : Type 0} (type : CameraTaskType) (s : Session D)
    → is_confirmed type s ≡ true
    → IsPermitted type s.controller.task.request
unfolding is_confirmed
is_confirmed-IsPermitted delete_media s h = h
is_confirmed-IsPermitted delete_all_media s h =
    let request = s.controller.task.request in
    elim (Option-cases (lookup (codes "confirm") request.parameters)) [
      | inl e ↦ ground arith
      | inr (value, e) ↦ ground (arith, text_eq_iff value (codes "DELETE_ALL"))
    ]
is_confirmed-IsPermitted type s h = tt

-- The tasks that need a connection to begin with.
unfoldable pub needs_connection : CameraTaskType → Bool
needs_connection list_devices = false
needs_connection initialize = false
needs_connection no_task = false
needs_connection auto_photo_sequence = false
needs_connection take_photo_download = false
needs_connection _ = true

module _ (p : Platform) where
  open p use {Device, is_connected}

  unless_confirmed :
      (type : CameraTaskType) (s : Session Device)
      → is_confirmed type s ≡ false
      → ((run_task p type s).device ≡ s.device)
        × ((run_task p type s).controller.snapshot.task_state ≡ failed)
  unfolding is_confirmed run_task begin_delete_media begin_delete_all_media when_connected enter
      fail fail_task reset_task
  unless_confirmed delete_media s h = ground arith
  unless_confirmed delete_all_media s h = ground arith
  unless_confirmed type s h = ground arith

  -- A task that deletes media has its confirmation, which for all media is also the parameter
  -- `confirm` with the value DELETE_ALL; or it has failed, and has left the camera alone.
  pub unconfirmed_delete_keeps_camera :
      (type : CameraTaskType) (s : Session Device)
      → IsPermitted type s.controller.task.request
        ⊎ (((run_task p type s).device ≡ s.device)
            × ((run_task p type s).controller.snapshot.task_state ≡ failed))
  unconfirmed_delete_keeps_camera type s = elim (Bool-cases (is_confirmed type s)) [
    | inl confirmed ↦ inl (is_confirmed-IsPermitted type s confirmed)
    | inr unconfirmed ↦ inr (unless_confirmed type s unconfirmed)
  ]

  -- Neither the camera nor a file is touched, and the task has failed for want of a connection.
  unfoldable pub IsRefused : Session Device → Session Device → Type 0
  IsRefused before after =
      (after.device ≡ before.device)
      × (after.files ≡ before.files)
      × (after.controller.snapshot.task_state ≡ failed)
      × (after.controller.snapshot.error_message ≡ codes "camera is not connected")

  refused :
      (b : Bool) (x s : Session Device)
      → b ≡ false
      → is_connected s.device ≡ false
      → IsRefused s (if b then x else fail p (codes "camera is not connected") s)
  unfolding IsRefused fail fail_task reset_task
  refused true x s h k = ground arith
  refused false x s h k = (refl, refl, refl, refl)

  -- Without a connection the tasks that need one fail with the same message, and neither the camera
  -- nor a file is touched.
  pub task_without_connection :
      (type : CameraTaskType) (s : Session Device)
      → needs_connection type ≡ true
      → is_connected s.device ≡ false
      → IsRefused s (run_task p type s)
  unfolding needs_connection run_task when_connected begin_set_mode begin_set_param begin_get_param
      begin_get_media_time begin_get_log begin_get_status begin_get_battery begin_get_storage
      begin_preview_start begin_preview_stop begin_shutdown_maint begin_record_start
      begin_record_stop begin_extended_capture_start begin_extended_capture_stop begin_list_media
      begin_download_media begin_batch_download begin_delete_media begin_delete_all_media
  task_without_connection no_task s h k = ground arith
  task_without_connection auto_photo_sequence s h k = ground arith
  task_without_connection take_photo_download s h k = ground arith
  task_without_connection set_mode s h k = refused _ _ s k k
  task_without_connection set_param s h k = refused _ _ s k k
  task_without_connection get_param s h k = refused _ _ s k k
  task_without_connection get_media_time s h k = refused _ _ s k k
  task_without_connection get_log s h k = refused _ _ s k k
  task_without_connection list_devices s h k = ground arith
  task_without_connection preview_start s h k = refused _ _ s k k
  task_without_connection preview_stop s h k = refused _ _ s k k
  task_without_connection shutdown_maint s h k = refused _ _ s k k
  task_without_connection start_recording s h k = refused _ _ s k k
  task_without_connection stop_recording s h k = refused _ _ s k k
  task_without_connection start_extended_capture s h k = refused _ _ s k k
  task_without_connection stop_extended_capture s h k = refused _ _ s k k
  task_without_connection list_media s h k = refused _ _ s k k
  task_without_connection download_media s h k = refused _ _ s k k
  task_without_connection batch_download s h k = refused _ _ s k k
  task_without_connection delete_media s h k = refused _ _ s k k
  task_without_connection delete_all_media s h k = refused _ _ s k k
  task_without_connection initialize s h k = ground arith
  task_without_connection get_status s h k = refused _ _ s k k
  task_without_connection get_capture_status s h k = refused _ _ s k k
  task_without_connection get_battery s h k = refused _ _ s k k
  task_without_connection get_storage s h k = refused _ _ s k k
