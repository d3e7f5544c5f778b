-- ===== src/CameraController/Finish/Ticks.antt =====
-- The tick of app/src/camera_controller.cpp with a task that is no photo task.
use youyeetoo_rk3588_toolkit.Prelude.{
  arith, ap, ◌∙◌, ℕ, ltb, refl, Option, some, if◌then◌else◌, ◌≡◌, Bool, true, false,
}
use youyeetoo_rk3588_toolkit.Prelude.Text.{Text}
use youyeetoo_rk3588_toolkit.Camera.{
  CameraTaskType, timed_out, no_task, auto_photo_sequence, take_photo_download, set_mode, set_param,
  get_param, get_media_time, get_log, list_devices, preview_start, preview_stop, shutdown_maint,
  start_recording, stop_recording, start_extended_capture, stop_extended_capture, list_media,
  download_media, batch_download, delete_media, delete_all_media, initialize, get_status,
  get_capture_status, get_battery, get_storage,
}
use youyeetoo_rk3588_toolkit.CameraController.{
  set_device_state, is_no_task, Session, Platform, is_final, is_task_finished, fail_task,
  reset_task,
}
use youyeetoo_rk3588_toolkit.CameraController.Connection.{
  tick_connection, try_open, after_attempt, enter_fatal, leave_fatal, stay_connected,
  wait_reconnect, tick_status_poll,
}
use youyeetoo_rk3588_toolkit.CameraController.Loop.{
  run_task, tick_photo, dispatch_task, tick_task, tick, is_photo,
}
use youyeetoo_rk3588_toolkit.CameraController.Photo.{continue_photo}
use youyeetoo_rk3588_toolkit.CameraController.Photo.Termination.{photos-ends}
use youyeetoo_rk3588_toolkit.CameraController.Finish.{
  IsFinished, begin_set_mode-IsFinished, begin_set_param-IsFinished, begin_get_param-IsFinished,
  begin_get_media_time-IsFinished, begin_get_log-IsFinished, begin_list_devices-IsFinished,
  begin_initialize-IsFinished, begin_get_status-IsFinished, begin_get_battery-IsFinished,
  begin_get_storage-IsFinished, begin_preview_start-IsFinished, begin_preview_stop-IsFinished,
  begin_shutdown_maint-IsFinished, begin_record_start-IsFinished, begin_record_stop-IsFinished,
  begin_extended_capture_start-IsFinished, begin_extended_capture_stop-IsFinished,
}
use youyeetoo_rk3588_toolkit.CameraController.Finish.Media.{
  begin_list_media-IsFinished, begin_download_media-IsFinished, begin_batch_download-IsFinished,
  begin_delete_media-IsFinished, begin_delete_all_media-IsFinished,
}

module _ (p : Platform) where
  open p use {Device}

  run_task-IsFinished :
      (type : CameraTaskType) (s : Session Device)
      → is_no_task type ≡ false
      → is_photo type ≡ false
      → IsFinished (run_task p type s)
  unfolding run_task is_no_task
  run_task-IsFinished no_task s h k = ground arith
  run_task-IsFinished auto_photo_sequence s h k = ground arith
  run_task-IsFinished take_photo_download s h k = ground arith
  run_task-IsFinished set_mode s h k = begin_set_mode-IsFinished p s
  run_task-IsFinished set_param s h k = begin_set_param-IsFinished p s
  run_task-IsFinished get_param s h k = begin_get_param-IsFinished p s
  run_task-IsFinished get_media_time s h k = begin_get_media_time-IsFinished p s
  run_task-IsFinished get_log s h k = begin_get_log-IsFinished p s
  run_task-IsFinished list_devices s h k = begin_list_devices-IsFinished p s
  run_task-IsFinished preview_start s h k = begin_preview_start-IsFinished p s
  run_task-IsFinished preview_stop s h k = begin_preview_stop-IsFinished p s
  run_task-IsFinished shutdown_maint s h k = begin_shutdown_maint-IsFinished p s
  run_task-IsFinished start_recording s h k = begin_record_start-IsFinished p s
  run_task-IsFinished stop_recording s h k = begin_record_stop-IsFinished p s
  run_task-IsFinished start_extended_capture s h k = begin_extended_capture_start-IsFinished p s
  run_task-IsFinished stop_extended_capture s h k = begin_extended_capture_stop-IsFinished p s
  run_task-IsFinished list_media s h k = begin_list_media-IsFinished p s
  run_task-IsFinished download_media s h k = begin_download_media-IsFinished p s
  run_task-IsFinished batch_download s h k = begin_batch_download-IsFinished p s
  run_task-IsFinished delete_media s h k = begin_delete_media-IsFinished p s
  run_task-IsFinished delete_all_media s h k = begin_delete_all_media-IsFinished p s
  run_task-IsFinished initialize s h k = begin_initialize-IsFinished p s
  run_task-IsFinished get_status s h k = begin_get_status-IsFinished p s
  run_task-IsFinished get_capture_status s h k = begin_get_status-IsFinished p s
  run_task-IsFinished get_battery s h k = begin_get_battery-IsFinished p s
  run_task-IsFinished get_storage s h k = begin_get_storage-IsFinished p s

  -- The branches of TickTask for a task that is no photo task.
  branch-IsFinished :
      (has late photo : Bool) (x y s : Session Device) (o : Option (Session Device))
      → has ≡ true
      → photo ≡ false
      → IsFinished x
      → IsFinished y
      → (s' : Session Device) × ((if has
            then if late then some x else (if photo then o else some y)
            else some s)
          ≡ some s')
        × IsFinished s'
  branch-IsFinished true true photo x y s o h k l m = (x, refl, l)
  branch-IsFinished true false false x y s o h k l m = (y, refl, m)
  branch-IsFinished true false true x y s o h k l m = ground arith
  branch-IsFinished false late photo x y s o h k l m = ground arith

  timed_out-IsFinished :
      (now : ℕ) (connected : Bool) (message : Text) (s : Session Device)
      → IsFinished
          (record s { controller = fail_task connected now timed_out message s.controller })
  unfolding IsFinished is_no_task fail_task reset_task is_task_finished is_final
  timed_out-IsFinished now connected message s = (refl, refl, refl)

  pub tick_task-IsFinished :
      (now : ℕ) (s : Session Device)
      → s.controller.has_task ≡ true
      → is_no_task s.controller.task.request.task_type ≡ false
      → is_photo s.controller.task.request.task_type ≡ false
      → (s' : Session Device) × (tick_task p now s ≡ some s') × IsFinished s'
  unfolding tick_task dispatch_task
  tick_task-IsFinished now s h k l =
      branch-IsFinished s.controller.has_task (ltb s.controller.task.deadline now)
        (is_photo s.controller.task.request.task_type) _
        (run_task p s.controller.task.request.task_type s) s (tick_photo p now s) h l
        (timed_out-IsFinished (p.clock s.device) (p.is_connected s.device) _ s)
        (run_task-IsFinished s.controller.task.request.task_type s k l)

  tick_connection-task :
      (now : ℕ) (s : Session Device)
      → ((tick_connection p now s).controller.has_task ≡ s.controller.has_task)
        × ((tick_connection p now s).controller.task ≡ s.controller.task)
  unfolding tick_connection try_open after_attempt enter_fatal leave_fatal stay_connected
      wait_reconnect set_device_state
  tick_connection-task now s = ground arith

  tick_status_poll-task :
      (now : ℕ) (s : Session Device)
      → ((tick_status_poll p now s).controller.has_task ≡ s.controller.has_task)
        × ((tick_status_poll p now s).controller.task ≡ s.controller.task)
  unfolding tick_status_poll
  tick_status_poll-task now s = ground arith

  -- A tick of a session with a task that is no photo task always gives a result, in which the task
  -- is over and its state is Completed, Failed, TimedOut or Cancelled.
  pub tick-IsFinished :
      (s : Session Device)
      → s.controller.has_task ≡ true
      → is_no_task s.controller.task.request.task_type ≡ false
      → is_photo s.controller.task.request.task_type ≡ false
      → (s' : Session Device) × (tick p s ≡ some s') × IsFinished s'
  unfolding tick
  tick-IsFinished s h k l =
      let now = p.clock s.device in
      let (c_has, c_task) = tick_connection-task now s in
      let (t_has, t_task) = tick_status_poll-task now (tick_connection p now s) in
      tick_task-IsFinished now (tick_status_poll p now (tick_connection p now s))
        (t_has ∙ c_has ∙ h) (ap (λ t. is_no_task t.request.task_type) (t_task ∙ c_task) ∙ k)
        (ap (λ t. is_photo t.request.task_type) (t_task ∙ c_task) ∙ l)

  if-ends :
      (b : Bool) (x y : Option (Session Device))
      → ((s : Session Device) × (x ≡ some s))
      → ((s : Session Device) × (y ≡ some s))
      → (s : Session Device) × ((if b then x else y) ≡ some s)
  if-ends true x y h k = h
  if-ends false x y h k = k

  some-ends : (s : Session Device) → (s' : Session Device) × (some s ≡ some s')
  some-ends s = (s, refl)

  tick_photo-ends :
      (now : ℕ) (s : Session Device) → (s' : Session Device) × (tick_photo p now s ≡ some s')
  unfolding tick_photo
  tick_photo-ends now s =
      if-ends _ _ _ (photos-ends p now (true, s))
        (if-ends _ _ _ (photos-ends p now (continue_photo p now s)) (some-ends s))

  -- A tick gives a result in every state of the session: the fuel of a photo task is never used up.
  pub tick-ends : (s : Session Device) → (s' : Session Device) × (tick p s ≡ some s')
  unfolding tick tick_task dispatch_task
  tick-ends s =
      let now = p.clock s.device in
      let s1 = tick_status_poll p now (tick_connection p now s) in
      if-ends _ _ _
        (if-ends _ _ _ (some-ends _) (if-ends _ _ _ (tick_photo-ends now s1) (some-ends _)))
        (some-ends s1)
