-- ===== src/CameraController/Recording.antt =====
-- The tasks of app/src/camera_controller.cpp that start and stop a recording or an extended capture.
use youyeetoo_rk3588_toolkit.Prelude.{Bool, true, false, ◌++◌, length, if◌then◌else◌}
use youyeetoo_rk3588_toolkit.Prelude.Text.{Text, codes, is_empty, text_eq}
use youyeetoo_rk3588_toolkit.Number.{to_string}
use youyeetoo_rk3588_toolkit.Result.{ok, err}
use youyeetoo_rk3588_toolkit.Camera.{CameraTaskState, recording, stopping_record, capturing}
use youyeetoo_rk3588_toolkit.CameraController.{
  Platform, Session, CaptureResult, fail, enter, when_connected, unless_failed,
}
use youyeetoo_rk3588_toolkit.CameraController.Queries.{with_device, on_snapshot, finish}

-- The state while an extended capture of the mode begins or ends.
abbrev capture_state : Text → CameraTaskState → CameraTaskState
capture_state mode otherwise =
    if text_eq mode (codes "interval_photo") then capturing else otherwise

abbrev pub has_media : CaptureResult → Bool
has_media result =
    if is_empty result.origin_urls
    then (if is_empty result.low_resolution_urls then false else true)
    else true

-- The counts that end the summary of a capture.
abbrev url_counts : CaptureResult → Text
url_counts result =
    codes " origin_urls="
    ++ to_string (length result.origin_urls)
    ++ codes " lrv_urls="
    ++ to_string (length result.low_resolution_urls)

module _ (p : Platform) where
  open p use {
    Device, start_recording, stop_recording, start_extended_capture, stop_extended_capture,
  }

  -- A capture that has ended: its media are the outputs, and none is an error.
  unfoldable pub end_capture :
      CaptureResult → (error summary : Text) → Session Device → Session Device
  unfolding fail finish
  end_capture result error summary s =
      if has_media result
      then finish p (summary ++ url_counts result) (
          on_snapshot p
            (λ n. record n { outputs = result.origin_urls ++ result.low_resolution_urls }) s)
      else fail p error s

  unfoldable pub begin_record_start : Session Device → Session Device
  unfolding when_connected enter fail finish
  begin_record_start = when_connected p (λ s.
      let s1 = enter p recording s in
      let (result, device) = start_recording s.controller.task.request.parameters s1.device in
      let s2 = with_device p device s1 in
      elim result [
        | ok summary ↦ finish p (if is_empty summary then codes "recording started" else summary) s2
        | err message ↦
            fail p (if is_empty message then codes "failed to start recording" else message) s2
      ])

  unfoldable pub begin_record_stop : Session Device → Session Device
  unfolding when_connected enter end_capture
  begin_record_stop = when_connected p (λ s.
      let s1 = enter p stopping_record s in
      let (result, device) = stop_recording s1.device in
      end_capture result (codes "failed to stop recording or no media returned")
        (codes "recording stopped") (with_device p device s1))

  unfoldable pub begin_extended_capture_start : Session Device → Session Device
  unfolding when_connected enter fail unless_failed finish
  begin_extended_capture_start = when_connected p (λ s.
      let mode = s.controller.task.request.extended_mode in
      let s1 = enter p (capture_state mode recording) s in
      let (failure, device) = start_extended_capture mode s1.device in
      let s2 = with_device p device s1 in
      if is_empty mode
      then fail p (codes "extended capture start requires mode") s
      else unless_failed p failure s2
          (finish p (codes "extended capture started mode=" ++ mode) s2))

  unfoldable pub begin_extended_capture_stop : Session Device → Session Device
  unfolding when_connected enter fail end_capture
  begin_extended_capture_stop = when_connected p (λ s.
      let mode = s.controller.task.request.extended_mode in
      let s1 = enter p (capture_state mode stopping_record) s in
      let ((result, message), device) = stop_extended_capture mode s1.device in
      if is_empty mode
      then fail p (codes "extended capture stop requires mode") s
      else end_capture result
          (if is_empty message then codes "extended capture stop returned no media" else message)
          (codes "extended capture stopped mode=" ++ mode) (with_device p device s1))
