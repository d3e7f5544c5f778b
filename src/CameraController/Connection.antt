-- ===== src/CameraController/Connection.antt =====
-- The connection to the camera in app/src/camera_controller.cpp: TickConnection, and the status poll.
pub mod Recovery
use youyeetoo_rk3588_toolkit.Prelude.{
  ℕ, ◌+◌, ◌*◌, Bool, true, false, [], ℤ, pos, suc_ℤ, leb_ℤ, add_ℤ, ltb, if◌then◌else◌,
}
use youyeetoo_rk3588_toolkit.Prelude.Text.{codes}
use youyeetoo_rk3588_toolkit.Camera.{
  CameraDeviceState, CameraRuntimeStatus, unavailable, connecting, idle, busy, error_recover, fatal,
}
use youyeetoo_rk3588_toolkit.CameraController.{
  Platform, CameraController, Session, set_device_state,
}

abbrev pub reconnect_attempt_limit : ℤ
reconnect_attempt_limit = pos 10

abbrev pub fatal_reconnect_cooldown : ℕ
fatal_reconnect_cooldown = 30 * 1000

abbrev pub is_fatal : CameraDeviceState → Bool
is_fatal fatal = true
is_fatal _ = false

abbrev is_error_recover : CameraDeviceState → Bool
is_error_recover error_recover = true
is_error_recover _ = false

abbrev awaits_connection : CameraDeviceState → Bool
awaits_connection connecting = true
awaits_connection unavailable = true
awaits_connection error_recover = true
awaits_connection _ = false

-- Busy with a task, idle without.
abbrev ready_state : CameraController → CameraDeviceState
ready_state c = if c.has_task then busy else idle

-- TickConnection for a camera that is connected.
unfoldable pub stay_connected : CameraController → CameraController
unfolding set_device_state
stay_connected c =
    if awaits_connection c.snapshot.device_state then set_device_state (ready_state c) c else c

abbrev pub is_exhausted : CameraController → Bool
is_exhausted c = leb_ℤ reconnect_attempt_limit c.snapshot.recover_attempts

-- The part of TickConnection for exhausted attempts, before it looks at the cool-down.
unfoldable pub enter_fatal : ℕ → CameraController → CameraController
enter_fatal now c = if is_fatal c.snapshot.device_state then c else record c {
  snapshot = record c.snapshot {
    device_state = fatal;
    error_message = codes "reconnect attempts exhausted; retrying after cooldown";
  };
  next_reconnect_time = now + fatal_reconnect_cooldown;
}

-- What follows when the cool-down is over.
unfoldable pub leave_fatal : CameraController → CameraController
leave_fatal c = record c {
  snapshot = record c.snapshot {
    recover_attempts = pos 0;
    error_message = [];
    device_state = error_recover;
  };
}

-- A tick before the time of the next attempt.
unfoldable pub wait_reconnect : CameraController → CameraController
unfolding set_device_state
wait_reconnect c =
    if is_error_recover c.snapshot.device_state then c else set_device_state unavailable c

-- The controller behind an attempt to open the camera.
unfoldable pub after_attempt : (now : ℕ) (success : Bool) → CameraController → CameraController
after_attempt now true c = record c {
  snapshot = record c.snapshot { recover_attempts = pos 0; device_state = ready_state c };
}
after_attempt now false c = record c {
  snapshot = record c.snapshot {
    recover_attempts = suc_ℤ c.snapshot.recover_attempts;
    device_state = error_recover;
    runtime_status = record c.snapshot.runtime_status {
      connected = false;
      recent_error = codes "camera_open_failed";
    };
  };
  next_reconnect_time = add_ℤ now c.options.poll_interval_ms;
}

-- CollectRuntimeStatus
unfoldable pub collect_runtime_status : (connected : Bool) → CameraController → CameraRuntimeStatus
collect_runtime_status true c = record c.snapshot.runtime_status {
  connected = true;
  is_capturing = false;
  recent_error = [];
}
collect_runtime_status false c = record c.snapshot.runtime_status {
  connected = false;
  is_capturing = false;
  battery_ok = false;
  storage_ok = false;
  media_time_ok = false;
  recent_error = codes "camera_not_connected";
}

module _ (p : Platform) where
  open p use {Device, is_connected, open_camera}

  -- An attempt to open the camera, if its time has come.
  unfoldable pub try_open : ℕ → Session Device → Session Device
  unfolding after_attempt wait_reconnect
  try_open now s =
      let c = s.controller in
      let (success, device) = open_camera c.options.serial_number c.options.timeout_ms s.device in
      if ltb now c.next_reconnect_time
      then record s { controller = wait_reconnect c }
      else record s { controller = after_attempt now success c; device = device }

  -- TickConnection
  unfoldable pub tick_connection : ℕ → Session Device → Session Device
  unfolding try_open enter_fatal leave_fatal stay_connected
  tick_connection now s =
      let c = s.controller in
      let c' = enter_fatal now c in
      if is_connected s.device
      then record s { controller = stay_connected c }
      else if is_exhausted c
      then if ltb now c'.next_reconnect_time
        then record s { controller = c' }
        else try_open now (record s { controller = leave_fatal c' })
      else try_open now s

  -- TickStatusPoll
  unfoldable pub tick_status_poll : ℕ → Session Device → Session Device
  unfolding collect_runtime_status
  tick_status_poll now s =
      let c = s.controller in
      if ltb now c.next_poll_time then s else record s {
        controller = record c {
          snapshot = record c.snapshot {
            runtime_status = collect_runtime_status (is_connected s.device) c;
          };
          next_poll_time = add_ℤ now c.options.poll_interval_ms;
        };
      }
