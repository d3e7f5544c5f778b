-- ===== src/CameraController/Connection/Recovery.antt =====
-- The reconnection of a camera in TickConnection of app/src/camera_controller.cpp: the attempts and
-- the cool-down behind them.
use youyeetoo_rk3588_toolkit.Prelude.{
  arith, List, [], ◌∷◌, ◌⊎◌, ◌≡◌, refl, ap, ◌∙◌, ℕ, ◌+◌, ◌≤◌, ◌<◌, true, false, ℤ, pos, negsuc,
  leb_ℤ, suc_ℤ,
}
use youyeetoo_rk3588_toolkit.Prelude.Text.{Text}
use youyeetoo_rk3588_toolkit.Camera.{fatal}
use youyeetoo_rk3588_toolkit.CameraController.{
  Platform, CameraController, Session, fail, fail_task, reset_task, set_device_state,
}
use youyeetoo_rk3588_toolkit.CameraController.Connection.{
  tick_connection, try_open, after_attempt, enter_fatal, leave_fatal, stay_connected,
  wait_reconnect, is_exhausted, is_fatal, reconnect_attempt_limit, fatal_reconnect_cooldown,
}

-- The failed attempts are at most the limit.
unfoldable pub IsBounded : CameraController → Type 0
IsBounded c = leb_ℤ c.snapshot.recover_attempts reconnect_attempt_limit ≡ true

leb_ℤ-suc_ℤ : (x : ℤ) → leb_ℤ (pos 10) x ≡ false → leb_ℤ (suc_ℤ x) (pos 10) ≡ true
leb_ℤ-suc_ℤ (pos n) h = ground arith
leb_ℤ-suc_ℤ (negsuc n) h = ground arith

module _ (p : Platform) where
  open p use {Device, is_connected, open_camera}

  -- The number of failed attempts stays within the limit.
  pub tick_connection-IsBounded :
      (now : ℕ) (s : Session Device)
      → IsBounded s.controller
      → IsBounded (tick_connection p now s).controller
  unfolding IsBounded tick_connection try_open after_attempt enter_fatal leave_fatal stay_connected
      wait_reconnect set_device_state
  tick_connection-IsBounded now s h =
      ground (arith, leb_ℤ-suc_ℤ s.controller.snapshot.recover_attempts)

  -- A camera that is not connected after ten failed attempts: the next tick starts the cool-down.
  pub enters_cooldown :
      (now : ℕ) (s : Session Device)
      → is_connected s.device ≡ false
      → is_exhausted s.controller ≡ true
      → is_fatal s.controller.snapshot.device_state ≡ false
      → tick_connection p now s ≡ record s { controller = enter_fatal now s.controller }
  unfolding tick_connection enter_fatal
  enters_cooldown now s h k l = ground arith

  -- In it nothing happens, and behind it the camera is opened again.
  pub cooldown :
      (now later : ℕ) (s : Session Device)
      → is_connected s.device ≡ false
      → is_exhausted s.controller ≡ true
      → is_fatal s.controller.snapshot.device_state ≡ false
      → (let s1 = tick_connection p now s in
          let s2 = tick_connection p later s1 in
          ((later < now + fatal_reconnect_cooldown) × (s2 ≡ s1))
          ⊎ ((now + fatal_reconnect_cooldown ≤ later)
              × (s2.device
                  ≡ (open_camera s.controller.options.serial_number s.controller.options.timeout_ms
                      s.device).1)))
  unfolding tick_connection try_open after_attempt enter_fatal leave_fatal wait_reconnect
      set_device_state
  cooldown now later s h k l = ground arith

  -- A task that fails in the cool-down starts it again.
  pub failing_task_restarts_cooldown :
      (now : ℕ) (message : Text) (s : Session Device)
      → is_connected s.device ≡ false
      → is_exhausted s.controller ≡ true
      → (let s1 = tick_connection p now (fail p message s) in
          (s1.device ≡ s.device)
          × (s1.controller.next_reconnect_time ≡ now + fatal_reconnect_cooldown)
          × (s1.controller.snapshot.device_state ≡ fatal)
          × (is_exhausted s1.controller ≡ true))
  unfolding tick_connection try_open enter_fatal fail fail_task reset_task
  failing_task_restarts_cooldown now message s h k = ground arith

  -- Rounds of a task that fails and of the tick of the connection that follows it.
  unfoldable pub failing_rounds : List ℕ → Text → Session Device → Session Device
  failing_rounds [] message s = s
  failing_rounds (now ∷ times) message s =
      failing_rounds times message (tick_connection p now (fail p message s))

  -- A camera that is not connected after ten failed attempts is not opened again while a task fails
  -- between any two ticks, however long that lasts.
  pub failing_rounds-starve :
      (times : List ℕ) (message : Text) (s : Session Device)
      → is_connected s.device ≡ false
      → is_exhausted s.controller ≡ true
      → (failing_rounds times message s).device ≡ s.device
  unfolding failing_rounds
  failing_rounds-starve [] message s h k = refl
  failing_rounds-starve (now ∷ times) message s h k =
      let (same, next, state, exhausted) = failing_task_restarts_cooldown now message s h k in
      failing_rounds-starve times message (tick_connection p now (fail p message s))
        (ap is_connected same ∙ h) exhausted
      ∙ same
