-- ===== src/CameraManager/Routing.antt =====
-- StartTask of app/src/camera_manager.cpp and what HasActiveTask, IsTaskFinished and snapshot then
-- say: they look at the session that took the task.
use youyeetoo_rk3588_toolkit.Prelude.{
  ◌≡◌, refl, sym, ap, ◌∙◌, inl, inr, Bool, true, false, List, Option, none, some, if◌then◌else◌,
}
use youyeetoo_rk3588_toolkit.Prelude.Text.{codes, text_eq}
use youyeetoo_rk3588_toolkit.Camera.{CameraInfo, CameraTaskRequest}
use youyeetoo_rk3588_toolkit.CameraPortResolver.{UsbFilter, UsbDevice}
use youyeetoo_rk3588_toolkit.CameraController.{
  Platform, CameraController, set_device_list_supplements, start_task as start_controller_task,
}
use youyeetoo_rk3588_toolkit.CameraController.Lifecycle.{start_task-IsQueued}
use youyeetoo_rk3588_toolkit.CameraManager.{
  CameraSession, CameraManager, SessionRef, default, named, session_key, resolve_target_serial,
  adjust_request, session_of, after_session, shared_with,
}
use youyeetoo_rk3588_toolkit.CameraManager.Requests.{
  collect_known_cameras, is_list_devices, start_in_session, choose_session, resolve_request,
  start_task,
}
use youyeetoo_rk3588_toolkit.CameraManager.Choice.{
  IsRef, IsKeyed, IsActive, Fits, choose_session-Fits, either_way, put_session-IsActive,
  IsQueued-state,
}

module _ (p : Platform) where
  open p use {Device}

  target-IsRef :
      (ref : SessionRef) (s t : CameraSession Device)
      → t.target_serial ≡ s.target_serial
      → IsRef ref s
      → IsRef ref t
  unfolding IsRef
  target-IsRef default s t e h = e ∙ h
  target-IsRef (named key) s t e (h, k, l) = (e ∙ h, k, l)

  supplied-target :
      (b : Bool) (s : CameraSession Device) (c : CameraController)
      → (if b then record s { controller = c } else s).target_serial ≡ s.target_serial
  supplied-target true s c = refl
  supplied-target false s c = refl

  start_in_session-IsActive :
      (known : List CameraInfo) (request : CameraTaskRequest)
      (chosen : SessionRef × CameraSession Device) (cm : CameraManager Device)
      → Fits p (some chosen)
      → (start_in_session p known request chosen cm).1 ≡ true
      → IsActive (start_in_session p known request chosen cm).0
  unfolding start_in_session Fits
  start_in_session-IsActive known request (ref, s) cm f h =
      let s1 =
        if is_list_devices request.task_type
        then record s { controller = set_device_list_supplements known s.controller }
        else s in
      let queued_lem =
        start_task-IsQueued p (adjust_request request s cm.files) (session_of s1 cm) in
      let t = (start_controller_task p (adjust_request request s cm.files) (session_of s1 cm)).0 in
      elim queued_lem.1 [
        | inl (accepted, waits) ↦
            put_session-IsActive ref (after_session s1 t)
              (record (shared_with t cm) { last_active_session_key = session_key s.target_serial })
              (target-IsRef ref s (after_session s1 t)
                (supplied-target (is_list_devices request.task_type) s
                  (set_device_list_supplements known s.controller))
                f)
              (IsQueued-state _ _ waits).0 (IsQueued-state _ _ waits).1
              (ap session_key (
                sym (
                  supplied-target (is_list_devices request.task_type) s
                    (set_device_list_supplements known s.controller))))
        | inr (refused, same) ↦ either_way h refused
      ]

  accepted-IsActive :
      (begin : CameraTaskRequest → CameraManager Device × Bool) (cm : CameraManager Device)
      (o : Option CameraTaskRequest)
      → ((resolved : CameraTaskRequest)
          → o ≡ some resolved
          → (begin resolved).1 ≡ true
          → IsActive (begin resolved).0)
      → (elim o as (λ x. CameraManager Device × Bool) [
        | none ↦ (cm, false)
        | some resolved ↦ begin resolved
      ]).1
        ≡ true
      → IsActive
          (elim o as (λ x. CameraManager Device × Bool) [
            | none ↦ (cm, false)
            | some resolved ↦ begin resolved
          ]).0
  accepted-IsActive begin cm none f e = either_way e refl
  accepted-IsActive begin cm (some resolved) f e = f resolved refl e

  -- If StartTask accepts a request, there is an active task, the snapshot shows it in the state
  -- Queued, and it is not finished, whichever session took it: the keys of the sessions are their
  -- targets, and the serial number that the request names or resolves to is not the reserved key.
  pub start_task-IsActive :
      (filter : UsbFilter) (devices : List UsbDevice) (adapter : Device)
      (request : CameraTaskRequest) (cm : CameraManager Device)
      → IsKeyed cm
      → ((resolved : CameraTaskRequest)
          → resolve_request request cm ≡ some resolved
          → text_eq (resolve_target_serial resolved.target_camera_serial cm) (codes "__default__")
            ≡ false)
      → (start_task p filter devices adapter request cm).1 ≡ true
      → IsActive (start_task p filter devices adapter request cm).0
  unfolding start_task
  start_task-IsActive filter devices adapter request cm k r h =
      accepted-IsActive
        (λ resolved.
          start_in_session p (collect_known_cameras p filter devices cm) resolved
            (choose_session p adapter (resolve_target_serial resolved.target_camera_serial cm) cm)
            cm)
        cm (resolve_request request cm)
        (λ resolved e.
          start_in_session-IsActive (collect_known_cameras p filter devices cm) resolved
            (choose_session p adapter (resolve_target_serial resolved.target_camera_serial cm) cm)
            cm
            (choose_session-Fits p adapter (resolve_target_serial resolved.target_camera_serial cm)
              cm k (r resolved e)))
        h
