-- ===== src/CameraManager/Requests.antt =====
-- Configure, Tick and StartTask of app/src/camera_manager.cpp.
use youyeetoo_rk3588_toolkit.Prelude.{
  Bool, true, false, not, ◌&&◌, ◌||◌, List, [], ◌∷◌, Option, none, some, if◌then◌else◌,
}
use youyeetoo_rk3588_toolkit.Prelude.Text.{Text, text_eq, is_empty}
use youyeetoo_rk3588_toolkit.Prelude.Dict.{lookup}
use youyeetoo_rk3588_toolkit.Camera.{
  CameraAppOptions, CameraInfo, CameraTaskRequest, CameraTaskType, default_snapshot, list_devices,
}
use youyeetoo_rk3588_toolkit.CameraPortResolver.{
  UsbFilter, UsbDevice, is_slot_name, resolve, scan_usb_cameras,
}
use youyeetoo_rk3588_toolkit.UserDataStore.{sanitize_namespace}
use youyeetoo_rk3588_toolkit.CameraController.{
  Platform, new_task, set_device_list_supplements, configure as configure_controller,
  start_task as start_controller_task,
}
use youyeetoo_rk3588_toolkit.CameraController.Loop.{tick as tick_controller}
use youyeetoo_rk3588_toolkit.CameraManager.{
  CameraSession, CameraManager, SessionRef, default, named, session_key, session_options,
  session_of, after_session, shared_with, put_session, resolve_slot_name, resolve_target_serial,
  adjust_request,
}

abbrev pub is_list_devices : CameraTaskType → Bool
is_list_devices list_devices = true
is_list_devices _ = false

-- What merge_session of CollectKnownCameras does with a camera.
unfoldable pub merge_camera : CameraInfo → List CameraInfo → List CameraInfo
unfolding text_eq
merge_camera info [] = info ∷ []
merge_camera info (camera ∷ cameras) =
    let rest = merge_camera info cameras in
    if text_eq camera.serial_number info.serial_number then info ∷ cameras else camera ∷ rest

-- The request with a slot name as its target replaced by the serial number of the slot.
unfoldable pub resolve_request :
    {D : Type 0} → CameraTaskRequest → CameraManager D → Option CameraTaskRequest
unfolding is_slot_name resolve_slot_name
resolve_request request cm =
    if is_slot_name request.target_camera_serial
    then (elim (resolve_slot_name request.target_camera_serial cm) [
      | none ↦ none
      | some serial ↦ some (record request { target_camera_serial = serial })
    ])
    else some request

module _ (p : Platform) where
  open p use {Device, clock, is_connected, current_serial_number, current_camera_info}

  -- ConfigureSession
  unfoldable pub configure_session :
      CameraManager Device → CameraSession Device → CameraSession Device
  unfolding configure_controller
  configure_session cm s =
      after_session s
        (configure_controller p (session_options cm.options s.target_serial) (session_of s cm))

  unfoldable pub configure_named :
      CameraManager Device → List (Text × CameraSession Device) → List (Text × CameraSession Device)
  unfolding configure_session
  configure_named cm [] = []
  configure_named cm ((key, s) ∷ rest) = (key, configure_session cm s) ∷ configure_named cm rest

  -- Configure
  unfoldable pub configure :
      CameraAppOptions → UsbFilter → List UsbDevice → CameraManager Device → CameraManager Device
  unfolding configure_session configure_named resolve
  configure options filter devices cm =
      let cm' = record cm { options = options } in
      record cm' {
        default_session = configure_session cm' cm.default_session;
        named_sessions = configure_named cm' cm.named_sessions;
        slot_to_serial =
            if is_empty options.port_map_path
            then cm.slot_to_serial
            else resolve options.port_map_path filter devices cm.files;
      }

  -- The ticks of the named sessions, in the order of their keys; `none` where one of them has none.
  unfoldable pub tick_named :
      List (Text × CameraSession Device)
      → CameraManager Device
      → Option (List (Text × CameraSession Device) × CameraManager Device)
  unfolding tick_controller
  tick_named [] cm = some ([], cm)
  tick_named ((key, s) ∷ rest) cm = elim (tick_controller p (session_of s cm)) [
    | none ↦ none
    | some t ↦ elim (tick_named rest (shared_with t cm)) [
      | none ↦ none
      | some (ticked, cm') ↦ some ((key, after_session s t) ∷ ticked, cm')
    ]
  ]

  -- Tick
  unfoldable pub tick : CameraManager Device → Option (CameraManager Device)
  unfolding tick_controller tick_named
  tick cm = elim (tick_controller p (session_of cm.default_session cm)) [
    | none ↦ none
    | some t ↦
        let cm1 = record (shared_with t cm) {
          default_session = after_session cm.default_session t;
        } in
        elim (tick_named cm.named_sessions cm1) [
          | none ↦ none
          | some (ticked, cm2) ↦ some (record cm2 { named_sessions = ticked })
        ]
  ]

  -- The constructor of CameraSession, and ConfigureSession, for an adapter that is new.
  unfoldable pub new_session : Device → Text → CameraManager Device → CameraSession Device
  new_session adapter serial cm = record {
    target_serial = serial;
    controller = record {
      options = session_options cm.options serial;
      snapshot = default_snapshot;
      task = new_task (clock adapter);
      has_task = false;
      device_list_supplements = [];
      next_poll_time = clock adapter;
      next_reconnect_time = clock adapter;
      camera_namespace = sanitize_namespace serial;
    };
    device = adapter;
  }

  -- GetOrCreateSession
  unfoldable pub get_or_create_session :
      Device → Text → CameraManager Device → SessionRef × CameraSession Device
  unfolding new_session lookup text_eq
  get_or_create_session adapter serial cm =
      let own = cm.options.serial_number in
      if is_empty serial || (not (is_empty own) && text_eq serial own)
      then (default, cm.default_session)
      else elim (lookup (session_key serial) cm.named_sessions) [
        | some s ↦ (named (session_key serial), s)
        | none ↦ (named (session_key serial), new_session adapter serial cm)
      ]

  -- The loop of FindSessionByActualSerial over the named sessions.
  unfoldable pub find_named :
      Text → List (Text × CameraSession Device) → Option (SessionRef × CameraSession Device)
  unfolding text_eq
  find_named serial [] = none
  find_named serial ((key, s) ∷ rest) =
      let found = find_named serial rest in
      if text_eq (current_serial_number s.device) serial then some (named key, s) else found

  -- FindSessionByActualSerial
  unfoldable pub find_session_by_actual_serial :
      Text → CameraManager Device → Option (SessionRef × CameraSession Device)
  unfolding find_named text_eq
  find_session_by_actual_serial serial cm =
      if is_empty serial
      then none
      else if text_eq (current_serial_number cm.default_session.device) serial
      then some (default, cm.default_session)
      else find_named serial cm.named_sessions

  -- The session that StartTask chooses.
  unfoldable pub choose_session :
      Device → Text → CameraManager Device → SessionRef × CameraSession Device
  unfolding find_session_by_actual_serial get_or_create_session
  choose_session adapter serial cm = elim (find_session_by_actual_serial serial cm) [
    | some chosen ↦ chosen
    | none ↦ get_or_create_session adapter serial cm
  ]

  merge_session : CameraSession Device → List CameraInfo → List CameraInfo
  unfolding merge_camera
  merge_session s cameras =
      let info = current_camera_info s.device in
      if is_connected s.device && not (is_empty info.serial_number)
      then merge_camera info cameras
      else cameras

  merge_named : List (Text × CameraSession Device) → List CameraInfo → List CameraInfo
  unfolding merge_session
  merge_named [] cameras = cameras
  merge_named ((key, s) ∷ rest) cameras = merge_named rest (merge_session s cameras)

  -- CollectKnownCameras
  unfoldable pub collect_known_cameras :
      UsbFilter → List UsbDevice → CameraManager Device → List CameraInfo
  unfolding scan_usb_cameras merge_session merge_named
  collect_known_cameras filter devices cm =
      merge_named cm.named_sessions
        (merge_session cm.default_session (scan_usb_cameras filter devices))

  -- StartTask behind the choice of the session.
  unfoldable pub start_in_session :
      List CameraInfo
      → CameraTaskRequest
      → SessionRef × CameraSession Device
      → CameraManager Device
      → CameraManager Device × Bool
  unfolding adjust_request set_device_list_supplements start_controller_task put_session
  start_in_session known request (ref, s) cm =
      let s1 =
        if is_list_devices request.task_type
        then record s { controller = set_device_list_supplements known s.controller }
        else s in
      let (t, accepted) =
        start_controller_task p (adjust_request request s cm.files) (session_of s1 cm) in
      (
        put_session ref (after_session s1 t)
            (record (shared_with t cm) { last_active_session_key = session_key s.target_serial }),
        accepted,
      )

  -- StartTask; `adapter` is that of a session that has to be made.
  unfoldable pub start_task :
      UsbFilter
      → List UsbDevice
      → (adapter : Device) → CameraTaskRequest
      → CameraManager Device
      → CameraManager Device × Bool
  unfolding resolve_request choose_session collect_known_cameras start_in_session
  start_task filter devices adapter request cm = elim (resolve_request request cm) [
    | none ↦ (cm, false)
    | some resolved ↦
        start_in_session (collect_known_cameras filter devices cm) resolved
          (choose_session adapter (resolve_target_serial resolved.target_camera_serial cm) cm) cm
  ]
