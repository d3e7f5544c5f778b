-- ===== src/CameraManager.antt =====
-- app/src/camera_manager.cpp: the sessions with the cameras, one of them the default one, and the
-- session that a request goes to. A session has its own camera; the files and the counter of
-- NextTaskId are those of all. What the file system of USB devices shows is an argument, and so is
-- the adapter that a new session would get. The log lines and the configuration of the log of an
-- adapter are left out.

pub mod Requests
pub mod Choice
pub mod Routing
pub mod Ticking
pub mod Tests
use youyeetoo_rk3588_toolkit.Prelude.{
  ℕ, Bool, true, false, not, ◌&&◌, ◌||◌, List, [], ◌∷◌, ◌++◌, Option, none, some, if◌then◌else◌,
}
use youyeetoo_rk3588_toolkit.Prelude.Text.{Text, codes, text_eq, is_empty}
use youyeetoo_rk3588_toolkit.Prelude.Dict.{lookup}
use youyeetoo_rk3588_toolkit.FileSystem.{FileSystem}
use youyeetoo_rk3588_toolkit.UserDataStore.{default_output_dir, sanitize_namespace}
use youyeetoo_rk3588_toolkit.Camera.{
  CameraAppOptions, CameraInfo, CameraTaskRequest, CameraTaskType, CameraControllerSnapshot,
  default_snapshot, list_devices,
}
use youyeetoo_rk3588_toolkit.CameraPortResolver.{
  Dict, UsbFilter, UsbDevice, is_slot_name, resolve, scan_usb_cameras,
}
use youyeetoo_rk3588_toolkit.CameraController.{
  Platform, CameraController, Session, new_task, set_device_list_supplements, is_task_finished,
}
use youyeetoo_rk3588_toolkit.CameraController.Selection.{text_ltb}

-- `device` is the camera behind the adapter of the session.
pub record CameraSession (Device : Type 0) : Type 0 where
  pub target_serial : Text
  pub controller : CameraController
  pub device : Device

-- `files` and `next_id` are what the sessions share.
pub record CameraManager (Device : Type 0) : Type 0 where
  pub options : CameraAppOptions
  pub default_session : CameraSession Device
  pub named_sessions : List (Text × CameraSession Device)
  pub last_active_session_key : Text
  pub slot_to_serial : Dict
  pub files : FileSystem
  pub next_id : ℕ

-- SessionKeyForSerial
abbrev pub session_key : Text → Text
session_key serial = if is_empty serial then codes "__default__" else serial

-- The options of a session.
abbrev pub session_options : CameraAppOptions → Text → CameraAppOptions
session_options options serial =
    if is_empty serial then options else record options { serial_number = serial }

-- m.find(k)->second = v, and m.emplace(k, v) where there is no k: the keys of a map are in order.
unfoldable pub put {ℓ} : {V : Type ℓ} → Text → V → List (Text × V) → List (Text × V)
unfolding text_ltb text_eq
put k v [] = (k, v) ∷ []
put k v ((j, w) ∷ m) =
    let rest = put k v m in
    if text_eq j k then (k, v) ∷ m else if text_ltb k j then (k, v) ∷ (j, w) ∷ m else (j, w) ∷ rest

-- What a session works on, and the session and the manager behind it.
abbrev pub session_of : {D : Type 0} → CameraSession D → CameraManager D → Session D
session_of s cm = record {
  controller = s.controller;
  files = cm.files;
  device = s.device;
  next_id = cm.next_id;
}

abbrev pub after_session : {D : Type 0} → CameraSession D → Session D → CameraSession D
after_session s t = record s { controller = t.controller; device = t.device }

abbrev pub shared_with : {D : Type 0} → Session D → CameraManager D → CameraManager D
shared_with t cm = record cm { files = t.files; next_id = t.next_id }

-- A session in the manager: the default one, or the one with the key.
pub data SessionRef : Type 0 where
  default : SessionRef
  named : Text → SessionRef

unfoldable pub put_session :
    {D : Type 0} → SessionRef → CameraSession D → CameraManager D → CameraManager D
unfolding put
put_session default s cm = record cm { default_session = s }
put_session (named key) s cm = record cm { named_sessions = put key s cm.named_sessions }

-- The loop of HasActiveTask over the named sessions.
unfoldable pub any_active : {D : Type 0} → List (Text × CameraSession D) → Bool
any_active [] = false
any_active ((key, s) ∷ rest) = s.controller.has_task || any_active rest

-- HasActiveTask
unfoldable pub has_active_task : {D : Type 0} → CameraManager D → Bool
unfolding any_active
has_active_task cm = cm.default_session.controller.has_task || any_active cm.named_sessions

-- IsTaskFinished
unfoldable pub is_active_task_finished : {D : Type 0} → CameraManager D → Bool
unfolding lookup is_task_finished
is_active_task_finished cm =
    let key =
      if is_empty cm.last_active_session_key
      then session_key cm.options.serial_number
      else cm.last_active_session_key in
    if text_eq key (codes "__default__")
    then is_task_finished cm.default_session.controller
    else elim (lookup key cm.named_sessions) [
      | none ↦ false
      | some s ↦ is_task_finished s.controller
    ]

-- snapshot
unfoldable pub active_snapshot : {D : Type 0} → CameraManager D → CameraControllerSnapshot
unfolding lookup
active_snapshot cm =
    let key = cm.last_active_session_key in
    if is_empty key || text_eq key (codes "__default__")
    then cm.default_session.controller.snapshot
    else elim (lookup key cm.named_sessions) [
      | none ↦ cm.default_session.controller.snapshot
      | some s ↦ s.controller.snapshot
    ]

-- ResolveSlotName
unfoldable pub resolve_slot_name : {D : Type 0} → Text → CameraManager D → Option Text
unfolding lookup
resolve_slot_name slot_name cm = elim (lookup slot_name cm.slot_to_serial) [
  | none ↦ none
  | some serial ↦ if is_empty serial then none else some serial
]

-- ResolveTargetSerial, of a target that may be a slot name that StartTask has resolved.
abbrev pub resolve_target_serial : {D : Type 0} → Text → CameraManager D → Text
resolve_target_serial target cm = if is_empty target then cm.options.serial_number else target

-- AdjustRequestForSession
unfoldable pub adjust_request :
    {D : Type 0} → CameraTaskRequest → CameraSession D → FileSystem → CameraTaskRequest
unfolding default_output_dir sanitize_namespace text_eq
adjust_request request s fs =
    let own_dir = default_output_dir (sanitize_namespace s.target_serial) fs in
    if is_empty s.target_serial then request else record request {
      target_camera_serial = s.target_serial;
      output_dir =
          if is_empty request.output_dir || text_eq request.output_dir (codes "runtime_data/camera")
          then own_dir
          else if text_eq request.output_dir (codes "runtime_data/camera/batch")
          then own_dir ++ codes "/batch"
          else request.output_dir;
    }
