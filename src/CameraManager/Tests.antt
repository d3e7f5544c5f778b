-- ===== src/CameraManager/Tests.antt =====
-- A run of the camera manager on simulated cameras.
use youyeetoo_rk3588_toolkit.Prelude.{◌≡◌, refl, sym, ap, true, false, [], ◌∷◌, Option, none, some}
use youyeetoo_rk3588_toolkit.Prelude.Text.{Text, codes, text_eq}
use youyeetoo_rk3588_toolkit.Camera.{CameraTaskRequest}
use youyeetoo_rk3588_toolkit.CameraPortResolver.{
  UsbFilter, UsbDevice, scan_usb_serials, load_port_lines, join_ports,
}
use youyeetoo_rk3588_toolkit.CameraController.Tests.{
  SimulatedCamera, simulated, empty_disk, two_second_options, fresh_controller, photo_request,
}
use youyeetoo_rk3588_toolkit.CameraManager.{CameraManager, resolve_target_serial}
use youyeetoo_rk3588_toolkit.CameraManager.Requests.{start_task, resolve_request}
use youyeetoo_rk3588_toolkit.CameraManager.Routing.{start_task-IsActive}
use youyeetoo_rk3588_toolkit.CameraManager.Choice.{IsActive, IsKeyed}

abbrev pub no_filter : UsbFilter
no_filter = record { vendor_id = none; product_id = none }

abbrev on_port_1 : UsbDevice
on_port_1 = record {
  port_path = codes "1-1";
  id_vendor = some (codes "2e1a\n");
  id_product = some (codes "0002\n");
  serial = some (codes "S7\n");
  product = some (codes "Insta360 X4 Air\n");
}

abbrev pub closed_camera : SimulatedCamera
closed_camera = record { now = 1000; is_open = false; can_open = true }

-- The default session has no camera, and the first slot is that of the camera S7.
abbrev pub two_slots : CameraManager SimulatedCamera
two_slots = record {
  options = two_second_options;
  default_session = record {
    target_serial = [];
    controller = fresh_controller;
    device = closed_camera;
  };
  named_sessions = [];
  last_active_session_key = [];
  slot_to_serial = (codes "cam0", codes "S7") ∷ (codes "cam1", []) ∷ [];
  files = empty_disk;
  next_id = 1;
}

abbrev slot_request : Text → CameraTaskRequest
slot_request slot = record photo_request { target_camera_serial = slot }

-- The slots of a port map: the second port has no camera.
slots_resolve :
    join_ports
      (load_port_lines (codes "# slots" ∷ codes "cam0 = 1-1" ∷ codes "cam1=2-1" ∷ []) [])
      (scan_usb_serials no_filter (on_port_1 ∷ []) [])
    ≡ (codes "cam0", codes "S7") ∷ (codes "cam1", []) ∷ []
unfolding join_ports load_port_lines scan_usb_serials codes
slots_resolve = refl

empty_slot_refused :
    start_task simulated no_filter [] closed_camera (slot_request (codes "cam1")) two_slots
    ≡ (two_slots, false)
unfolding start_task codes
empty_slot_refused = refl

target_of : Option CameraTaskRequest → Text
target_of none = []
target_of (some request) = request.target_camera_serial

no_reserved_target :
    (resolved : CameraTaskRequest)
    → resolve_request (slot_request (codes "cam0")) two_slots ≡ some resolved
    → text_eq (resolve_target_serial resolved.target_camera_serial two_slots) (codes "__default__")
      ≡ false
unfolding target_of resolve_request codes text_eq
no_reserved_target resolved e =
    sym (ap (λ o. text_eq (resolve_target_serial (target_of o) two_slots) (codes "__default__")) e)

start_task-IsActive_example :
    IsActive
      (start_task simulated no_filter [] closed_camera (slot_request (codes "cam0")) two_slots).0
unfolding start_task codes IsKeyed
start_task-IsActive_example =
    start_task-IsActive simulated no_filter [] closed_camera (slot_request (codes "cam0")) two_slots
      (refl, tt) no_reserved_target refl
