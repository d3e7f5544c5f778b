-- ===== src/CameraWorker/Snapshots.antt =====
-- Serialisation and parsing of the camera's snapshot in app/src/camera_worker.cpp.
use youyeetoo_rk3588_toolkit.Prelude.{
  ℕ, ◌-◌, ◌^◌, Bool, not, List, [], ◌∷◌, Option, none, some, ℤ, pos, negsuc, eq_ℤ, ltb,
  if◌then◌else◌,
}
use youyeetoo_rk3588_toolkit.Prelude.Text.{Text, codes, is_empty}
use youyeetoo_rk3588_toolkit.Prelude.Dict.{lookup}
use youyeetoo_rk3588_toolkit.Number.{stoi, stoll, stoull}
use youyeetoo_rk3588_toolkit.Camera.{
  CameraTaskType, CameraTaskState, CameraDeviceState, CameraControllerSnapshot,
}
use youyeetoo_rk3588_toolkit.CameraWorker.{parse_kv}
use youyeetoo_rk3588_toolkit.CameraWorker.Codes.{
  device_state_code, device_states, task_type_code, task_types, task_state_code, task_states,
}
use youyeetoo_rk3588_toolkit.CameraWorker.Fields.{
  Field, text, int, uint64, bool, append_fields, Reading, refused, thrown, unnamed, parsed, named,
  get_or_default, is_kind,
}

-- The casts between uint32_t and int.
unfoldable pub int_of_uint32 : ℕ → ℤ
int_of_uint32 n = if ltb n (2 ^ 31) then pos n else negsuc (2 ^ 32 - n - 1)

unfoldable pub uint32_of_int : ℤ → ℕ
uint32_of_int (pos n) = n
uint32_of_int (negsuc n) = 2 ^ 32 - n - 1

abbrev pub snapshot_fields : CameraControllerSnapshot → List (Text × Field)
snapshot_fields snap =
    let rs = snap.runtime_status in
    (codes "type", text (codes "snapshot"))
    ∷ (codes "device_state", int (pos (device_state_code snap.device_state)))
    ∷ (codes "task_type", int (pos (task_type_code snap.task_type)))
    ∷ (codes "task_state", int (pos (task_state_code snap.task_state)))
    ∷ (codes "recover_attempts", int snap.recover_attempts)
    ∷ (codes "completed_iterations", int snap.completed_iterations)
    ∷ (codes "total_iterations", int snap.total_iterations)
    ∷ (codes "result_summary", text snap.result_summary)
    ∷ (codes "error_message", text snap.error_message)
    ∷ (codes "rs_connected", bool rs.connected)
    ∷ (codes "rs_capturing", bool rs.is_capturing)
    ∷ (codes "rs_battery_ok", bool rs.battery_ok)
    ∷ (codes "rs_storage_ok", bool rs.storage_ok)
    ∷ (codes "rs_media_time_ok", bool rs.media_time_ok)
    ∷ (codes "rs_battery_level", int (int_of_uint32 rs.battery.battery_level))
    ∷ (codes "rs_battery_scale", int (int_of_uint32 rs.battery.battery_scale))
    ∷ (codes "rs_battery_type", text rs.battery.power_type)
    ∷ (codes "rs_storage_state", text rs.storage.storage_state)
    ∷ (codes "rs_storage_free", uint64 rs.storage.free_space)
    ∷ (codes "rs_storage_total", uint64 rs.storage.total_space)
    ∷ (codes "rs_media_time", int rs.media_time)
    ∷ (codes "rs_recent_error", text rs.recent_error)
    ∷ []

-- SerializeCameraSnapshot
unfoldable pub serialize_snapshot : CameraControllerSnapshot → Text
unfolding append_fields codes int_of_uint32 device_state_code task_type_code task_state_code
serialize_snapshot snap = append_fields (snapshot_fields snap)

-- The number that std::stoi gives, and 0 where it throws.
abbrev pub or_zero : Option ℤ → ℤ
or_zero none = pos 0
or_zero (some z) = z

unfoldable pub int_of : Option Text → ℤ
unfolding stoi
int_of none = pos 0
int_of (some v) = if is_empty v then pos 0 else or_zero (stoi v)

-- The lambda `geti` with the default 0: an empty text and a failed conversion give 0 as well.
unfoldable pub get_int : Text → List (Text × Text) → ℤ
unfolding lookup int_of
get_int key kv = int_of (lookup key kv)

-- The lambda `getb`.
unfoldable pub get_bool : Text → List (Text × Text) → Bool
unfolding get_int
get_bool key kv = not (eq_ℤ (get_int key kv) (pos 0))

abbrev pub snapshot_of :
    Option CameraDeviceState
    → Option CameraTaskType
    → Option CameraTaskState
    → (time : ℤ) (free total : ℕ) → List (Text × Text)
    → Reading CameraControllerSnapshot
snapshot_of (some device) (some type) (some state) time free total kv = parsed (record {
  device_state = device;
  task_type = type;
  task_state = state;
  runtime_status = record {
    connected = get_bool (codes "rs_connected") kv;
    is_capturing = get_bool (codes "rs_capturing") kv;
    battery_ok = get_bool (codes "rs_battery_ok") kv;
    storage_ok = get_bool (codes "rs_storage_ok") kv;
    media_time_ok = get_bool (codes "rs_media_time_ok") kv;
    battery = record {
      power_type = get_or_default (codes "rs_battery_type") [] kv;
      battery_level = uint32_of_int (get_int (codes "rs_battery_level") kv);
      battery_scale = uint32_of_int (get_int (codes "rs_battery_scale") kv);
    };
    storage = record {
      storage_state = get_or_default (codes "rs_storage_state") [] kv;
      free_space = free;
      total_space = total;
    };
    media_time = time;
    recent_error = get_or_default (codes "rs_recent_error") [] kv;
  };
  recover_attempts = get_int (codes "recover_attempts") kv;
  completed_iterations = get_int (codes "completed_iterations") kv;
  total_iterations = get_int (codes "total_iterations") kv;
  outputs = [];
  result_summary = get_or_default (codes "result_summary") [] kv;
  error_message = get_or_default (codes "error_message") [] kv;
})
snapshot_of _ _ _ time free total kv = unnamed

-- The conversions that may throw.
abbrev pub converted :
    Option ℤ → Option ℕ → Option ℕ → List (Text × Text) → Reading CameraControllerSnapshot
converted (some time) (some free) (some total) kv =
    snapshot_of (named device_states (get_int (codes "device_state") kv))
      (named task_types (get_int (codes "task_type") kv))
      (named task_states (get_int (codes "task_state") kv)) time free total kv
converted _ _ _ kv = thrown

-- ParseCameraSnapshot, into a snapshot with the default values, behind the test of the type.
unfoldable pub read_snapshot : List (Text × Text) → Reading CameraControllerSnapshot
unfolding get_or_default get_int get_bool stoll stoull codes device_states task_types task_states
    uint32_of_int
read_snapshot kv =
    converted (stoll (get_or_default (codes "rs_media_time") (codes "0") kv))
      (stoull (get_or_default (codes "rs_storage_free") (codes "0") kv))
      (stoull (get_or_default (codes "rs_storage_total") (codes "0") kv)) kv

-- ParseCameraSnapshot
unfoldable pub parse_snapshot : Text → Reading CameraControllerSnapshot
unfolding parse_kv read_snapshot is_kind
parse_snapshot msg =
    let kv = parse_kv msg in if is_kind (codes "snapshot") kv then read_snapshot kv else refused
