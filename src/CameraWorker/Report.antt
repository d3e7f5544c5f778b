-- ===== src/CameraWorker/Report.antt =====
-- A snapshot of app/src/camera_worker.cpp reaches the service as the worker had it, but for its outputs.
use youyeetoo_rk3588_toolkit.Prelude.{
  ℕ, ◌≡◌, refl, ap, ◌∙◌, Bool, true, false, not, List, [], ◌∷◌, some, ℤ, pos, eq_ℤ, arith,
  if◌then◌else◌, ◌^◌, ◌<◌, get_elem?,
}
use youyeetoo_rk3588_toolkit.Prelude.Text.{Text, codes, text_eq, is_empty}
use youyeetoo_rk3588_toolkit.Prelude.Dict.{lookup}
use youyeetoo_rk3588_toolkit.Number.{int_text, stoi}
use youyeetoo_rk3588_toolkit.Number.Decimal.{
  IsSigned, stoi-int_text, stoll-int_text, stoull-to_string,
}
use youyeetoo_rk3588_toolkit.Camera.{CameraControllerSnapshot, CameraDeviceState, CameraTaskState}
use youyeetoo_rk3588_toolkit.CameraWorker.{parse_kv}
use youyeetoo_rk3588_toolkit.CameraWorker.Codes.{
  task_type_code, task_state_code, task_states, device_state_code, device_states,
}
use youyeetoo_rk3588_toolkit.CameraWorker.Fields.{
  bool, Reading, refused, parsed, get_or_default, is_kind,
}
use youyeetoo_rk3588_toolkit.CameraWorker.Snapshots.{
  int_of_uint32, uint32_of_int, snapshot_fields, serialize_snapshot, get_int, get_bool, int_of,
  or_zero, read_snapshot, parse_snapshot,
}
use youyeetoo_rk3588_toolkit.CameraWorker.RoundTrip.{
  entries, shown, are_keys-IsKey, is_map, is_map-IsMap, parse_kv-append_fields,
}
use youyeetoo_rk3588_toolkit.CameraWorker.Delivery.{task_types-task_type_code, code_range}

-- A snapshot that the source can hold: its numbers are of the types of its fields.
pub record IsSnapshot (s : CameraControllerSnapshot) : Type 0 where
  pub attempts : IsSigned 31 s.recover_attempts
  pub completed_count : IsSigned 31 s.completed_iterations
  pub total : IsSigned 31 s.total_iterations
  pub level : s.runtime_status.battery.battery_level < 2 ^ 32
  pub scale : s.runtime_status.battery.battery_scale < 2 ^ 32
  pub free : s.runtime_status.storage.free_space < 2 ^ 64
  pub space : s.runtime_status.storage.total_space < 2 ^ 64
  pub time : IsSigned 63 s.runtime_status.media_time

device_code_range : (d : CameraDeviceState) → IsSigned 31 (pos (device_state_code d))
unfolding device_state_code
device_code_range d = ground arith

state_code_range : (t : CameraTaskState) → IsSigned 31 (pos (task_state_code t))
unfolding task_state_code
state_code_range t = ground arith

device_states-device_state_code :
    (d : CameraDeviceState) → get_elem? device_states (device_state_code d) ≡ some d
unfolding device_states device_state_code
device_states-device_state_code d = ground arith

task_states-task_state_code :
    (t : CameraTaskState) → get_elem? task_states (task_state_code t) ≡ some t
unfolding task_states task_state_code
task_states-task_state_code t = ground arith

-- A uint32_t survives the cast to int and back.
pub uint32_of_int-int_of_uint32 : (n : ℕ) → n < 2 ^ 32 → uint32_of_int (int_of_uint32 n) ≡ n
unfolding uint32_of_int int_of_uint32
uint32_of_int-int_of_uint32 n h = ground arith

int_of_uint32_range : (n : ℕ) → n < 2 ^ 32 → IsSigned 31 (int_of_uint32 n)
unfolding int_of_uint32
int_of_uint32_range n h = ground arith

nonempty : (s : Text) (z : ℤ) → stoi s ≡ some z → is_empty s ≡ false
unfolding stoi
nonempty [] z h = ground arith
nonempty (c ∷ s) z h = refl

int_text_nonempty : (z : ℤ) → IsSigned 31 z → is_empty (int_text z) ≡ false
int_text_nonempty z h = nonempty (int_text z) z (stoi-int_text z h)

get_int_at :
    (key : Text) (z : ℤ) (kv : List (Text × Text))
    → IsSigned 31 z
    → lookup key kv ≡ some (int_text z)
    → get_int key kv ≡ z
unfolding get_int int_of
get_int_at key z kv h e = ap int_of e ∙ rw (int_text_nonempty z h) (ap or_zero (stoi-int_text z h))

get_bool_at :
    (key : Text) (b : Bool) (kv : List (Text × Text))
    → lookup key kv ≡ some (shown (bool b))
    → get_bool key kv ≡ b
unfolding get_bool get_int
get_bool_at key b kv e = ap (λ o. not (eq_ℤ (int_of o) (pos 0))) e ∙ flag b
  where
    flag : (b : Bool) → not (eq_ℤ (int_of (some (shown (bool b)))) (pos 0)) ≡ b
    flag true = refl
    flag false = refl

abbrev fields_of : CameraControllerSnapshot → List (Text × Text)
fields_of s = entries (snapshot_fields s)

entries-parse_snapshot :
    (s : CameraControllerSnapshot) → parse_kv (serialize_snapshot s) ≡ fields_of s
unfolding serialize_snapshot codes is_map lookup text_eq
entries-parse_snapshot s =
    parse_kv-append_fields (snapshot_fields s) (are_keys-IsKey (fields_of s) refl)
      (is_map-IsMap (fields_of s) refl)

-- What the reading of a snapshot's fields comes to.
abbrev without_outputs : CameraControllerSnapshot → CameraControllerSnapshot
without_outputs s = record s { outputs = [] }

module _ (s : CameraControllerSnapshot) (h : IsSnapshot s) where
  -- A number of the snapshot, an unsigned one, and a flag, as their fields are read.
  number :
      (key : Text) (z : ℤ)
      → IsSigned 31 z
      → lookup key (fields_of s) ≡ some (int_text z)
      → get_int key (fields_of s) ≡ z
  number key z = get_int_at key z (fields_of s)

  unsigned :
      (key : Text) (n : ℕ)
      → n < 2 ^ 32
      → lookup key (fields_of s) ≡ some (int_text (int_of_uint32 n))
      → uint32_of_int (get_int key (fields_of s)) ≡ n
  unsigned key n l e =
      ap uint32_of_int (number key (int_of_uint32 n) (int_of_uint32_range n l) e)
      ∙ uint32_of_int-int_of_uint32 n l

  flag_of :
      (key : Text) (b : Bool)
      → lookup key (fields_of s) ≡ some (shown (bool b))
      → get_bool key (fields_of s) ≡ b
  flag_of key b = get_bool_at key b (fields_of s)

  read_snapshot-fields : read_snapshot (fields_of s) ≡ parsed (without_outputs s)
  unfolding read_snapshot codes lookup text_eq get_or_default
  read_snapshot-fields =
      let rs = s.runtime_status in
      rw
        (
          stoll-int_text rs.media_time h.time,
          stoull-to_string rs.storage.free_space h.free,
          stoull-to_string rs.storage.total_space h.space,
          number (codes "device_state") (pos (device_state_code s.device_state))
              (device_code_range s.device_state) refl,
          number (codes "task_type") (pos (task_type_code s.task_type)) (code_range s.task_type)
              refl,
          number (codes "task_state") (pos (task_state_code s.task_state))
              (state_code_range s.task_state) refl,
          device_states-device_state_code s.device_state,
          task_types-task_type_code s.task_type,
          task_states-task_state_code s.task_state,
        )
        (rw
          (
            number (codes "recover_attempts") s.recover_attempts h.attempts refl,
            number (codes "completed_iterations") s.completed_iterations h.completed_count refl,
            number (codes "total_iterations") s.total_iterations h.total refl,
            unsigned (codes "rs_battery_level") rs.battery.battery_level h.level refl,
            unsigned (codes "rs_battery_scale") rs.battery.battery_scale h.scale refl,
            flag_of (codes "rs_connected") rs.connected refl,
            flag_of (codes "rs_capturing") rs.is_capturing refl,
            flag_of (codes "rs_battery_ok") rs.battery_ok refl,
            flag_of (codes "rs_storage_ok") rs.storage_ok refl,
            flag_of (codes "rs_media_time_ok") rs.media_time_ok refl,
          )
          refl)

  -- A serialised snapshot is parsed as the snapshot with no outputs, if its numbers are in the ranges
  -- of their types.
  pub parse_snapshot-serialize_snapshot :
      parse_snapshot (serialize_snapshot s) ≡ parsed (record s { outputs = [] })
  unfolding parse_snapshot is_kind
  parse_snapshot-serialize_snapshot =
      let parse : List (Text × Text) → Reading CameraControllerSnapshot =
        λ kv. if is_kind (codes "snapshot") kv then read_snapshot kv else refused in
      ap parse (entries-parse_snapshot s) ∙ read_snapshot-fields
