-- ===== src/CameraWorker/Fields.antt =====
-- Serialisation and parsing of task requests and snapshots in app/src/camera_worker.cpp.
use youyeetoo_rk3588_toolkit.Prelude.{
  ℕ, Bool, true, false, ◌&&◌, List, [], ◌∷◌, ◌++◌, Option, none, some, ℤ, pos, negsuc, get_elem?,
  if◌then◌else◌, ◌==◌,
}
use youyeetoo_rk3588_toolkit.Prelude.Text.{Text, codes, text_eq}
use youyeetoo_rk3588_toolkit.Prelude.Dict.{lookup}
use youyeetoo_rk3588_toolkit.Number.{stoi, int_text, to_string}
use youyeetoo_rk3588_toolkit.Camera.{CameraTaskRequest, CameraTaskType}
use youyeetoo_rk3588_toolkit.CameraWorker.{kv_encode, parse_kv}
use youyeetoo_rk3588_toolkit.CameraWorker.Codes.{task_type_code, task_types}

-- The values that the overloads of AppendKV take: texts, numbers of each width, and Booleans.
pub data Field : Type 0 where
  text : Text → Field
  int : ℤ → Field
  uint64 : ℕ → Field
  bool : Bool → Field

-- What AppendKV writes behind the equals sign.
unfoldable pub field_text : Field → Text
unfolding kv_encode int_text to_string
field_text (text v) = kv_encode v
field_text (int z) = int_text z
field_text (uint64 n) = to_string n
field_text (bool true) = b'1' ∷ []
field_text (bool false) = b'0' ∷ []

-- AppendKV for each of the fields in turn.
unfoldable pub append_fields : List (Text × Field) → Text
unfolding field_text
append_fields [] = []
append_fields ((k, v) ∷ rest) = (k ++ (b'=' ∷ field_text v)) ++ (10 ∷ append_fields rest)

-- What parsing a message comes to: false, an exception of a conversion, a number that no value of
-- an enumeration has (the program casts it; the model has no such value), or the parsed value.
pub data Reading {ℓ} (A : Type ℓ) : Type ℓ where
  refused : Reading A
  thrown : Reading A
  unnamed : Reading A
  parsed : A → Reading A

abbrev pub parameter_fields : List (Text × Text) → List (Text × Field)
parameter_fields [] = []
parameter_fields ((k, v) ∷ rest) = (b'p' ∷ b':' ∷ k, text v) ∷ parameter_fields rest

abbrev pub request_fields : CameraTaskRequest → List (Text × Field)
request_fields req =
    (codes "type", text (codes "task_request"))
    ∷ (codes "task_type", int (pos (task_type_code req.task_type)))
    ∷ (codes "task_id", int req.task_id)
    ∷ (codes "repeat_count", int req.repeat_count)
    ∷ (codes "output_dir", text req.output_dir)
    ∷ (codes "remote_path", text req.remote_path)
    ∷ (codes "local_path", text req.local_path)
    ∷ (codes "extended_mode", text req.extended_mode)
    ∷ (codes "batch_time_from", text req.batch_time_from)
    ∷ (codes "batch_time_to", text req.batch_time_to)
    ∷ (codes "target_camera_serial", text req.target_camera_serial)
    ∷ (codes "delete_confirmed", bool req.delete_confirmed)
    ∷ parameter_fields req.parameters

-- SerializeCameraTaskRequest
unfoldable pub serialize_request : CameraTaskRequest → Text
unfolding append_fields codes
serialize_request req = append_fields (request_fields req)

-- The lambda `get`.
unfoldable pub get_or_default : Text → Text → List (Text × Text) → Text
unfolding lookup
get_or_default key default kv = elim (lookup key kv) [ none ↦ default | some v ↦ v ]

-- The key of a parameter, in a key of the message.
abbrev parameter_key : Text → Option Text
parameter_key (p ∷ colon ∷ c ∷ k) = if p == b'p' && colon == b':' then some (c ∷ k) else none
parameter_key _ = none

-- The loop over the entries of the message that collects the parameters.
unfoldable pub read_parameters : List (Text × Text) → List (Text × Text)
read_parameters [] = []
read_parameters ((k, v) ∷ kv) =
    let rest = read_parameters kv in
    elim (parameter_key k) [ none ↦ rest | some key ↦ (key, v) ∷ rest ]

-- The value of an enumeration with the number.
abbrev pub named : {A : Type 0} → List A → ℤ → Option A
named values (pos n) = get_elem? values n
named values (negsuc n) = none

abbrev pub with_type : {A : Type 0} → Option CameraTaskType → (CameraTaskType → A) → Reading A
with_type none f = unnamed
with_type (some type) f = parsed (f type)

abbrev pub request_of :
    Option ℤ → Option ℤ → Option ℤ → List (Text × Text) → Reading CameraTaskRequest
request_of (some type) (some id) (some count) kv = with_type (named task_types type) (λ t. record {
  task_type = t;
  task_id = id;
  repeat_count = count;
  output_dir = get_or_default (codes "output_dir") [] kv;
  remote_path = get_or_default (codes "remote_path") [] kv;
  local_path = get_or_default (codes "local_path") [] kv;
  extended_mode = get_or_default (codes "extended_mode") [] kv;
  batch_time_from = get_or_default (codes "batch_time_from") [] kv;
  batch_time_to = get_or_default (codes "batch_time_to") [] kv;
  target_camera_serial = get_or_default (codes "target_camera_serial") [] kv;
  parameters = read_parameters kv;
  delete_confirmed = text_eq (get_or_default (codes "delete_confirmed") (codes "0") kv) (codes "1");
})
request_of _ _ _ kv = thrown

-- ParseCameraTaskRequest behind the test of the type.
unfoldable pub read_request : List (Text × Text) → Reading CameraTaskRequest
unfolding get_or_default stoi read_parameters task_types text_eq codes
read_request kv =
    request_of (stoi (get_or_default (codes "task_type") (codes "0") kv))
      (stoi (get_or_default (codes "task_id") (codes "0") kv))
      (stoi (get_or_default (codes "repeat_count") (codes "1") kv)) kv

-- Whether the entry `type` names the kind of message.
unfoldable pub is_kind : Text → List (Text × Text) → Bool
unfolding lookup text_eq
is_kind kind kv = elim (lookup (codes "type") kv) [ none ↦ false | some t ↦ text_eq t kind ]

-- ParseCameraTaskRequest
unfoldable pub parse_request : Text → Reading CameraTaskRequest
unfolding parse_kv read_request is_kind
parse_request msg =
    let kv = parse_kv msg in if is_kind (codes "task_request") kv then read_request kv else refused
