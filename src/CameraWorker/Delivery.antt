-- ===== src/CameraWorker/Delivery.antt =====
-- A task request of app/src/camera_worker.cpp reaches the worker as the caller gave it.
use youyeetoo_rk3588_toolkit.Prelude.{
  ℕ, ◌≡◌, refl, ap, ◌∙◌, Bool, true, false, not, ◌&&◌, List, [], ◌∷◌, ◌++◌, none, some, pos, All,
  arith, ◌==◌, if◌then◌else◌, get_elem?,
}
use youyeetoo_rk3588_toolkit.Prelude.Text.{Text, codes, text_eq, is_empty}
use youyeetoo_rk3588_toolkit.Prelude.Dict.{lookup}
use youyeetoo_rk3588_toolkit.Number.Decimal.{IsSigned, stoi-int_text}
use youyeetoo_rk3588_toolkit.Camera.{CameraTaskRequest, CameraTaskType}
use youyeetoo_rk3588_toolkit.CameraWorker.{parse_kv}
use youyeetoo_rk3588_toolkit.CameraWorker.Codes.{task_type_code, task_types}
use youyeetoo_rk3588_toolkit.CameraWorker.Messages.{IsKey}
use youyeetoo_rk3588_toolkit.CameraWorker.Fields.{
  bool, Reading, refused, parsed, parameter_fields, request_fields, serialize_request,
  parse_request, read_request, read_parameters, get_or_default, is_kind,
}
use youyeetoo_rk3588_toolkit.CameraWorker.RoundTrip.{
  entries, shown, IsMap, are_keys-IsKey, is_map, is_map-IsMap, All-append, IsMap-append,
  parse_kv-append_fields,
}

-- A request that the source can hold: its numbers are of type int, its parameters are a map, and
-- their keys are no empty texts and have neither an equals sign nor a newline.
pub record IsRequest (req : CameraTaskRequest) : Type 0 where
  pub id_range : IsSigned 31 req.task_id
  pub count_range : IsSigned 31 req.repeat_count
  pub one_line_keys : All IsKey req.parameters
  pub distinct_keys : IsMap req.parameters
  pub no_empty_key : All (λ e. is_empty e.0 ≡ false) req.parameters

pub task_types-task_type_code :
    (t : CameraTaskType) → get_elem? task_types (task_type_code t) ≡ some t
unfolding task_types task_type_code
task_types-task_type_code t = ground arith

-- The parameters as entries of the message.
abbrev prefixed : List (Text × Text) → List (Text × Text)
prefixed ps = entries (parameter_fields ps)

prefixed-IsKey : (ps : List (Text × Text)) → All IsKey ps → All IsKey (prefixed ps)
prefixed-IsKey [] h = tt
prefixed-IsKey ((k, v) ∷ ps) ((a, b), hs) =
    (((refl, (refl, a)), (refl, (refl, b))), prefixed-IsKey ps hs)

lookup-prefixed :
    (k : Text) (ps : List (Text × Text))
    → lookup k ps ≡ none
    → lookup (b'p' ∷ b':' ∷ k) (prefixed ps) ≡ none
unfolding lookup text_eq
lookup-prefixed k [] h = refl
lookup-prefixed k ((j, v) ∷ ps) h = ground (arith, lookup-prefixed k ps)

prefixed-IsMap : (ps : List (Text × Text)) → IsMap ps → IsMap (prefixed ps)
prefixed-IsMap [] h = tt
prefixed-IsMap ((k, v) ∷ ps) (h, hs) = (lookup-prefixed k ps h, prefixed-IsMap ps hs)

-- A key that does not begin as those of the parameters do is none of theirs.
absent_prefixed :
    (c : ℕ) (k : Text) (ps : List (Text × Text))
    → (b'p' == c) ≡ false
    → lookup (c ∷ k) (prefixed ps) ≡ none
unfolding lookup text_eq
absent_prefixed c k [] h = refl
absent_prefixed c k ((j, v) ∷ ps) h = rw h (absent_prefixed c k ps h)

read_parameters-prefixed :
    (ps : List (Text × Text))
    → All (λ e. is_empty e.0 ≡ false) ps
    → read_parameters (prefixed ps) ≡ ps
unfolding read_parameters
read_parameters-prefixed [] h = refl
read_parameters-prefixed (([], v) ∷ ps) (h, hs) = ground arith
read_parameters-prefixed ((c ∷ k, v) ∷ ps) (h, hs) =
    ap (λ (rest : List (Text × Text)). (c ∷ k, v) ∷ rest) (read_parameters-prefixed ps hs)

pub code_range : (t : CameraTaskType) → IsSigned 31 (pos (task_type_code t))
unfolding task_type_code
code_range t = ground arith

-- Of a request without parameters.
abbrev bare : CameraTaskRequest → CameraTaskRequest
bare req = record req { parameters = [] }

entries-append :
    (req : CameraTaskRequest)
    → entries (request_fields req) ≡ entries (request_fields (bare req)) ++ prefixed req.parameters
entries-append req = refl

keys_are_keys : (req : CameraTaskRequest) → All IsKey (entries (request_fields (bare req)))
unfolding codes
keys_are_keys req = are_keys-IsKey (entries (request_fields (bare req))) refl

keys-IsMap : (req : CameraTaskRequest) → IsMap (entries (request_fields (bare req)))
unfolding codes is_map lookup text_eq
keys-IsMap req = is_map-IsMap (entries (request_fields (bare req))) refl

-- No key begins as those of the parameters do.
abbrev begins_apart : Text → Bool
begins_apart [] = false
begins_apart (c ∷ k) = not (b'p' == c)

abbrev begin_apart : List (Text × Text) → Bool
begin_apart [] = true
begin_apart ((k, v) ∷ es) = begins_apart k && begin_apart es

absent_key :
    (k : Text) (ps : List (Text × Text)) → begins_apart k ≡ true → lookup k (prefixed ps) ≡ none
absent_key [] ps h = ground arith
absent_key (c ∷ k) ps h = absent_prefixed c k ps (ground arith)

keys_apart :
    (es ps : List (Text × Text))
    → begin_apart es ≡ true
    → All (λ e. lookup e.0 (prefixed ps) ≡ none) es
keys_apart [] ps h = tt
keys_apart ((k, v) ∷ es) ps h = (absent_key k ps (ground arith), keys_apart es ps (ground arith))

entries-parse :
    (req : CameraTaskRequest)
    → IsRequest req
    → parse_kv (serialize_request req) ≡ entries (request_fields req)
unfolding serialize_request codes
entries-parse req h =
    parse_kv-append_fields (request_fields req)
      (All-append IsKey (entries (request_fields (bare req))) (prefixed req.parameters)
        (keys_are_keys req) (prefixed-IsKey req.parameters h.one_line_keys))
      (IsMap-append (entries (request_fields (bare req))) (prefixed req.parameters) (keys-IsMap req)
        (prefixed-IsMap req.parameters h.distinct_keys)
        (keys_apart (entries (request_fields (bare req))) req.parameters refl))

confirmed : (b : Bool) → text_eq (shown (bool b)) (codes "1") ≡ b
unfolding text_eq codes
confirmed true = refl
confirmed false = refl

read-entries :
    (req : CameraTaskRequest)
    → IsRequest req
    → read_request (entries (request_fields req)) ≡ parsed req
unfolding read_request codes lookup text_eq get_or_default read_parameters
read-entries req h =
    rw
      (
        stoi-int_text (pos (task_type_code req.task_type)) (code_range req.task_type),
        stoi-int_text req.task_id h.id_range,
        stoi-int_text req.repeat_count h.count_range,
      )
      (rw
        (
          task_types-task_type_code req.task_type,
          confirmed req.delete_confirmed,
          read_parameters-prefixed req.parameters h.no_empty_key,
        )
        refl)

-- A serialised request is parsed as itself, if its numbers are in the range of int and its parameters
-- are a map whose keys are no empty texts and have neither an equals sign nor a newline.
pub parse_request-serialize_request :
    (req : CameraTaskRequest) → IsRequest req → parse_request (serialize_request req) ≡ parsed req
unfolding parse_request is_kind
parse_request-serialize_request req h =
    let parse : List (Text × Text) → Reading CameraTaskRequest =
      λ kv. if is_kind (codes "task_request") kv then read_request kv else refused in
    ap parse (entries-parse req h) ∙ read-entries req h
