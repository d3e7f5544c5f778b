-- ===== src/Telemetry.antt =====
-- app/src/telemetry_command_interface.cpp: the command inbox file, the definitions file, and the
-- dispatch of one command a tick. The static table of definitions and the static counter of
-- command ids are part of the state.
mod Parse
pub mod Lines
pub mod Inbox
pub mod Queue
pub mod Drain
pub mod Definitions
pub mod Tests
unfoldable pub use Parse.*
use youyeetoo_rk3588_toolkit.Prelude.{
  ℕ, zero, suc, ◌+◌, Bool, true, false, not, ◌&&◌, ◌||◌, List, [], ◌∷◌, ◌++◌, Option, none, some, ℤ,
  pos, ◌==◌, if◌then◌else◌,
}
use youyeetoo_rk3588_toolkit.Prelude.Text.{Text, codes, text_eq, is_empty, is_space, trim_by}
use youyeetoo_rk3588_toolkit.Prelude.Dict.{lookup, insert}
use youyeetoo_rk3588_toolkit.Result.{Result, ok, err}
use youyeetoo_rk3588_toolkit.Camera.{CameraAppOptions}
use youyeetoo_rk3588_toolkit.Command.{CommandRequest, telemetry_file, mode_to_string}
use youyeetoo_rk3588_toolkit.FileSystem.{FileSystem, lines, unlines, write_file}
use youyeetoo_rk3588_toolkit.UserDataStore.{build_runtime_path}
use youyeetoo_rk3588_toolkit.TaskManager.{ICameraManager}
use youyeetoo_rk3588_toolkit.Dispatcher.{ServiceContext, dispatch}

pub record TelemetryCommandInterface : Type 0 where
  pub options : CameraAppOptions
  pub last_command_name : Text
  pub last_command_result : Text
  pub last_routed_module : Text
  pub definitions : List (Text × CommandDefinition)
  pub next_id : ℕ

abbrev pub fallback_defs : Text
fallback_defs = codes "configs/telemetry_commands.txt"

-- The definitions file that is opened, with its path.
unfoldable pub open_definitions : CameraAppOptions → FileSystem → Option (Text × Text)
open_definitions options fs = elim (fs.contents options.telemetry_command_defs) [
  | some text ↦ some (options.telemetry_command_defs, text)
  | none ↦
      if text_eq options.telemetry_command_defs fallback_defs
      then none
      else elim (fs.contents fallback_defs) [ none ↦ none | some text ↦ some (fallback_defs, text) ]
]

abbrev note_loaded : Text → TelemetryCommandInterface → TelemetryCommandInterface
note_loaded path tci =
    if is_empty tci.last_command_result
    then record tci {
      last_command_result = codes "loaded telemetry command definitions from " ++ path;
    }
    else tci

-- LoadDefinitions: the interface behind it, or the error message.
unfoldable pub load_definitions :
    FileSystem → TelemetryCommandInterface → Result TelemetryCommandInterface
unfolding open_definitions parse_definitions
load_definitions fs tci = elim (open_definitions tci.options fs) [
  | none ↦
      err (
        codes "failed to open telemetry command definitions: "
        ++ tci.options.telemetry_command_defs)
  | some (path, text) ↦ elim (parse_definitions 1 (lines text) []) [
    | err message ↦ err message
    | ok definitions ↦ ok (note_loaded path (record tci { definitions = definitions }))
  ]
]

-- BuildCommandRequest, with the id that NextCommandId gives.
unfoldable pub build_command_request : ℕ → CommandDefinition → List (Text × Text) → CommandRequest
build_command_request id definition runtime_parameters = record {
  command_id = pos id;
  source = telemetry_file;
  category = definition.category;
  command_name = definition.command_name;
  task_name = definition.task_name;
  repeat_count = definition.repeat_count;
  output_dir = definition.output_dir;
  remote_path = definition.remote_path;
  local_path = definition.local_path;
  delete_confirmed = definition.delete_confirmed;
  parameters = runtime_parameters;
}

-- The first line that is neither blank nor a comment, trimmed.
unfoldable pub first_media_path : List Text → Option Text
unfolding is_comment_or_blank
first_media_path [] = none
first_media_path (l ∷ ls) =
    let rest = first_media_path ls in if is_comment_or_blank (trim l) then rest else some (trim l)

unfoldable pub latest_media_list_path : Text → FileSystem → Text
unfolding build_runtime_path
latest_media_list_path camera_serial fs =
    build_runtime_path (codes "camera_last_media_list") (codes ".txt") camera_serial fs

unfoldable pub resolve_latest_media_token : Text → Text → FileSystem → Result Text
unfolding first_media_path latest_media_list_path
resolve_latest_media_token token camera_serial fs =
    let path = latest_media_list_path camera_serial fs in
    if text_eq token (codes "@LAST_MEDIA_FIRST")
    then (elim (fs.contents path) [
      | none ↦ err (codes "latest media list file not found: " ++ path)
      | some text ↦ elim (first_media_path (lines text)) [
        | none ↦ err (codes "latest media list file contains no media path: " ++ path)
        | some media ↦ ok media
      ]
    ])
    else err (codes "unsupported media token: " ++ token)

-- The parameter if it is there and not empty, and otherwise the definition's value.
abbrev override : Text → Text → List (Text × Text) → Text
override key value params = elim (lookup key params) [
  | none ↦ value
  | some given ↦ if is_empty given then value else given
]

abbrev starts_with_at : Text → Bool
starts_with_at [] = false
starts_with_at (c ∷ cs) = c == b'@'

unfoldable pub resolve_command_request : CommandRequest → FileSystem → Result CommandRequest
unfolding resolve_latest_media_token
resolve_command_request request fs =
    let serial : Text = elim (lookup (codes "camera_serial") request.parameters) [
      | none ↦ []
      | some s ↦ s
    ] in
    let overridden : CommandRequest = record request {
      remote_path = override (codes "remote_path") request.remote_path request.parameters;
      local_path = override (codes "local_path") request.local_path request.parameters;
      output_dir = override (codes "output_dir") request.output_dir request.parameters;
    } in
    if starts_with_at overridden.remote_path
    then (elim (resolve_latest_media_token overridden.remote_path serial fs) [
      | err message ↦ err message
      | ok path ↦ ok (record overridden { remote_path = path })
    ])
    else ok overridden

-- The commands of an inbox: its lines, trimmed, without the blank ones.
unfoldable pub commands_of : List Text → List Text
commands_of [] = []
commands_of (l ∷ ls) =
    let rest = commands_of ls in if is_empty (trim l) then rest else trim l ∷ rest

module _ (cm : ICameraManager) where
  open cm use {State}

  -- What a tick works on.
  abbrev pub World : Type 0
  World = FileSystem × TelemetryCommandInterface × ServiceContext State

  -- The part of ProcessCommandFile behind the resolved request.
  pub dispatch_request : CommandRequest → World → World × Bool
  dispatch_request request (fs, tci, ctx) =
      let (ctx', result, accepted) = dispatch cm request ctx in
      (
        (
          fs,
          record tci {
            last_routed_module = result.routed_module;
            last_command_result =
                if accepted
                then (codes "dispatch_ok mode=" ++ mode_to_string result.mode)
                  ++ ((codes " routed_to=" ++ result.routed_module)
                      ++ (codes " summary=" ++ result.summary))
                else (codes "dispatch_failed error=" ++ result.error_code)
                  ++ (codes " summary=" ++ result.summary);
          },
          ctx',
        ),
        accepted,
      )

  -- The part behind the rewriting of the inbox: the command `name` with its parameters.
  pub run_command : Text → List (Text × Text) → World → World × Bool
  unfolding dispatch_request build_command_request resolve_command_request
  run_command name params (fs, tci, ctx) =
      let named : TelemetryCommandInterface = record tci { last_command_name = name } in
      elim (lookup name tci.definitions) [
        | none ↦ (
          (
            fs,
            record named {
              last_command_result = codes "unknown telemetry command: " ++ name;
              last_routed_module = [];
            },
            ctx,
          ),
          false,
        )
        | some definition ↦
            let counted : TelemetryCommandInterface = record named { next_id = tci.next_id + 1 } in
            elim (resolve_command_request (build_command_request tci.next_id definition params)
              fs) [
                | err message ↦ (
                  (
                    fs,
                    record counted { last_routed_module = []; last_command_result = message },
                    ctx,
                  ),
                  false,
                )
                | ok request ↦ dispatch_request request (fs, counted, ctx)
              ]
      ]

  -- The part behind the reading of the inbox: its first command is parsed, and only then taken out.
  pub take_command : List Text → World → World × Bool
  unfolding run_command
  take_command [] w = (w, false)
  take_command (first ∷ rest) (fs, tci, ctx) = elim (parse_command_line first) [
    | err message ↦ (
      (
        fs,
        record tci {
          last_command_name = first;
          last_routed_module = [];
          last_command_result = message;
        },
        ctx,
      ),
      false,
    )
    | ok (name, params) ↦
        run_command name params
          (write_file tci.options.telemetry_command_inbox (unlines rest) fs, tci, ctx)
  ]

  unfoldable pub process_command_file : World → World × Bool
  unfolding take_command load_definitions commands_of
  process_command_file (fs, tci, ctx) = elim (load_definitions fs tci) [
    | err message ↦ ((fs, record tci { last_command_result = message }, ctx), false)
    | ok loaded ↦ elim (fs.contents tci.options.telemetry_command_inbox) [
      | none ↦ ((fs, loaded, ctx), false)
      | some text ↦ take_command (commands_of (lines text)) (fs, loaded, ctx)
    ]
  ]

  -- Tick; the dispatcher and the context are never null.
  unfoldable pub tick : World → World
  unfolding process_command_file
  tick w = (process_command_file w).0

  unfoldable pub ticks : ℕ → World → World
  ticks zero w = w
  ticks (suc n) w = ticks n (tick w)
