-- ===== src/CommandLine.antt =====
-- app/main.cpp: the options of the command line.
pub mod Arguments
mod Tests
use youyeetoo_rk3588_toolkit.Prelude.{
  ℕ, ℤ, pos, is_positive, is_nonneg, Bool, true, false, List, [], ◌∷◌, Option, none, some,
  if◌then◌else◌,
}
use youyeetoo_rk3588_toolkit.Prelude.Text.{Text, codes, text_eq}
use youyeetoo_rk3588_toolkit.Number.{stoi}
use youyeetoo_rk3588_toolkit.Camera.{CameraAppOptions}

-- The default member initialisers of CameraAppOptions.
unfoldable pub default_app_options : CameraAppOptions
default_app_options = record {
  debug = false;
  timeout_ms = pos 10000;
  poll_interval_ms = pos 2000;
  loop_interval_ms = pos 200;
  max_loops = pos 0;
  log_path = [];
  serial_number = [];
  default_output_dir = [];
  telemetry_command_defs = codes "/opt/youyeetoo_app/configs/telemetry_commands.txt";
  telemetry_command_inbox = codes "/var/opt/youyeetoo/runtime/telemetry_command_request.txt";
  port_map_path = codes "/opt/youyeetoo_app/configs/camera_port_map.txt";
  can_config_path = codes "/opt/youyeetoo_app/configs/can_config.txt";
}

-- ParsePositiveInt, and the conversion of --timeout-ms with its test.
unfoldable pub parse_positive_int : Text → Option ℤ
unfolding stoi
parse_positive_int value = elim (stoi value) [
  | none ↦ none
  | some n ↦ if is_positive n then some n else none
]

-- ParseNonNegativeInt
unfoldable pub parse_non_negative_int : Text → Option ℤ
unfolding stoi
parse_non_negative_int value = elim (stoi value) [
  | none ↦ none
  | some n ↦ if is_nonneg n then some n else none
]

-- The options that take a value.
pub data Setting : Type 0 where
  log_path serial timeout_ms output_dir poll_interval_ms loop_interval_ms max_loops : Setting
  command_defs command_inbox port_map can_config : Setting

unfoldable pub setting_names : List (Text × Setting)
setting_names =
    (codes "--log-path", log_path)
    ∷ (codes "--serial", serial)
    ∷ (codes "--timeout-ms", timeout_ms)
    ∷ (codes "--output-dir", output_dir)
    ∷ (codes "--poll-interval-ms", poll_interval_ms)
    ∷ (codes "--loop-interval-ms", loop_interval_ms)
    ∷ (codes "--max-loops", max_loops)
    ∷ (codes "--command-defs", command_defs)
    ∷ (codes "--command-inbox", command_inbox)
    ∷ (codes "--port-map", port_map)
    ∷ (codes "--can-config", can_config)
    ∷ []

unfoldable pub setting_of : Text → List (Text × Setting) → Option Setting
unfolding text_eq
setting_of arg [] = none
setting_of arg ((name, s) ∷ rest) = if text_eq arg name then some s else setting_of arg rest

-- A number that has been read, or has not.
abbrev pub with_number : Option ℤ → (ℤ → CameraAppOptions) → Option CameraAppOptions
with_number none f = none
with_number (some n) f = some (f n)

-- The options with a value; `none` where it is refused.
unfoldable pub set_option : Setting → (value : Text) → CameraAppOptions → Option CameraAppOptions
unfolding parse_positive_int parse_non_negative_int
set_option log_path value o = some (record o { log_path = value })
set_option serial value o = some (record o { serial_number = value })
set_option timeout_ms value o =
    with_number (parse_positive_int value) (λ n. record o { timeout_ms = n })
set_option output_dir value o = some (record o { default_output_dir = value })
set_option poll_interval_ms value o =
    with_number (parse_positive_int value) (λ n. record o { poll_interval_ms = n })
set_option loop_interval_ms value o =
    with_number (parse_positive_int value) (λ n. record o { loop_interval_ms = n })
set_option max_loops value o =
    with_number (parse_non_negative_int value) (λ n. record o { max_loops = n })
set_option command_defs value o = some (record o { telemetry_command_defs = value })
set_option command_inbox value o = some (record o { telemetry_command_inbox = value })
set_option port_map value o = some (record o { port_map_path = value })
set_option can_config value o = some (record o { can_config_path = value })

-- ParseArgs, for the arguments behind the program's name; `none` where it returns false: an option
-- without its value or with a bad one, -h, --help, and any other argument.
unfoldable pub parse_args : List Text → CameraAppOptions → Option CameraAppOptions
unfolding setting_of setting_names set_option text_eq codes
parse_args [] o = some o
parse_args (arg ∷ []) o =
    if text_eq arg (codes "--debug") then some (record o { debug = true }) else none
parse_args (arg ∷ value ∷ rest) o =
    let flagged = parse_args (value ∷ rest) (record o { debug = true }) in
    let behind : Option CameraAppOptions = elim (setting_of arg setting_names) [
      | none ↦ none
      | some s ↦ elim (set_option s value o) [ none ↦ none | some o' ↦ parse_args rest o' ]
    ] in
    if text_eq arg (codes "--debug") then flagged else behind
