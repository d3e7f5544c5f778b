-- ===== src/Telemetry/Tests.antt =====
-- The inbox and the line formats of app/src/telemetry_command_interface.cpp at concrete inputs.
use youyeetoo_rk3588_toolkit.Prelude.{
  ◌≡◌, refl, Bool, true, false, [], ◌∷◌, ◌++◌, none, some, pos, arith, if◌then◌else◌,
}
use youyeetoo_rk3588_toolkit.Prelude.Text.{Text, codes, text_eq, split, split_at, split_whitespace}
use youyeetoo_rk3588_toolkit.Prelude.Dict.{lookup, insert}
use youyeetoo_rk3588_toolkit.Result.{ok, err}
use youyeetoo_rk3588_toolkit.Number.{stoi}
use youyeetoo_rk3588_toolkit.Command.{system, parse_category, category_to_string, mode_to_string}
use youyeetoo_rk3588_toolkit.FileSystem.{FileSystem, lines, write_file, unlines}
use youyeetoo_rk3588_toolkit.TaskManager.Tests.{one_camera, free, options}
use youyeetoo_rk3588_toolkit.Dispatcher.{ServiceContext, dispatch}
use youyeetoo_rk3588_toolkit.Telemetry.{
  TelemetryCommandInterface, CommandDefinition, parse_command_line, parse_definition_line,
  commands_of, parse_definitions, open_definitions, load_definitions, ticks, tick, trim, parse_bool,
}
use youyeetoo_rk3588_toolkit.Telemetry.Inbox.{queue, malformed_blocks}
use youyeetoo_rk3588_toolkit.Telemetry.Drain.{IsReady, Loads, ticks-drain}
use youyeetoo_rk3588_toolkit.Telemetry.Lines.{
  print_command, insert_all, parse_command_line-print_command,
}
use youyeetoo_rk3588_toolkit.Telemetry.Definitions.{IsPrintable}

abbrev pub ping : Text
ping = codes "PING"

abbrev pub defs_text : Text
defs_text = codes "PING|system|system.ping|1||||false"

abbrev pub files : Text → FileSystem
files in_box = record {
  contents = λ path.
      if text_eq path (codes "inbox")
      then some in_box
      else if text_eq path (codes "defs")
      then some defs_text
      else none;
  writable = λ path. true;
}

abbrev pub interface : TelemetryCommandInterface
interface = record {
  options = options;
  last_command_name = [];
  last_command_result = [];
  last_routed_module = [];
  definitions = [];
  next_id = 1;
}

abbrev pub context : ServiceContext Bool
context = record { task_manager = some free; services = [] }

-- A line with a parameter that has no value, and a good command behind it.
abbrev bad_line : Text
bad_line = codes "SET_TIME t="

abbrev blocked : FileSystem
blocked = files (bad_line ++ (10 ∷ ping))

blocked-queue : queue (codes "inbox") blocked ≡ bad_line ∷ ping ∷ []
unfolding queue lines split commands_of trim text_eq codes
blocked-queue = refl

bad_line_fails :
    parse_command_line bad_line ≡ err (codes "invalid command parameter: " ++ codes "t=")
unfolding parse_command_line codes split_at split_whitespace
bad_line_fails = refl

malformed_blocks_example :
    ((ticks one_camera 1000 (blocked, interface, context)).0 ≡ blocked)
    × ((ticks one_camera 1000 (blocked, interface, context)).2 ≡ context)
malformed_blocks_example =
    malformed_blocks one_camera 1000 blocked interface context bad_line (ping ∷ [])
      (codes "invalid command parameter: " ++ codes "t=") blocked-queue bad_line_fails

abbrev two_pings : FileSystem
two_pings = files (ping ++ (10 ∷ ping))

two_pings-queue : queue (codes "inbox") two_pings ≡ ping ∷ ping ∷ []
unfolding queue lines split commands_of trim text_eq codes
two_pings-queue = refl

pub ping_parses : parse_command_line ping ≡ ok (ping, [])
unfolding parse_command_line codes split_at split_whitespace
ping_parses = refl

abbrev pub ping_definition : CommandDefinition
ping_definition = record {
  command_name = ping;
  category = system;
  task_name = codes "system.ping";
  repeat_count = pos 1;
  output_dir = [];
  remote_path = [];
  local_path = [];
  delete_confirmed = false;
}

two_pings_load : Loads options two_pings
unfolding open_definitions parse_definitions lines split codes text_eq parse_definition_line stoi
    insert parse_category
two_pings_load = record {
  path = codes "defs";
  text = defs_text;
  table = (ping, ping_definition) ∷ [];
  opened = refl;
  parsed = refl;
}

two_pings-IsReady : IsReady options two_pings
unfolding text_eq codes
two_pings-IsReady = record { loads = two_pings_load; apart = (refl, refl); writes = refl }

ticks-drain_example :
    queue (codes "inbox") (ticks one_camera 1 (two_pings, interface, context)).0 ≡ ping ∷ []
ticks-drain_example =
    ticks-drain one_camera 1 two_pings interface context (codes "inbox") (ping ∷ ping ∷ []) refl
      two_pings-IsReady two_pings-queue ((ping, [], ping_parses), ((ping, [], ping_parses), tt))

abbrev loaded : TelemetryCommandInterface
loaded = record interface {
  definitions = (ping, ping_definition) ∷ [];
  last_command_result = codes "loaded telemetry command definitions from " ++ codes "defs";
}

two_pings-loaded : load_definitions two_pings interface ≡ ok loaded
unfolding load_definitions parse_definitions lines split codes text_eq parse_definition_line stoi
    insert parse_category
two_pings-loaded = refl

ping_answered :
    (tick one_camera (two_pings, interface, context)).1.last_command_result
    ≡ codes
        "dispatch_ok mode=immediate routed_to=main_service summary=system command accepted: PING"
unfolding tick parse_definitions lines split codes text_eq parse_definition_line stoi insert lookup
    parse_category commands_of parse_command_line split_whitespace dispatch write_file unlines
    mode_to_string
ping_answered = refl

parse_command_line-print_command_example :
    parse_command_line (print_command ping ((codes "t", codes "12") ∷ []))
    ≡ ok (ping, insert_all ((codes "t", codes "12") ∷ []) [])
unfolding codes
parse_command_line-print_command_example =
    parse_command_line-print_command (codes "PING") ((codes "t", codes "12") ∷ [])
      (ground arith, refl) (((ground arith, refl), ground arith, (ground arith, refl)), tt)

printable : IsPrintable ping_definition (codes "1") (codes "false")
unfolding codes trim category_to_string stoi parse_bool text_eq
printable = record {
  name_is_field = (ground arith, refl);
  named = refl;
  category_is_field = (ground arith, refl);
  known = refl;
  task_is_field = (ground arith, refl);
  has_task = refl;
  count_is_field = (ground arith, refl);
  counts = refl;
  output_is_field = (tt, refl);
  remote_is_field = (tt, refl);
  local_is_field = (tt, refl);
  flag_is_field = (ground arith, refl);
  flagged = refl;
  confirms = refl;
}
