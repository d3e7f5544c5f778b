-- ===== src/Uplink/Tests.antt =====
-- A run of app/src/can_worker.cpp and app/src/telemetry_command_interface.cpp on one inbox.
use youyeetoo_rk3588_toolkit.Prelude.{◌≡◌, refl, ℕ, some, List, [], ◌∷◌, ◌++◌, pos, All}
use youyeetoo_rk3588_toolkit.Prelude.Text.{codes, text_eq, split, split_at, split_whitespace}
use youyeetoo_rk3588_toolkit.Prelude.Dict.{insert, lookup}
use youyeetoo_rk3588_toolkit.Number.{stoi}
use youyeetoo_rk3588_toolkit.Result.{ok, err}
use youyeetoo_rk3588_toolkit.FileSystem.{lines, unlines, write_file}
use youyeetoo_rk3588_toolkit.Command.{CommandRequest, parse_category}
use youyeetoo_rk3588_toolkit.Dispatcher.{dispatch}
use youyeetoo_rk3588_toolkit.TaskManager.Tests.{one_camera, options}
use youyeetoo_rk3588_toolkit.Can.{parse_rx_frame, find_command, ascii_suffix, add_suffix}
use youyeetoo_rk3588_toolkit.CanWorker.{start_worker, receive, received, to_frame, inbox_line}
use youyeetoo_rk3588_toolkit.CanWorker.Inbox.{command_of, line_of}
use youyeetoo_rk3588_toolkit.CanWorker.Tests.{small_config, commands, commands-IsEntry}
use youyeetoo_rk3588_toolkit.Telemetry.{
  trim, parse_command_line, parse_definition_line, parse_definitions, open_definitions, commands_of,
  ticks, tick, World, build_command_request, resolve_command_request, load_definitions,
}
use youyeetoo_rk3588_toolkit.Telemetry.Inbox.{queue}
use youyeetoo_rk3588_toolkit.Telemetry.Drain.{IsReady, Loads, Parses}
use youyeetoo_rk3588_toolkit.Telemetry.Tests.{
  interface, context, files, ping, defs_text, ping_definition, ping_parses,
}
use youyeetoo_rk3588_toolkit.Uplink.{
  Event, worker_read, service_tick, System, step, run, one_frame_blocks,
}
use youyeetoo_rk3588_toolkit.Uplink.Delivery.{frame_is_run, turn_of}

abbrev idle : System one_camera
idle = record {
  worker = start_worker small_config commands (codes "inbox") (pos 4) (pos 5) 0;
  files = files [];
  commands = interface;
  services = context;
}

-- The command PING with the text `a`, and without a text.
abbrev bad_ping : List ℕ
bad_ping = 1 ∷ 97 ∷ []

abbrev good_ping : List ℕ
good_ping = 1 ∷ []

abbrev later : List Event
later = service_tick ∷ worker_read (pos 4) (received 257 1 good_ping) ∷ service_tick ∷ []

bad_ping_line : line_of (command_of idle.worker 257 2 bad_ping) ≡ codes "PING a"
unfolding start_worker to_frame parse_rx_frame find_command codes inbox_line ascii_suffix add_suffix
bad_ping_line = refl

bad_ping_fails :
    parse_command_line (trim (line_of (command_of idle.worker 257 2 bad_ping)))
    ≡ err (codes "invalid command parameter: a")
unfolding start_worker to_frame parse_rx_frame find_command codes inbox_line ascii_suffix add_suffix
    parse_command_line trim split_at split_whitespace
bad_ping_fails = refl

one_frame_blocks_example :
    (run one_camera (worker_read (pos 4) (received 257 2 bad_ping) ∷ later) idle).services ≡ context
unfolding start_worker to_frame parse_rx_frame find_command codes text_eq inbox_line ascii_suffix
    add_suffix trim
one_frame_blocks_example =
    one_frame_blocks one_camera (pos 4) 257 2 bad_ping later idle
      (codes "invalid command parameter: a") commands-IsEntry refl refl refl refl refl refl
      bad_ping_fails

-- One command waits, and a frame brings another.
abbrev one_waits : System one_camera
one_waits = record idle { files = files (ping ++ 10 ∷ []) }

one_waits-Loads : Loads options one_waits.files
unfolding open_definitions parse_definitions lines split codes text_eq parse_definition_line stoi
    insert parse_category
one_waits-Loads = record {
  path = codes "defs";
  text = defs_text;
  table = (ping, ping_definition) ∷ [];
  opened = refl;
  parsed = refl;
}

one_waits-IsReady : IsReady options one_waits.files
unfolding text_eq codes
one_waits-IsReady = record { loads = one_waits-Loads; apart = (refl, refl); writes = refl }

good_ping_parses :
    parse_command_line (trim (line_of (command_of one_waits.worker 257 1 good_ping)))
    ≡ ok (ping, [])
unfolding start_worker to_frame parse_rx_frame find_command codes inbox_line ascii_suffix add_suffix
    parse_command_line trim split_at split_whitespace
good_ping_parses = refl

waiting_ping-Parses : All Parses (commands_of (ping ∷ []))
unfolding commands_of trim codes
waiting_ping-Parses = ((ping, [], ping_parses), tt)

-- The request of the frame's command, with the second id.
abbrev second_ping : CommandRequest
second_ping = build_command_request 2 ping_definition []

abbrev turn : World one_camera
turn = turn_of one_camera (pos 4) 257 1 good_ping (ping ∷ []) one_waits

second_ping_resolves :
    resolve_command_request
      (build_command_request turn.1.next_id ping_definition [])
      (write_file (codes "inbox") [] turn.0)
    ≡ ok second_ping
unfolding start_worker to_frame parse_rx_frame find_command codes text_eq inbox_line ascii_suffix
    add_suffix trim open_definitions load_definitions lines split parse_definitions
    parse_definition_line stoi insert lookup parse_category commands_of parse_command_line split_at
    split_whitespace dispatch write_file unlines ticks tick resolve_command_request step receive
    build_command_request
second_ping_resolves = refl

ping_defined : lookup ping one_waits-IsReady.loads.table ≡ some ping_definition
unfolding lookup text_eq codes one_waits-IsReady one_waits-Loads
ping_defined = refl

frame_is_run_example :
    let (files', commands', services') = tick one_camera turn in
    (queue (codes "inbox") files' ≡ [])
    × (commands'.last_command_name ≡ ping)
    × (services' ≡ (dispatch one_camera second_ping turn.2).0)
    × (commands'.last_routed_module ≡ (dispatch one_camera second_ping turn.2).1.routed_module)
unfolding start_worker to_frame parse_rx_frame find_command codes text_eq inbox_line ascii_suffix
    add_suffix trim unlines
frame_is_run_example =
    frame_is_run one_camera (pos 4) 257 1 good_ping one_waits (ping ∷ []) ping [] ping_definition
      second_ping commands-IsEntry refl refl refl one_waits-IsReady refl
      ((refl, (refl, (refl, (refl, tt)))), tt) waiting_ping-Parses refl good_ping_parses
      ping_defined second_ping_resolves
