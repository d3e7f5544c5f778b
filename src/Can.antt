-- ===== src/Can.antt =====
-- app/src/can_protocol.cpp: the configuration of the CAN worker, the map from command bytes to
-- commands, and the reading and building of CAN frames. Files are values: a file that cannot be
-- opened is `none`.
pub mod Frames
pub mod Maps
pub mod Tests
use Prim.Native.Nat.{min}
use youyeetoo_rk3588_toolkit.Prelude.{
  ℕ, zero, suc, ◌+◌, ◌-◌, ◌*◌, ◌/◌, ◌%◌, ◌^◌, Bool, true, false, ◌&&◌, ◌||◌, List, [], ◌∷◌, ◌++◌,
  Option, none, some, ℤ, pos, ltb, leb, ◌==◌, length, get_or, take, drop, replicate, if◌then◌else◌,
}
use youyeetoo_rk3588_toolkit.Prelude.Text.{Text, codes, text_eq, is_empty, trim_by, split_at}
use youyeetoo_rk3588_toolkit.Number.{stoi, stoul0}
use youyeetoo_rk3588_toolkit.FileSystem.{lines}

-- Trim
unfoldable pub is_blank : ℕ → Bool
is_blank c = ((c == 32 || c == 9) || c == 13) || c == 10

unfoldable pub trim : Text → Text
unfolding trim_by is_blank
trim s = trim_by is_blank s

-- ParseHexUint32: the value is cut to 32 bits.
unfoldable pub parse_hex_uint32 : Text → Option ℕ
unfolding stoul0
parse_hex_uint32 s =
    if is_empty s then none else elim (stoul0 s) [ none ↦ none | some v ↦ some (v % 2 ^ 32) ]

abbrev digit : ℕ → ℕ
digit d = if ltb d 10 then b'0' + d else b'a' + (d - 10)

-- Hex8
unfoldable pub hex8 : ℕ → Text
hex8 v = b'0' ∷ b'x' ∷ digit (v / 16 % 16) ∷ digit (v % 16) ∷ []

pub record CanConfig : Type 0 where
  pub primary_interface : Text
  pub backup_interface : Text
  pub rx_command_id : ℕ
  pub tx_telemetry_id : ℕ
  pub rx_error_threshold : ℤ
  pub telemetry_interval_ms : ℤ
  pub command_map_path : Text

abbrev pub default_can_config : CanConfig
default_can_config = record {
  primary_interface = codes "can0";
  backup_interface = codes "can0";
  rx_command_id = 257;
  tx_telemetry_id = 513;
  rx_error_threshold = pos 10;
  telemetry_interval_ms = pos 1000;
  command_map_path = codes "/opt/youyeetoo_app/configs/can_command_map.txt";
}

-- One setting; an unknown key and a number that does not parse change nothing.
unfoldable pub set_field : Text → Text → CanConfig → CanConfig
unfolding parse_hex_uint32 stoi text_eq
set_field key val cfg =
    if text_eq key (codes "primary_interface")
    then record cfg { primary_interface = val }
    else if text_eq key (codes "backup_interface")
    then record cfg { backup_interface = val }
    else if text_eq key (codes "rx_command_id")
    then (elim (parse_hex_uint32 val) [ none ↦ cfg | some v ↦ record cfg { rx_command_id = v } ])
    else if text_eq key (codes "tx_telemetry_id")
    then (elim (parse_hex_uint32 val) [ none ↦ cfg | some v ↦ record cfg { tx_telemetry_id = v } ])
    else if text_eq key (codes "rx_error_threshold")
    then (elim (stoi val) [ none ↦ cfg | some v ↦ record cfg { rx_error_threshold = v } ])
    else if text_eq key (codes "telemetry_interval_ms")
    then (elim (stoi val) [ none ↦ cfg | some v ↦ record cfg { telemetry_interval_ms = v } ])
    else if text_eq key (codes "command_map_path")
    then record cfg { command_map_path = val }
    else cfg

-- Whether a trimmed line is read, not skipped.
abbrev pub is_read : Text → Bool
is_read [] = false
is_read (c ∷ cs) = if c == b'#' then false else true

unfoldable pub load_line : Text → CanConfig → CanConfig
unfolding trim split_at set_field
load_line raw cfg =
    let line = trim raw in
    if is_read line
    then (elim (split_at b'=' line) [
      | none ↦ cfg
      | some (key, val) ↦ if is_empty (trim val) then cfg else set_field (trim key) (trim val) cfg
    ])
    else cfg

unfoldable pub load_lines : List Text → CanConfig → CanConfig
unfolding load_line
load_lines [] cfg = cfg
load_lines (l ∷ ls) cfg = load_lines ls (load_line l cfg)

-- CanConfig::LoadFromFile: the result, and the configuration.
unfoldable pub load_from_file : Option Text → CanConfig → Bool × CanConfig
unfolding load_lines lines
load_from_file none cfg = (false, cfg)
load_from_file (some text) cfg = (true, load_lines (lines text) cfg)

-- command_map_: the command and its parameters for a byte.
abbrev pub CommandMap : Type 0
CommandMap = List (ℕ × (Text × Text))

unfoldable pub find_command : ℕ → CommandMap → Option (Text × Text)
find_command byte [] = none
find_command byte ((b, entry) ∷ rest) =
    let later = find_command byte rest in if b == byte then some entry else later

unfoldable pub set_command : ℕ → Text × Text → CommandMap → CommandMap
set_command byte entry [] = (byte, entry) ∷ []
set_command byte entry ((b, old) ∷ rest) =
    let later = set_command byte entry rest in
    if b == byte then (b, entry) ∷ rest else (b, old) ∷ later

-- The three fields of a line of the command map, the last of them optional.
unfoldable pub map_fields : Text → Option (Text × Text × Text)
unfolding split_at
map_fields line = elim (split_at b'|' line) [
  | none ↦ none
  | some (byte_str, []) ↦ none
  | some (byte_str, c ∷ rest) ↦ elim (split_at b'|' (c ∷ rest)) [
    | none ↦ some (byte_str, c ∷ rest, [])
    | some (cmd_name, extra) ↦ some (byte_str, cmd_name, extra)
  ]
]

-- The entry that trimmed fields make.
unfoldable pub add_command : Text → Text → Text → CommandMap → CommandMap
unfolding parse_hex_uint32 set_command
add_command byte_str cmd_name extra command_map =
    if is_empty cmd_name then command_map else elim (parse_hex_uint32 byte_str) [
      | none ↦ command_map
      | some byte_val ↦
          if ltb 255 byte_val
          then command_map
          else set_command byte_val (cmd_name, extra) command_map
    ]

unfoldable pub load_map_line : Text → CommandMap → CommandMap
unfolding trim map_fields add_command
load_map_line raw command_map =
    if is_read (trim raw)
    then (elim (map_fields (trim raw)) [
      | none ↦ command_map
      | some (byte_str, cmd_name, extra) ↦
          add_command (trim byte_str) (trim cmd_name) (trim extra) command_map
    ])
    else command_map

unfoldable pub load_map_lines : List Text → CommandMap → CommandMap
unfolding load_map_line
load_map_lines [] command_map = command_map
load_map_lines (l ∷ ls) command_map = load_map_lines ls (load_map_line l command_map)

-- LoadCommandMap: the result, and the new map. A file that opens replaces the map even if it has
-- no entry.
unfoldable pub load_command_map : Option Text → CommandMap → Bool × CommandMap
unfolding load_map_lines lines
load_command_map none command_map = (false, command_map)
load_command_map (some text) command_map =
    let loaded = load_map_lines (lines text) [] in (not_empty loaded, loaded)
  where
    not_empty : CommandMap → Bool
    not_empty [] = false
    not_empty (x ∷ xs) = true

-- `data` holds eight bytes.
pub record CanFrame : Type 0 where
  pub can_id : ℕ
  pub dlc : ℕ
  pub bytes : List ℕ

pub record ParsedCanCommand : Type 0 where
  pub valid : Bool
  pub command_name : Text
  pub extra_params : Text
  pub error_description : Text

abbrev pub rejected : Text → ParsedCanCommand
rejected e = record { valid = false; command_name = []; extra_params = []; error_description = e }

-- The printable characters before the first zero byte.
unfoldable pub ascii_suffix : List ℕ → Text
ascii_suffix [] = []
ascii_suffix (c ∷ cs) =
    let rest = ascii_suffix cs in
    if c == 0 then [] else if leb 32 c && ltb c 127 then c ∷ rest else rest

-- The default parameters, with the suffix behind them.
unfoldable pub add_suffix : Text → Text → Text
add_suffix params [] = params
add_suffix [] (c ∷ suffix) = c ∷ suffix
add_suffix (p ∷ params) (c ∷ suffix) = (p ∷ params) ++ b' ' ∷ c ∷ suffix

-- ParseRxFrame
unfoldable pub parse_rx_frame : CommandMap → CanFrame → (expected_rx_id : ℕ) → ParsedCanCommand
unfolding find_command ascii_suffix add_suffix hex8
parse_rx_frame command_map frame expected_rx_id =
    let cmd_byte = get_or frame.bytes 0 0 in
    if frame.can_id == expected_rx_id
    then if ltb frame.dlc 1
      then rejected (codes "empty frame dlc=0")
      else elim (find_command cmd_byte command_map) [
        | none ↦ rejected (codes "unknown command byte " ++ hex8 cmd_byte)
        | some (name, params) ↦ record {
          valid = true;
          command_name = name;
          extra_params =
              add_suffix params (ascii_suffix (take (frame.dlc - 1) (drop 1 frame.bytes)));
          error_description = [];
        }
      ]
    else rejected []

-- BuildTelemetryFrame
unfoldable pub build_telemetry_frame : (tx_id : ℕ) → Text → CanFrame
build_telemetry_frame tx_id status_summary =
    let len = min (length status_summary) 8 in
    record { can_id = tx_id; dlc = len; bytes = take len status_summary ++ replicate (8 - len) 0 }
