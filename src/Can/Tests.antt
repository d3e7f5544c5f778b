-- ===== src/Can/Tests.antt =====
-- The CAN protocol of app/src/can_protocol.cpp at concrete inputs.
use youyeetoo_rk3588_toolkit.Prelude.{◌≡◌, refl, [], ◌∷◌, ◌++◌, some, All}
use youyeetoo_rk3588_toolkit.Prelude.Text.{
  Text, codes, text_eq, split, split_at, trim_by, drop_spaces, drop_spaces_end,
}
use youyeetoo_rk3588_toolkit.Number.{stoul0, read_prefixed, read_digits, digit_value}
use youyeetoo_rk3588_toolkit.FileSystem.{lines}
use youyeetoo_rk3588_toolkit.Can.{
  CommandMap, CanFrame, find_command, add_command, set_command, load_command_map, load_map_lines,
  load_map_line, map_fields, trim, is_blank, parse_hex_uint32, parse_rx_frame, ascii_suffix,
  add_suffix, load_from_file, load_lines, load_line, set_field, default_can_config,
}
use youyeetoo_rk3588_toolkit.Can.Maps.{IsEntry, load_command_map-IsEntry}

abbrev map_text : Text
map_text = codes "0x01 | PING |" ++ (10 ∷ codes "0x42 | DELETE | confirm=ALL")

abbrev two_commands : CommandMap
two_commands = (1, (codes "PING", [])) ∷ (66, (codes "DELETE", codes "confirm=ALL")) ∷ []

map_loads : (load_command_map (some map_text) []).1 ≡ two_commands
unfolding load_command_map load_map_lines load_map_line map_fields add_command set_command trim
    is_blank trim_by drop_spaces drop_spaces_end split split_at lines parse_hex_uint32 stoul0
    read_prefixed read_digits digit_value codes
map_loads = refl

abbrev delete_frame : CanFrame
delete_frame = record { can_id = 257; dlc = 3; bytes = 66 ∷ 65 ∷ 66 ∷ 0 ∷ 0 ∷ 0 ∷ 0 ∷ 0 ∷ [] }

suffix_follows :
    (parse_rx_frame two_commands delete_frame 257).extra_params ≡ codes "confirm=ALL AB"
unfolding parse_rx_frame find_command ascii_suffix add_suffix codes
suffix_follows = refl

load_command_map-IsEntry_example : All IsEntry (load_command_map (some map_text) []).1
load_command_map-IsEntry_example = load_command_map-IsEntry (some map_text) [] tt

config_loads :
    (load_from_file (some (codes "rx_command_id = 0x102")) default_can_config).1.rx_command_id ≡ 258
unfolding load_from_file load_lines load_line set_field trim is_blank trim_by drop_spaces
    drop_spaces_end split split_at lines parse_hex_uint32 stoul0 read_prefixed read_digits
    digit_value codes text_eq
config_loads = refl
