-- ===== src/Command.antt =====
-- app/include/command_types.h, and the names of the enumerators in
-- app/src/command_dispatcher.cpp and app/src/telemetry_command_interface.cpp.
pub mod Names
pub mod Tests
use youyeetoo_rk3588_toolkit.Prelude.{Bool, true, false, List, [], ◌∷◌, ℤ, pos, if◌then◌else◌}
use youyeetoo_rk3588_toolkit.Prelude.Text.{Text, codes, text_eq}

pub data CommandSource : Type 0 where
  telemetry_file can_bus maintenance : CommandSource

pub data CommandCategory : Type 0 where
  unknown system boot usb camera storage narrowband ota_receive downlink log : CommandCategory

pub data CommandExecutionMode : Type 0 where
  rejected immediate module_task_mode : CommandExecutionMode

pub record CommandRequest : Type 0 where
  pub command_id : ℤ
  pub source : CommandSource
  pub category : CommandCategory
  pub command_name : Text
  pub task_name : Text
  pub repeat_count : ℤ
  pub output_dir : Text
  pub remote_path : Text
  pub local_path : Text
  pub delete_confirmed : Bool
  pub parameters : List (Text × Text)

pub record ModuleTask : Type 0 where
  pub category : CommandCategory
  pub module_name : Text
  pub task_name : Text
  pub repeat_count : ℤ
  pub output_dir : Text
  pub remote_path : Text
  pub local_path : Text
  pub delete_confirmed : Bool
  pub parameters : List (Text × Text)

abbrev pub default_task : ModuleTask
default_task = record {
  category = unknown;
  module_name = [];
  task_name = [];
  repeat_count = pos 1;
  output_dir = [];
  remote_path = [];
  local_path = [];
  delete_confirmed = false;
  parameters = [];
}

pub record CommandDispatchResult : Type 0 where
  pub accepted : Bool
  pub mode : CommandExecutionMode
  pub routed_module : Text
  pub summary : Text
  pub error_code : Text
  pub module_task : ModuleTask

abbrev pub default_result : CommandDispatchResult
default_result = record {
  accepted = false;
  mode = rejected;
  routed_module = [];
  summary = [];
  error_code = [];
  module_task = default_task;
}

-- CommandDispatcher::CategoryToString
unfoldable pub category_to_string : CommandCategory → Text
category_to_string unknown = codes "unknown"
category_to_string system = codes "system"
category_to_string boot = codes "boot"
category_to_string usb = codes "usb"
category_to_string camera = codes "camera"
category_to_string storage = codes "storage"
category_to_string narrowband = codes "narrowband"
category_to_string ota_receive = codes "ota_receive"
category_to_string downlink = codes "downlink"
category_to_string log = codes "log"

-- CommandDispatcher::ModeToString
unfoldable pub mode_to_string : CommandExecutionMode → Text
mode_to_string rejected = codes "rejected"
mode_to_string immediate = codes "immediate"
mode_to_string module_task_mode = codes "module_task"

-- TelemetryCommandInterface::ParseCategory
unfoldable pub parse_category : Text → CommandCategory
parse_category value =
    if text_eq value (codes "system")
    then system
    else if text_eq value (codes "boot")
    then boot
    else if text_eq value (codes "usb")
    then usb
    else if text_eq value (codes "camera")
    then camera
    else if text_eq value (codes "storage")
    then storage
    else if text_eq value (codes "narrowband")
    then narrowband
    else if text_eq value (codes "ota_receive")
    then ota_receive
    else if text_eq value (codes "downlink")
    then downlink
    else if text_eq value (codes "log")
    then log
    else unknown
