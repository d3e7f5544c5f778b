-- ===== src/TaskManager/Tests.antt =====
-- The task manager of app/src/task_manager.cpp over a small camera manager, and its theorems there.
use youyeetoo_rk3588_toolkit.Prelude.{◌≡◌, refl, Bool, true, false, [], ◌∷◌, some, pos}
use youyeetoo_rk3588_toolkit.Prelude.Text.{Text, codes, text_eq}
use youyeetoo_rk3588_toolkit.Prelude.Dict.{lookup}
use youyeetoo_rk3588_toolkit.Camera.{CameraAppOptions, default_snapshot}
use youyeetoo_rk3588_toolkit.Command.{ModuleTask, default_task, camera, usb}
use youyeetoo_rk3588_toolkit.TaskManager.{
  ICameraManager, TaskManager, submit_module_task, tick, camera_tasks,
}
use youyeetoo_rk3588_toolkit.TaskManager.Count.{ticks, submits, changes, run}

-- A camera manager whose state says whether a task is active.
abbrev pub one_camera : ICameraManager
one_camera = record {
  State = Bool;
  start_task = λ request active. (true, true);
  has_active_task = λ active. active;
  is_task_finished = λ active. elim active [ true ↦ false | false ↦ true ];
  snapshot = λ active. default_snapshot;
}

abbrev pub options : CameraAppOptions
options = record {
  debug = false;
  timeout_ms = pos 10000;
  poll_interval_ms = pos 2000;
  loop_interval_ms = pos 200;
  max_loops = pos 0;
  log_path = [];
  serial_number = [];
  default_output_dir = [];
  telemetry_command_defs = codes "defs";
  telemetry_command_inbox = codes "inbox";
  port_map_path = [];
  can_config_path = [];
}

abbrev pub free : TaskManager Bool
free = record {
  camera_manager = some false;
  options = options;
  bootstrapped = true;
  completion_recorded = false;
  completed_task_count = 0;
  last_task_summary = [];
  last_error = [];
}

abbrev battery_task : ModuleTask
battery_task = record default_task { category = camera; task_name = codes "camera.get_battery" }

battery_taken : (submit_module_task one_camera battery_task free).1 ≡ true
unfolding submit_module_task camera_tasks lookup text_eq codes
battery_taken = refl

usb_refused :
    (submit_module_task one_camera (record battery_task { category = usb }) free).1 ≡ false
unfolding submit_module_task
usb_refused = refl

busy_refused :
    (submit_module_task one_camera battery_task (record free { camera_manager = some true })).1
    ≡ false
unfolding submit_module_task camera_tasks lookup text_eq codes
busy_refused = refl

-- One submission and a completion.
counted_once :
    (run one_camera
      (submits battery_task ∷ changes (λ a. false) ∷ ticks ∷ ticks ∷ [])
      (free, 0)).0.completed_task_count
    ≡ 1
unfolding run submit_module_task tick camera_tasks lookup text_eq codes
counted_once = refl

abbrev usb_reply : TaskManager Bool × Bool × Text
usb_reply = submit_module_task one_camera (record battery_task { category = usb }) free
