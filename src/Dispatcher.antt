-- ===== src/Dispatcher.antt =====
-- app/src/command_dispatcher.cpp with the pointers of app/include/service_context.h. The result and
-- the context are never null here: the one caller checks the context and passes a local result.
pub mod Routing
pub mod Agreement
pub mod Tests
use youyeetoo_rk3588_toolkit.Prelude.{
  Bool, true, false, List, [], ◌∷◌, ◌++◌, Option, none, some, if◌then◌else◌,
}
use youyeetoo_rk3588_toolkit.Prelude.Text.{Text, codes, text_eq}
use youyeetoo_rk3588_toolkit.Prelude.Dict.{lookup, insert}
use youyeetoo_rk3588_toolkit.Command.{
  CommandRequest, ModuleTask, CommandDispatchResult, CommandCategory, unknown, system, boot, usb,
  camera, storage, narrowband, ota_receive, downlink, log, immediate, module_task_mode,
  default_result,
}
use youyeetoo_rk3588_toolkit.Service.{Service, handle_module_task}
use youyeetoo_rk3588_toolkit.TaskManager.{
  ICameraManager, TaskManager, submit_module_task, set_interface_status,
}

-- ServiceContext: `services` holds the service modules whose pointers are not null, by module name.
pub record ServiceContext (C : Type 0) : Type 0 where
  pub task_manager : Option (TaskManager C)
  pub services : List (Text × Service)

-- The context behind a call, the dispatch result, and the call's own result.
abbrev pub Dispatched : Type 0 → Type 0
Dispatched C = ServiceContext C × CommandDispatchResult × Bool

unfoldable pub build_module_task : CommandRequest → Text → ModuleTask
build_module_task request module_name = record {
  category = request.category;
  module_name = module_name;
  task_name = request.task_name;
  repeat_count = request.repeat_count;
  output_dir = request.output_dir;
  remote_path = request.remote_path;
  local_path = request.local_path;
  delete_confirmed = request.delete_confirmed;
  parameters = request.parameters;
}

-- The camera task names that DispatchCameraCommand submits.
unfoldable pub camera_commands : List Text
camera_commands =
    codes "camera.init"
    ∷ codes "camera.get_status"
    ∷ codes "camera.get_capture_status"
    ∷ codes "camera.get_battery"
    ∷ codes "camera.get_storage"
    ∷ codes "camera.take_photo_download"
    ∷ codes "camera.set_mode"
    ∷ codes "camera.set_param"
    ∷ codes "camera.get_param"
    ∷ codes "camera.get_media_time"
    ∷ codes "camera.get_log"
    ∷ codes "camera.list_devices"
    ∷ codes "camera.preview.start"
    ∷ codes "camera.preview.stop"
    ∷ codes "camera.shutdown_maint"
    ∷ codes "camera.start_recording"
    ∷ codes "camera.stop_recording"
    ∷ codes "camera.ext_capture.start"
    ∷ codes "camera.ext_capture.stop"
    ∷ codes "camera.list_media"
    ∷ codes "camera.download_media"
    ∷ codes "camera.batch_download"
    ∷ codes "camera.delete_media"
    ∷ codes "camera.delete_all_media"
    ∷ []

unfoldable pub contains : List Text → Text → Bool
contains [] name = false
contains (x ∷ xs) name = if text_eq x name then true else contains xs name

unfoldable pub dispatch_system :
    {C : Type 0} → CommandRequest → TaskManager C → ServiceContext C → Dispatched C
dispatch_system request tm ctx =
    let summary = codes "system command accepted: " ++ request.command_name in
    (
      record ctx { task_manager = some (set_interface_status summary tm) },
      record default_result {
        routed_module = codes "main_service";
        accepted = true;
        mode = immediate;
        summary = summary;
      },
      true,
    )

unfoldable pub dispatch_service :
    {C : Type 0} → CommandRequest → Text → ServiceContext C → Dispatched C
unfolding build_module_task
dispatch_service request module_name ctx = elim (lookup module_name ctx.services) [
  | none ↦ (
    ctx,
    record default_result {
      error_code = codes "MISSING_MODULE";
      summary = codes "missing service module: " ++ module_name;
    },
    false,
  )
  | some service ↦
      let task = build_module_task request module_name in
      let (service', accepted, message) = handle_module_task task service in
      (
        record ctx { services = insert module_name service' ctx.services },
        record default_result {
          module_task = task;
          routed_module = module_name;
          accepted = accepted;
          mode = module_task_mode;
          summary = message;
          error_code = if accepted then [] else codes "MODULE_REJECTED";
        },
        accepted,
      )
]

module _ (cm : ICameraManager) where
  open cm use {State}

  unfoldable pub dispatch_camera :
      CommandRequest → TaskManager State → ServiceContext State → Dispatched State
  unfolding build_module_task contains
  dispatch_camera request tm ctx =
      if contains camera_commands request.task_name
      then (let task = build_module_task request (codes "camera_manager") in
          let (tm', submitted, message) = submit_module_task cm task tm in
          let asked : CommandDispatchResult = record default_result {
            module_task = task;
            routed_module = codes "camera_manager";
            mode = module_task_mode;
          } in
          let ctx' : ServiceContext State = record ctx { task_manager = some tm' } in
          if submitted
          then (
            ctx',
            record asked { accepted = true; summary = codes "camera module task submitted" },
            true,
          )
          else (
            ctx',
            record asked { error_code = codes "TASK_SUBMIT_FAILED"; summary = message },
            false,
          ))
      else (
        ctx,
        record default_result {
          routed_module = codes "camera_manager";
          error_code = codes "NOT_IMPLEMENTED";
          summary = codes "camera command reserved but not implemented: " ++ request.command_name;
        },
        false,
      )

  -- The switch over the categories.
  route :
      CommandCategory → CommandRequest → TaskManager State → ServiceContext State → Dispatched State
  unfolding dispatch_system dispatch_camera dispatch_service
  route system request tm ctx = dispatch_system request tm ctx
  route boot request tm ctx = dispatch_service request (codes "boot_state_service") ctx
  route usb request tm ctx = dispatch_service request (codes "usb_service") ctx
  route camera request tm ctx = dispatch_camera request tm ctx
  route storage request tm ctx = dispatch_service request (codes "storage_service") ctx
  route narrowband request tm ctx = dispatch_service request (codes "narrowband_service") ctx
  route ota_receive request tm ctx = dispatch_service request (codes "ota_receive_service") ctx
  route downlink request tm ctx = dispatch_service request (codes "downlink_service") ctx
  route log request tm ctx = dispatch_service request (codes "log_service") ctx
  route unknown request tm ctx = (
    ctx,
    record default_result {
      error_code = codes "UNKNOWN_CATEGORY";
      summary = codes "command category is unknown";
    },
    false,
  )

  unfoldable pub dispatch : CommandRequest → ServiceContext State → Dispatched State
  unfolding route
  dispatch request ctx = elim ctx.task_manager [
    | none ↦ (
      ctx,
      record default_result {
        error_code = codes "NO_SERVICE_CONTEXT";
        summary = codes "command dispatcher has no service context";
      },
      false,
    )
    | some tm ↦ route request.category request tm ctx
  ]
