-- ===== src/Service.antt =====
-- The placeholder services of the payload board: boot_state_service.cpp, can_service.cpp,
-- downlink_service.cpp, log_service.cpp, narrowband_service.cpp, ota_receive_service.cpp,
-- storage_service.cpp and usb_service.cpp of app/src. Each keeps a status summary; their
-- Configure and Tick do nothing.
use youyeetoo_rk3588_toolkit.Prelude.{Bool, true, ◌++◌}
use youyeetoo_rk3588_toolkit.Prelude.Text.{Text, codes}
use youyeetoo_rk3588_toolkit.Command.{ModuleTask}

pub data ServiceKind : Type 0 where
  boot_state_service can_service downlink_service log_service narrowband_service : ServiceKind
  ota_receive_service storage_service usb_service : ServiceKind

-- The initial status summary, which every later one begins with.
unfoldable pub placeholder : ServiceKind → Text
placeholder boot_state_service = codes "boot_state=placeholder"
placeholder can_service = codes "can=placeholder"
placeholder downlink_service = codes "downlink=placeholder"
placeholder log_service = codes "log=placeholder"
placeholder narrowband_service = codes "narrowband=placeholder"
placeholder ota_receive_service = codes "ota_rx=placeholder"
placeholder storage_service = codes "storage=placeholder"
placeholder usb_service = codes "usb=placeholder"

pub record Service : Type 0 where
  pub kind : ServiceKind
  pub status_summary : Text

abbrev pub new_service : ServiceKind → Service
new_service kind = record { kind = kind; status_summary = placeholder kind }

-- HandleModuleTask: the service, whether it accepted, and the message for the caller.
unfoldable pub handle_module_task : ModuleTask → Service → Service × Bool × Text
handle_module_task task s =
    let summary = placeholder s.kind ++ (codes " last_task=" ++ task.task_name) in
    (record s { status_summary = summary }, true, summary)
