-- ===== src/Dispatcher/Tests.antt =====
-- Dispatches through app/src/command_dispatcher.cpp, and its theorems at concrete inputs.
use youyeetoo_rk3588_toolkit.Prelude.{◌≡◌, ◌≢◌, refl, Bool, true, false, [], ◌∷◌, some, pos}
use youyeetoo_rk3588_toolkit.Prelude.Text.{codes, text_eq, text_ne}
use youyeetoo_rk3588_toolkit.Prelude.Dict.{lookup}
use youyeetoo_rk3588_toolkit.Command.{CommandRequest, telemetry_file, usb}
use youyeetoo_rk3588_toolkit.Service.{
  new_service, usb_service, log_service, placeholder, handle_module_task,
}
use youyeetoo_rk3588_toolkit.TaskManager.Tests.{one_camera, free}
use youyeetoo_rk3588_toolkit.Dispatcher.{ServiceContext, dispatch}
use youyeetoo_rk3588_toolkit.Dispatcher.Routing.{dispatch-frame}

abbrev context : ServiceContext Bool
context = record {
  task_manager = some free;
  services =
      (codes "usb_service", new_service usb_service)
      ∷ (codes "log_service", new_service log_service)
      ∷ [];
}

abbrev power_on : CommandRequest
power_on = record {
  command_id = pos 1;
  source = telemetry_file;
  category = usb;
  command_name = codes "USB_POWER_ON";
  task_name = codes "usb.power.on";
  repeat_count = pos 1;
  output_dir = [];
  remote_path = [];
  local_path = [];
  delete_confirmed = false;
  parameters = [];
}

power_on_answer :
    ((dispatch one_camera power_on context).2 ≡ true)
    × ((dispatch one_camera power_on context).1.summary
        ≡ codes "usb=placeholder last_task=usb.power.on")
unfolding dispatch lookup text_eq codes handle_module_task placeholder
power_on_answer = (refl, refl)

usb-ne-log : codes "usb_service" ≢ codes "log_service"
unfolding codes text_eq
usb-ne-log = text_ne _ _ refl

dispatch-frame_example :
    (lookup (codes "log_service") (dispatch one_camera power_on context).0.services
      ≡ lookup (codes "log_service") context.services)
    × ((dispatch one_camera power_on context).0.task_manager ≡ some free)
dispatch-frame_example =
    dispatch-frame one_camera power_on context (codes "usb_service") (codes "log_service") refl
      usb-ne-log
