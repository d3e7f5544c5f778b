-- ===== src/TelemetryManager.antt =====
-- app/src/telemetry_manager.cpp: the snapshot of the main service, its lifecycle and health, and the
-- summary that the main loop logs.
pub mod Evaluation
use youyeetoo_rk3588_toolkit.Prelude.{
  ℕ, ℤ, Bool, true, false, List, [], ◌∷◌, ◌++◌, Option, none, some, if◌then◌else◌,
}
use youyeetoo_rk3588_toolkit.Prelude.Text.{Text, codes}
use youyeetoo_rk3588_toolkit.Prelude.Dict.{lookup}
use youyeetoo_rk3588_toolkit.Number.{to_string, int_text}
use youyeetoo_rk3588_toolkit.Camera.{
  CameraControllerSnapshot, CameraRuntimeStatus, CameraDeviceState, unavailable, connecting, idle,
  busy, error_recover, fatal,
}
use youyeetoo_rk3588_toolkit.CameraController.Names.{
  device_state_to_string, task_type_to_string, task_state_to_string,
}
use youyeetoo_rk3588_toolkit.Service.{Service, placeholder, can_service}
use youyeetoo_rk3588_toolkit.TaskManager.{ICameraManager, TaskManager, task_active}
use youyeetoo_rk3588_toolkit.Telemetry.{TelemetryCommandInterface}

pub data ServiceLifecycleState : Type 0 where
  starting running degraded stopped fatal_state : ServiceLifecycleState

pub record MainServiceSnapshot : Type 0 where
  pub lifecycle_state : ServiceLifecycleState
  pub healthy : Bool
  pub is_active : Bool
  pub loop_count : ℕ
  pub completed_task_count : ℕ
  pub last_error : Text
  pub last_task_summary : Text
  pub last_command_name : Text
  pub last_command_result : Text
  pub last_routed_module : Text
  pub boot_state_summary : Text
  pub can_summary : Text
  pub usb_summary : Text
  pub storage_summary : Text
  pub ota_receive_summary : Text
  pub narrowband_summary : Text
  pub downlink_summary : Text
  pub log_summary : Text
  pub camera_snapshot : CameraControllerSnapshot

-- BoolToYesNo
unfoldable pub bool_to_yes_no : Bool → Text
bool_to_yes_no true = codes "yes"
bool_to_yes_no false = codes "no"

-- A label and a text, unless the text is empty.
unfoldable pub labelled : Text → Text → Text
labelled label [] = []
labelled label (c ∷ s) = label ++ (c ∷ s)

-- BuildCameraStatusSummary
unfoldable pub camera_status_summary : CameraRuntimeStatus → Text
unfolding bool_to_yes_no labelled to_string int_text
camera_status_summary s =
    let battery : Text =
      if s.battery_ok
      then codes " battery="
        ++ (to_string s.battery.battery_level ++ (codes "/" ++ to_string s.battery.battery_scale))
      else codes " battery=unavailable" in
    let storage : Text =
      if s.storage_ok
      then codes " storage="
        ++ (s.storage.storage_state
            ++ (codes " free="
                ++ (to_string s.storage.free_space
                    ++ (codes " total=" ++ to_string s.storage.total_space))))
      else codes " storage=unavailable" in
    let media_time : Text =
      if s.media_time_ok
      then codes " media_time=" ++ int_text s.media_time
      else codes " media_time=unavailable" in
    codes "connected="
    ++ (bool_to_yes_no s.connected
        ++ (codes " capturing="
            ++ (bool_to_yes_no s.is_capturing
                ++ (battery
                    ++ (storage
                        ++ (media_time ++ labelled (codes " recent_error=") s.recent_error))))))

-- The switch of EvaluateLifecycle over the state of the device, behind Bootstrap.
unfoldable pub lifecycle_of_device : CameraDeviceState → ServiceLifecycleState
lifecycle_of_device unavailable = degraded
lifecycle_of_device connecting = degraded
lifecycle_of_device error_recover = degraded
lifecycle_of_device fatal = fatal_state
lifecycle_of_device idle = running
lifecycle_of_device busy = running

abbrev is_fatal_device : CameraDeviceState → Bool
is_fatal_device fatal = true
is_fatal_device _ = false

-- EvaluateLifecycle
unfoldable pub evaluate_lifecycle :
    CameraDeviceState → (bootstrapped : Bool) → ServiceLifecycleState
unfolding lifecycle_of_device
evaluate_lifecycle device bootstrapped =
    if is_fatal_device device
    then fatal_state
    else if bootstrapped
    then lifecycle_of_device device
    else starting

-- EvaluateHealth
unfoldable pub evaluate_health : ServiceLifecycleState → Bool
evaluate_health running = true
evaluate_health _ = false

-- StatusSummary of the service with the name.
abbrev summary_of : Text → List (Text × Service) → Text
summary_of name services = elim (lookup name services) [ none ↦ [] | some s ↦ s.status_summary ]

-- BuildSnapshot, with a CanService that has done nothing, as all callers give it.
unfoldable pub build_snapshot :
    (cm : ICameraManager)
    → (loop_count : ℕ) → CameraControllerSnapshot
    → TaskManager cm.State
    → List (Text × Service)
    → TelemetryCommandInterface
    → MainServiceSnapshot
unfolding task_active evaluate_lifecycle evaluate_health lookup placeholder
build_snapshot cm loop_count camera_snapshot tm services tci =
    let lifecycle = evaluate_lifecycle camera_snapshot.device_state tm.bootstrapped in
    record {
      lifecycle_state = lifecycle;
      healthy = evaluate_health lifecycle;
      is_active = task_active cm tm;
      loop_count = loop_count;
      completed_task_count = tm.completed_task_count;
      last_error = tm.last_error;
      last_task_summary = tm.last_task_summary;
      last_command_name = tci.last_command_name;
      last_command_result = tci.last_command_result;
      last_routed_module = tci.last_routed_module;
      boot_state_summary = summary_of (codes "boot_state_service") services;
      can_summary = placeholder can_service;
      usb_summary = summary_of (codes "usb_service") services;
      storage_summary = summary_of (codes "storage_service") services;
      ota_receive_summary = summary_of (codes "ota_receive_service") services;
      narrowband_summary = summary_of (codes "narrowband_service") services;
      downlink_summary = summary_of (codes "downlink_service") services;
      log_summary = summary_of (codes "log_service") services;
      camera_snapshot = camera_snapshot;
    }

-- LifecycleStateToString
unfoldable pub lifecycle_state_to_string : ServiceLifecycleState → Text
lifecycle_state_to_string starting = codes "STARTING"
lifecycle_state_to_string running = codes "RUNNING"
lifecycle_state_to_string degraded = codes "DEGRADED"
lifecycle_state_to_string stopped = codes "STOPPED"
lifecycle_state_to_string fatal_state = codes "FATAL"

-- The part of BuildSummary behind the loop count.
unfoldable pub summary_details : MainServiceSnapshot → Text
unfolding bool_to_yes_no labelled to_string device_state_to_string task_type_to_string
    task_state_to_string camera_status_summary
summary_details s =
    let camera = s.camera_snapshot in
    codes "task_active="
    ++ (bool_to_yes_no s.is_active
        ++ (codes " completed_tasks="
            ++ (to_string s.completed_task_count
                ++ (codes " camera_device="
                    ++ (device_state_to_string camera.device_state
                        ++ (codes " camera_task="
                            ++ (task_type_to_string camera.task_type
                                ++ (codes "/"
                                    ++ (task_state_to_string camera.task_state
                                        ++ (codes " camera_status{"
                                            ++ (camera_status_summary camera.runtime_status
                                                ++ (codes "}"
                                                    ++ (labelled (codes " last_task_summary=")
                                                          s.last_task_summary
                                                        ++ (labelled (codes " last_error=")
                                                            s.last_error
                                                            ++ (labelled (codes " last_command=")
                                                            s.last_command_name
                                                            ++ (labelled
                                                            (codes " last_command_result=")
                                                            s.last_command_result
                                                            ++ (labelled
                                                            (codes " last_routed_module=")
                                                            s.last_routed_module
                                                            ++ (labelled (codes " camera_error=")
                                                            camera.error_message
                                                            ++ (labelled (codes " ")
                                                            s.boot_state_summary
                                                            ++ (labelled (codes " ") s.can_summary
                                                            ++ (labelled (codes " ") s.usb_summary
                                                            ++ (labelled (codes " ")
                                                            s.storage_summary
                                                            ++ (labelled (codes " ")
                                                            s.ota_receive_summary
                                                            ++ (labelled (codes " ")
                                                            s.narrowband_summary
                                                            ++ (labelled (codes " ")
                                                            s.downlink_summary
                                                            ++ labelled (codes " ")
                                                            s.log_summary)))))))))))))))))))))))))

-- BuildSummary
unfoldable pub build_summary : MainServiceSnapshot → Text
unfolding bool_to_yes_no lifecycle_state_to_string to_string summary_details
build_summary s =
    codes "profile=BOARD_CONTROLLER"
    ++ (b' '
        ∷ ((codes "lifecycle=" ++ lifecycle_state_to_string s.lifecycle_state)
            ++ (b' '
                ∷ ((codes "healthy=" ++ bool_to_yes_no s.healthy)
                    ++ (b' '
                        ∷ ((codes "loop=" ++ to_string s.loop_count)
                            ++ (b' ' ∷ summary_details s)))))))
