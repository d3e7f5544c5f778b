-- ===== src/MainService/Run.antt =====
-- MainServiceApp::Run of app/src/main_service.cpp: the start of the service, its loop, and the end.
use youyeetoo_rk3588_toolkit.Prelude.{
  ℕ, pos, negsuc, eq_ℤ, leb_ℤ, Bool, true, false, not, ◌||◌, List, [], ◌∷◌, none, some,
  if◌then◌else◌,
}
use youyeetoo_rk3588_toolkit.Prelude.Text.{Text, codes}
use youyeetoo_rk3588_toolkit.FileSystem.{FileSystem}
use youyeetoo_rk3588_toolkit.Camera.{CameraAppOptions}
use youyeetoo_rk3588_toolkit.Service.{
  Service, new_service, boot_state_service, usb_service, storage_service, ota_receive_service,
  narrowband_service, downlink_service, log_service,
}
use youyeetoo_rk3588_toolkit.Supervisor.{SpawnOutcome, empty, register, start_all}
use youyeetoo_rk3588_toolkit.Watchdog.{WatchdogService, Kernel, default_config, open_watchdog}
use youyeetoo_rk3588_toolkit.CanWorker.Proxy.{new_proxy as new_can_proxy}
use youyeetoo_rk3588_toolkit.TelemetryWorker.{Doubles}
use youyeetoo_rk3588_toolkit.TelemetryWorker.Proxy.{new_proxy as new_telemetry_proxy}
use youyeetoo_rk3588_toolkit.CameraWorker.Proxy.{CameraWorkerProxy, new_proxy as new_camera_proxy}
use youyeetoo_rk3588_toolkit.TaskManager.{TaskManager, configure, bootstrap}
use youyeetoo_rk3588_toolkit.TelemetryManager.{ServiceLifecycleState, fatal_state}
use youyeetoo_rk3588_toolkit.MainService.{RoundInput, MainService, snapshot_of, round}

-- The services that the context refers to; it has none for the CAN bus.
abbrev pub in_process_services : List (Text × Service)
in_process_services =
    (codes "boot_state_service", new_service boot_state_service)
    ∷ (codes "usb_service", new_service usb_service)
    ∷ (codes "storage_service", new_service storage_service)
    ∷ (codes "ota_receive_service", new_service ota_receive_service)
    ∷ (codes "narrowband_service", new_service narrowband_service)
    ∷ (codes "downlink_service", new_service downlink_service)
    ∷ (codes "log_service", new_service log_service)
    ∷ []

abbrev pub is_fatal : ServiceLifecycleState → Bool
is_fatal fatal_state = true
is_fatal _ = false

module _ (d : Doubles) where
  -- Run up to the loop: the outcomes of the spawns, what opening the watchdog returns, the clock.
  unfoldable pub start :
      CameraAppOptions → (ℕ → SpawnOutcome) → Kernel → ℕ → FileSystem → MainService d
  unfolding register start_all open_watchdog configure bootstrap codes
  start options outcomes kernel now files =
      let registered =
        register (codes "telemetry_worker")
          (register (codes "can_worker") (register (codes "camera_worker") empty)) in
      let unopened : WatchdogService = record {
        config = default_config;
        hw_fd = negsuc 0;
        sd_notify_available = false;
        feed_count = 0;
        skip_count = 0;
        last_feed = 0;
      } in
      let (watchdog', opened) = open_watchdog kernel default_config now unopened in
      let tm : TaskManager CameraWorkerProxy = record {
        camera_manager = some (new_camera_proxy (codes "camera_worker"));
        options = options;
        bootstrapped = false;
        completion_recorded = false;
        completed_task_count = 0;
        last_task_summary = [];
        last_error = [];
      } in
      record {
        options = options;
        supervisor = start_all outcomes registered;
        watchdog = watchdog';
        can_proxy = new_can_proxy (codes "can_worker");
        telemetry_proxy = new_telemetry_proxy d (codes "telemetry_worker");
        task_manager = (bootstrap (configure options tm)).0;
        services = in_process_services;
        commands = record {
          options = options;
          last_command_name = [];
          last_command_result = [];
          last_routed_module = [];
          definitions = [];
          next_id = 1;
        };
        files = files;
        loop_count = 0;
        last_summary = [];
      }

  -- The condition of the loop.
  unfoldable pub goes_on : MainService d → Bool
  goes_on s = eq_ℤ s.options.max_loops (pos 0) || not (leb_ℤ s.options.max_loops (pos s.loop_count))

  -- The result of Run behind the loop.
  unfoldable pub exit_code : MainService d → ℕ
  unfolding snapshot_of
  exit_code s = if is_fatal (snapshot_of d s).lifecycle_state then 4 else 0

  -- How far the loop comes with what happens in some rounds: it is left with an exit code, it would
  -- go on, or an exception leaves it.
  pub data LoopEnd : Type 0 where
    left : ℕ → MainService d → LoopEnd
    would_go_on : MainService d → LoopEnd
    crashed : LoopEnd

  unfoldable pub loop : List RoundInput → MainService d → LoopEnd
  unfolding goes_on exit_code round
  loop [] s = if goes_on s then would_go_on s else left (exit_code s) s
  loop (r ∷ rest) s = elim (round d r s) [
    | none ↦ if goes_on s then crashed else left (exit_code s) s
    | some o ↦
        let further = loop rest o.service in if goes_on s then further else left (exit_code s) s
  ]
