-- ===== src/MainService.antt =====
-- One round of the loop of MainServiceApp::Run in app/src/main_service.cpp. It drives the supervisor of the workers, the service's sides of their channels, the task
-- manager, the command interface and the watchdog. What the system calls return and the clock are
-- arguments. The proxy of the camera worker stands in the task manager, which refers to it.
pub mod Run
pub mod Logging
pub mod Feeding
pub mod Ending
mod Tests
use youyeetoo_rk3588_toolkit.Prelude.{
  ℕ, ◌+◌, ◌%◌, ℤ, pos, negsuc, eq_ℤ, leb_ℤ, Bool, true, false, not, ◌&&◌, ◌||◌, List, [], ◌∷◌, ◌++◌,
  Option, none, some, ltb, ◌==◌, if◌then◌else◌,
}
use youyeetoo_rk3588_toolkit.Prelude.Text.{Text, codes, text_eq}
use youyeetoo_rk3588_toolkit.Number.{to_string}
use youyeetoo_rk3588_toolkit.FileSystem.{FileSystem}
use youyeetoo_rk3588_toolkit.Camera.{CameraAppOptions, CameraControllerSnapshot, default_snapshot}
use youyeetoo_rk3588_toolkit.Service.{
  Service, new_service, boot_state_service, usb_service, storage_service, ota_receive_service,
  narrowband_service, downlink_service, log_service,
}
use youyeetoo_rk3588_toolkit.Supervisor.{
  Supervisor, SpawnOutcome, TickInput, empty, register, start_all, restart_count,
  tick as tick_supervisor,
}
use youyeetoo_rk3588_toolkit.Watchdog.{
  WatchdogService, Kernel, Action, default_config, open_watchdog, feed,
}
use youyeetoo_rk3588_toolkit.WorkerChannel.{RecvResult}
use youyeetoo_rk3588_toolkit.CanWorker.Proxy.{
  CanWorkerProxy, ChannelEvent, new_proxy as new_can_proxy, tick as tick_can,
}
use youyeetoo_rk3588_toolkit.TelemetryWorker.{Doubles}
use youyeetoo_rk3588_toolkit.TelemetryWorker.Proxy.{
  TelemetryWorkerProxy, new_proxy as new_telemetry_proxy, tick as tick_telemetry,
}
use youyeetoo_rk3588_toolkit.CameraWorker.Proxy.{
  CameraWorkerProxy, proxy_manager, new_proxy as new_camera_proxy, tick as tick_camera,
}
use youyeetoo_rk3588_toolkit.TaskManager.{TaskManager, configure, bootstrap, tick as tick_tasks}
use youyeetoo_rk3588_toolkit.Dispatcher.{ServiceContext}
use youyeetoo_rk3588_toolkit.Telemetry.{TelemetryCommandInterface, tick as tick_commands}
use youyeetoo_rk3588_toolkit.TelemetryManager.{
  ServiceLifecycleState, MainServiceSnapshot, degraded, fatal_state, build_snapshot, build_summary,
}

pub data LogLevel : Type 0 where
  error warn info debug : LogLevel

-- What happens during one round: to the processes, on the channels of the workers, what ::send
-- returns for a message to the camera worker, what the watchdog's calls return, and the clock.
pub record RoundInput : Type 0 where
  pub processes : TickInput
  pub camera_arrivals : List RecvResult
  pub can_events : List ChannelEvent
  pub telemetry_events : List ChannelEvent
  pub sent : Text → ℤ
  pub kernel : Kernel
  pub now : ℕ

-- The level of the line with a new summary.
unfoldable pub level_of : ServiceLifecycleState → LogLevel
level_of fatal_state = error
level_of degraded = warn
level_of _ = info

-- The task manager behind a call of the command interface, which is given it.
abbrev task_manager_of :
    TaskManager CameraWorkerProxy → ServiceContext CameraWorkerProxy → TaskManager CameraWorkerProxy
task_manager_of tm ctx = elim ctx.task_manager [ none ↦ tm | some tm' ↦ tm' ]

-- camera_proxy.snapshot()
unfoldable pub camera_snapshot_of : TaskManager CameraWorkerProxy → CameraControllerSnapshot
camera_snapshot_of tm = elim tm.camera_manager [
  | none ↦ default_snapshot
  | some p ↦ p.cached_snapshot
]

-- camera_proxy.Tick(); `none`: an exception leaves it.
unfoldable pub tick_camera_proxy :
    Supervisor
    → List RecvResult
    → TaskManager CameraWorkerProxy
    → Option (TaskManager CameraWorkerProxy)
unfolding tick_camera
tick_camera_proxy supervisor arrivals tm = elim tm.camera_manager [
  | none ↦ some tm
  | some p ↦ elim (tick_camera supervisor arrivals p) [
    | none ↦ none
    | some q ↦ some (record tm { camera_manager = some q })
  ]
]

-- The summary with the statuses of the workers behind it.
unfoldable pub enriched : Text → (can telemetry : Text) (camera_restarts : ℕ) → Text
unfolding to_string
enriched summary can telemetry camera_restarts =
    let restarts : Text =
      if ltb 0 camera_restarts
      then codes " camera_worker_restarts=" ++ to_string camera_restarts
      else [] in
    summary ++ (codes " " ++ (can ++ (codes " " ++ (telemetry ++ restarts))))

module _ (d : Doubles) where
  pub record MainService : Type 0 where
    pub options : CameraAppOptions
    pub supervisor : Supervisor
    pub watchdog : WatchdogService
    pub can_proxy : CanWorkerProxy
    pub telemetry_proxy : TelemetryWorkerProxy d
    pub task_manager : TaskManager CameraWorkerProxy
    pub services : List (Text × Service)
    pub commands : TelemetryCommandInterface
    pub files : FileSystem
    pub loop_count : ℕ
    pub last_summary : Text

  -- A round's outcome: the service behind it, what it did to the watchdog, whether the line
  -- watchdog_skip was logged, and the line at its end. (A line of the level debug is only printed
  -- with the option debug.)
  pub record RoundOutcome : Type 0 where
    pub service : MainService
    pub actions : List Action
    pub skip_logged : Bool
    pub logged : LogLevel × Text

  -- can_ok && tele_ok
  abbrev pub is_healthy : MainService → Bool
  is_healthy s = s.can_proxy.channel_alive && s.telemetry_proxy.channel_alive

  -- The supervisor and the proxies of the CAN and the telemetry worker.
  unfoldable pub tick_workers : RoundInput → MainService → MainService
  unfolding tick_supervisor tick_can tick_telemetry
  tick_workers r s =
      let supervisor' = tick_supervisor r.processes s.supervisor in
      record s {
        supervisor = supervisor';
        can_proxy = tick_can supervisor' r.can_events s.can_proxy;
        telemetry_proxy = tick_telemetry d supervisor' r.telemetry_events s.telemetry_proxy;
        loop_count = s.loop_count + 1;
      }

  -- The task manager and the command interface.
  unfoldable pub tick_tasks_and_commands : RoundInput → MainService → MainService
  unfolding tick_tasks tick_commands
  tick_tasks_and_commands r s =
      let cm = proxy_manager s.supervisor r.sent in
      let tm = tick_tasks cm s.task_manager in
      let (files', commands', ctx) =
        tick_commands cm
          (s.files, s.commands, record { task_manager = some tm; services = s.services }) in
      record s {
        task_manager = task_manager_of tm ctx;
        services = ctx.services;
        commands = commands';
        files = files';
      }

  -- The snapshot of the service, and its summary.
  unfoldable pub snapshot_of : MainService → MainServiceSnapshot
  unfolding build_snapshot camera_snapshot_of
  snapshot_of s =
      build_snapshot (proxy_manager s.supervisor (λ msg. pos 0)) s.loop_count
        (camera_snapshot_of s.task_manager) s.task_manager s.services s.commands

  unfoldable pub summary_of_service : MainService → Text
  unfolding snapshot_of build_summary enriched restart_count
  summary_of_service s =
      enriched (build_summary (snapshot_of s)) s.can_proxy.status_summary
        s.telemetry_proxy.status_summary (restart_count (codes "camera_worker") s.supervisor)

  -- The part of the round that feeds the watchdog and logs.
  unfoldable pub feed_and_log : RoundInput → MainService → RoundOutcome
  unfolding feed summary_of_service level_of text_eq
  feed_and_log r s =
      let (fed, watchdog', actions) = feed r.kernel (is_healthy s) r.now s.watchdog in
      let summary = summary_of_service s in
      let unchanged = text_eq summary s.last_summary in
      record {
        service = record s {
          watchdog = watchdog';
          last_summary = if unchanged then s.last_summary else summary;
        };
        actions = actions;
        skip_logged = not (is_healthy s) && s.loop_count % 50 == 0;
        logged =
            if unchanged
            then (debug, codes "service state unchanged")
            else (level_of (snapshot_of s).lifecycle_state, summary);
      }

  -- The round behind the tick of the camera worker's proxy.
  unfoldable pub after_camera :
      RoundInput → MainService → Option (TaskManager CameraWorkerProxy) → Option RoundOutcome
  unfolding tick_tasks_and_commands feed_and_log
  after_camera r s none = none
  after_camera r s (some tm) =
      some (feed_and_log r (tick_tasks_and_commands r (record s { task_manager = tm })))

  -- One round of the loop; `none`: an exception leaves it, and the process ends.
  unfoldable pub round : RoundInput → MainService → Option RoundOutcome
  unfolding tick_workers tick_camera_proxy after_camera
  round r s =
      let s1 = tick_workers r s in
      after_camera r s1 (tick_camera_proxy s1.supervisor r.camera_arrivals s1.task_manager)

  -- The outcomes of rounds in a row, up to one that an exception leaves.
  unfoldable pub outcomes : List RoundInput → MainService → List RoundOutcome
  unfolding round
  outcomes [] s = []
  outcomes (r ∷ rest) s = elim (round r s) [ none ↦ [] | some o ↦ o ∷ outcomes rest o.service ]
