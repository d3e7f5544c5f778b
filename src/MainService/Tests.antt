-- ===== src/MainService/Tests.antt =====
-- Runs of the main service of app/src/main_service.cpp.
use youyeetoo_rk3588_toolkit.Prelude.{
  ◌≡◌, refl, ℕ, pos, minus_one, true, false, [], ◌∷◌, none, some, arith, All,
}
use youyeetoo_rk3588_toolkit.Prelude.Text.{codes}
use youyeetoo_rk3588_toolkit.FileSystem.{FileSystem}
use youyeetoo_rk3588_toolkit.Camera.{CameraAppOptions}
use youyeetoo_rk3588_toolkit.Supervisor.{SpawnOutcome, forked, get_parent_fd}
use youyeetoo_rk3588_toolkit.Watchdog.{Kernel}
use youyeetoo_rk3588_toolkit.WorkerChannel.{would_block, datagram, end_of_file}
use youyeetoo_rk3588_toolkit.TaskManager.Tests.{options}
use youyeetoo_rk3588_toolkit.TelemetryWorker.Tests.{whole}
use youyeetoo_rk3588_toolkit.MainService.{RoundInput, MainService, outcomes}
use youyeetoo_rk3588_toolkit.MainService.Run.{start, loop}
use youyeetoo_rk3588_toolkit.MainService.Logging.{IsLogged, every_round_logs}
use youyeetoo_rk3588_toolkit.MainService.Feeding.{actions_of, feeding-camera}
use youyeetoo_rk3588_toolkit.MainService.Ending.{IsLeftAfter, loop-IsLeftAfter}

-- Two rounds.
abbrev two_loops : CameraAppOptions
two_loops = record options { max_loops = pos 2 }

abbrev spawns : ℕ → SpawnOutcome
spawns i = forked 100 5

abbrev kernel : Kernel
kernel = record { opened = some 3; keep_alive_ok = true; write_ok = true; notify_socket = none }

abbrev no_files : FileSystem
no_files = record { contents = λ path. none; writable = λ path. false }

abbrev started : MainService whole
started = start whole two_loops spawns kernel 0 no_files

-- Nothing happens, twelve seconds after the start.
abbrev quiet : RoundInput
quiet = record {
  processes = record { dead = []; now = 12000; outcomes = spawns };
  camera_arrivals = would_block ∷ [];
  can_events = [];
  telemetry_events = [];
  sent = λ msg. minus_one;
  kernel = kernel;
  now = 12000;
}

-- The camera worker's channel is closed and there is an unreadable message.
abbrev camera_gone : RoundInput
camera_gone = record quiet { camera_arrivals = datagram (codes "?") ∷ end_of_file ∷ [] }

every_round_logs_example : All (IsLogged whole) (outcomes whole (quiet ∷ quiet ∷ []) started)
every_round_logs_example =
    every_round_logs whole two_loops spawns kernel 0 no_files (quiet ∷ quiet ∷ [])

feeding-camera_example :
    actions_of whole (outcomes whole (quiet ∷ quiet ∷ []) started)
    ≡ actions_of whole (outcomes whole (camera_gone ∷ quiet ∷ []) started)
unfolding outcomes start get_parent_fd
feeding-camera_example =
    feeding-camera whole (quiet ∷ quiet ∷ []) (camera_gone ∷ quiet ∷ []) started started refl refl
      refl refl

loop-IsLeftAfter_example : IsLeftAfter whole 2 (loop whole (quiet ∷ quiet ∷ []) started)
unfolding outcomes start get_parent_fd
loop-IsLeftAfter_example =
    loop-IsLeftAfter whole (quiet ∷ quiet ∷ []) started 1 refl (omega arith) (omega arith) refl
