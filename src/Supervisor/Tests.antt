-- ===== src/Supervisor/Tests.antt =====
-- Runs of the supervisor of app/src/worker_supervisor.cpp, and the theorems at concrete inputs.
use youyeetoo_rk3588_toolkit.Prelude.{
  ℕ, zero, suc, ◌≡◌, refl, true, false, [], ◌∷◌, some, pos, minus_one, arith,
}
use youyeetoo_rk3588_toolkit.Prelude.Text.{Text, text_eq}
use youyeetoo_rk3588_toolkit.Prelude.Dict.{lookup, insert}
use youyeetoo_rk3588_toolkit.Supervisor.{
  Supervisor, WorkerState, SpawnOutcome, no_channel, forked, TickInput, empty, register, start_all,
  tick, run, is_running, get_parent_fd, restart_count, backoff_seconds,
}
use youyeetoo_rk3588_toolkit.Supervisor.Descriptors.{IsBalanced, start_and_run-IsBalanced, held_all}
use youyeetoo_rk3588_toolkit.Supervisor.Recovery.{tick_restarts, no_channel_strands}

abbrev camera : Text
camera = 99 ∷ 97 ∷ 109 ∷ []

abbrev can : Text
can = 99 ∷ 97 ∷ 110 ∷ []

abbrev two_workers : Supervisor
two_workers = register can (register camera empty)

abbrev first_pids : ℕ → SpawnOutcome
first_pids zero = forked 100 5
first_pids (suc i) = forked 101 7

abbrev started : Supervisor
started = start_all first_pids two_workers

-- The camera worker dies at 4000 ms; its restart is due at 6000 ms.
abbrev camera_dies : TickInput
camera_dies = record {
  dead = (pos 100, 4000) ∷ (pos 0, 4000) ∷ [];
  now = 4000;
  outcomes = first_pids;
}

abbrev restart_with : SpawnOutcome → TickInput
restart_with o = record { dead = []; now = 6000; outcomes = λ i. o }

started_runs :
    (is_running camera started ≡ true) × (get_parent_fd can started ≡ pos 7) × (started.fds ≡ 2)
unfolding register start_all lookup insert text_eq is_running get_parent_fd
started_runs = (refl, refl, refl)

death_and_restart :
    (is_running camera (tick camera_dies started) ≡ false)
    × (restart_count camera (tick camera_dies started) ≡ 1)
    × (is_running camera (run (camera_dies ∷ restart_with (forked 103 5) ∷ []) started) ≡ true)
unfolding register start_all lookup insert text_eq is_running tick run restart_count backoff_seconds
death_and_restart = (refl, refl, refl)

-- The camera worker while it waits.
abbrev waiting : WorkerState
waiting = record {
  name = camera;
  pid = minus_one;
  parent_fd = pos 5;
  restart_count = 1;
  pending_restart = true;
  next_restart_at = 6000;
}

abbrev waiting_alone : Supervisor
waiting_alone = record { workers = (camera, waiting) ∷ []; order = camera ∷ []; fds = 1 }

abbrev first_life : WorkerState
first_life = record waiting { pid = pos 100; restart_count = 0; pending_restart = false }

waiting_there : lookup camera waiting_alone.workers ≡ some waiting
unfolding lookup text_eq
waiting_there = refl

two_workers-IsBalanced : IsBalanced two_workers
unfolding register held_all insert text_eq
two_workers-IsBalanced = refl

start_and_run-IsBalanced_example :
    IsBalanced (run (camera_dies ∷ []) (start_all first_pids two_workers))
start_and_run-IsBalanced_example =
    start_and_run-IsBalanced first_pids (camera_dies ∷ []) two_workers two_workers-IsBalanced

tick_restarts_example : is_running camera (tick (restart_with (forked 103 5)) waiting_alone) ≡ true
tick_restarts_example =
    tick_restarts (restart_with (forked 103 5)) [] [] camera waiting_alone waiting waiting_there
      refl refl refl tt tt 103 5 refl (omega arith)

no_channel_strands_example :
    is_running camera
      (run (restart_with (forked 104 5) ∷ []) (tick (restart_with no_channel) waiting_alone))
    ≡ false
no_channel_strands_example =
    no_channel_strands (restart_with no_channel) [] [] camera waiting_alone waiting waiting_there
      refl refl refl tt tt (restart_with (forked 104 5) ∷ []) refl
