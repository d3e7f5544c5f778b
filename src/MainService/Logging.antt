-- ===== src/MainService/Logging.antt =====
-- What the loop of app/src/main_service.cpp logs at the end of each round.
use youyeetoo_rk3588_toolkit.Prelude.{
  ℕ, ◌+◌, ◌≤◌, ◌≡◌, ◌≢◌, refl, sym, ap, ◌∙◌, false, List, [], ◌∷◌, ◌++◌, Option, none, some, arith,
  All, Bool-cases, inl, inr,
}
use youyeetoo_rk3588_toolkit.Prelude.Text.{Text, codes, text_eq, text_eq_iff}
use youyeetoo_rk3588_toolkit.TelemetryManager.{ServiceLifecycleState, build_summary}
use youyeetoo_rk3588_toolkit.TelemetryManager.Evaluation.{logged_count, logged_count-build_summary}
use youyeetoo_rk3588_toolkit.TelemetryWorker.{Doubles}
use youyeetoo_rk3588_toolkit.Camera.{CameraAppOptions}
use youyeetoo_rk3588_toolkit.FileSystem.{FileSystem}
use youyeetoo_rk3588_toolkit.Watchdog.{Kernel}
use youyeetoo_rk3588_toolkit.Supervisor.{SpawnOutcome, restart_count}
use youyeetoo_rk3588_toolkit.TaskManager.{TaskManager}
use youyeetoo_rk3588_toolkit.CameraWorker.Proxy.{CameraWorkerProxy}
use youyeetoo_rk3588_toolkit.MainService.{
  debug, RoundInput, MainService, RoundOutcome, level_of, snapshot_of, summary_of_service, enriched,
  feed_and_log, tick_workers, tick_camera_proxy, tick_tasks_and_commands, round, after_camera,
  outcomes,
}
use youyeetoo_rk3588_toolkit.MainService.Run.{start}

module _ (d : Doubles) where
  -- The last summary, if there is one, is that of an earlier round or of the last one.
  pub IsBehind : MainService d → Type 0
  IsBehind s = (n : ℕ) → logged_count s.last_summary ≡ some n → n ≤ s.loop_count

  enriched-append :
      (summary can telemetry : Text) (restarts : ℕ)
      → (more : Text) × (enriched summary can telemetry restarts ≡ summary ++ more)
  unfolding enriched
  enriched-append summary can telemetry restarts = (_, refl)

  summary-count : (s : MainService d) → logged_count (summary_of_service d s) ≡ some s.loop_count
  unfolding summary_of_service
  summary-count s =
      let (more, e) =
        enriched-append (build_summary (snapshot_of d s)) s.can_proxy.status_summary
          s.telemetry_proxy.status_summary (restart_count (codes "camera_worker") s.supervisor) in
      ap logged_count e ∙ logged_count-build_summary (snapshot_of d s) more ∙ count s
    where
      count : (s : MainService d) → some (snapshot_of d s).loop_count ≡ some s.loop_count
      count s = refl

  tasks-keep :
      (r : RoundInput) (s : MainService d)
      → ((tick_tasks_and_commands d r s).last_summary ≡ s.last_summary)
        × ((tick_tasks_and_commands d r s).loop_count ≡ s.loop_count)
  unfolding tick_tasks_and_commands
  tasks-keep r s = (refl, refl)

  -- The line at the end of a round is the summary, and none of the level debug.
  abbrev pub IsLogged : RoundOutcome d → Type 0
  IsLogged o = (o.logged.0 ≢ debug) × (o.logged.1 ≡ o.service.last_summary)

  level_of-ne : (l : ServiceLifecycleState) → level_of l ≢ debug
  unfolding level_of
  level_of-ne l = ground arith

  summary-changes :
      (s : MainService d)
      → logged_count s.last_summary ≢ some s.loop_count
      → text_eq (summary_of_service d s) s.last_summary ≡ false
  summary-changes s h = elim (Bool-cases (text_eq (summary_of_service d s) s.last_summary)) [
    | inl same ↦ absurd (
        h (
          ap logged_count (sym ((text_eq_iff (summary_of_service d s) s.last_summary).0 same))
          ∙ summary-count s))
    | inr other ↦ other
  ]

  feed_and_log-IsLogged :
      (r : RoundInput) (s : MainService d)
      → logged_count s.last_summary ≢ some s.loop_count
      → IsLogged (feed_and_log d r s) × IsBehind (feed_and_log d r s).service
  unfolding feed_and_log IsBehind
  feed_and_log-IsLogged r s h = rw (summary-changes s h) (
    (level_of-ne (snapshot_of d s).lifecycle_state, refl),
    λ n e. let same : some s.loop_count ≡ some n = sym (summary-count s) ∙ e in ground arith,
  )

  -- What holds of an outcome, if there is one.
  abbrev Holds : Option (RoundOutcome d) → Type 0
  Holds none = Unit
  Holds (some o) = IsLogged o × IsBehind o.service

  behind-new :
      (s : MainService d) → IsBehind s → logged_count s.last_summary ≢ some (s.loop_count + 1)
  unfolding IsBehind
  behind-new s h e = ground (arith, h (s.loop_count + 1) e)

  after_camera-Holds :
      (r : RoundInput) (s : MainService d) (o : Option (TaskManager CameraWorkerProxy))
      → logged_count s.last_summary ≢ some s.loop_count
      → Holds (after_camera d r s o)
  unfolding after_camera
  after_camera-Holds r s none h = tt
  after_camera-Holds r s (some tm) h =
      feed_and_log-IsLogged r (tick_tasks_and_commands d r (record s { task_manager = tm })) h

  round-Holds : (r : RoundInput) (s : MainService d) → IsBehind s → Holds (round d r s)
  unfolding round tick_workers
  round-Holds r s h =
      let s1 : MainService d = tick_workers d r s in
      after_camera-Holds r s1 (tick_camera_proxy s1.supervisor r.camera_arrivals s1.task_manager)
        (behind-new s h)

  outcomes-IsLogged :
      (rs : List RoundInput) (s : MainService d) → IsBehind s → All IsLogged (outcomes d rs s)
  unfolding outcomes
  outcomes-IsLogged [] s h = tt
  outcomes-IsLogged (r ∷ rs) s h =
      after (round d r s) (λ (t : MainService d). outcomes d rs t) (outcomes-IsLogged rs)
        (round-Holds r s h)
    where
      after :
          (o : Option (RoundOutcome d)) (further : MainService d → List (RoundOutcome d))
          → ((t : MainService d) → IsBehind t → All IsLogged (further t))
          → Holds o
          → All IsLogged (elim o [ none ↦ [] | some o ↦ o ∷ further o.service ])
      after none further logs p = tt
      after (some o) further logs (p, q) = (p, logs o.service q)

  start-IsBehind :
      (options : CameraAppOptions) (spawns : ℕ → SpawnOutcome) (kernel : Kernel) (now : ℕ)
      (files : FileSystem)
      → IsBehind (start d options spawns kernel now files)
  unfolding start IsBehind logged_count
  start-IsBehind options spawns kernel now files n e = ground arith

  -- Every round of the service logs its summary as a line that is not of the level debug: the
  -- summary holds the loop count, so it is never the one of the round before, and the service never
  -- finds its state unchanged.
  pub every_round_logs :
      (options : CameraAppOptions) (spawns : ℕ → SpawnOutcome) (kernel : Kernel) (now : ℕ)
      (files : FileSystem) (rs : List RoundInput)
      → All IsLogged (outcomes d rs (start d options spawns kernel now files))
  every_round_logs options spawns kernel now files rs =
      outcomes-IsLogged rs (start d options spawns kernel now files)
        (start-IsBehind options spawns kernel now files)
