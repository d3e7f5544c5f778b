-- ===== src/MainService/Feeding.antt =====
-- What the watchdog gets from the loop of app/src/main_service.cpp.
use youyeetoo_rk3588_toolkit.Prelude.{
  ℕ, suc, ◌≡◌, refl, sym, ap, ◌∙◌, ◌&&◌, List, [], ◌∷◌, Option, none, some, arith, length, map,
}
use youyeetoo_rk3588_toolkit.TelemetryWorker.{Doubles}
use youyeetoo_rk3588_toolkit.Supervisor.{Supervisor, TickInput, tick as tick_supervisor}
use youyeetoo_rk3588_toolkit.Watchdog.{WatchdogService, Kernel, Action, feed}
use youyeetoo_rk3588_toolkit.CanWorker.Proxy.{CanWorkerProxy, ChannelEvent, tick as tick_can}
use youyeetoo_rk3588_toolkit.TelemetryWorker.Proxy.{TelemetryWorkerProxy, tick as tick_telemetry}
use youyeetoo_rk3588_toolkit.TaskManager.{TaskManager}
use youyeetoo_rk3588_toolkit.CameraWorker.Proxy.{CameraWorkerProxy}
use youyeetoo_rk3588_toolkit.MainService.{
  RoundInput, MainService, RoundOutcome, tick_workers, tick_camera_proxy, tick_tasks_and_commands,
  feed_and_log, after_camera, round, outcomes,
}

-- What happens to the processes, on the channels of the CAN and the telemetry worker, and to the
-- watchdog, and the clock: all of a round's input but what concerns the camera worker.
abbrev pub BoardInput : Type 0
BoardInput = TickInput × List ChannelEvent × List ChannelEvent × Kernel × ℕ

abbrev pub board_input : RoundInput → BoardInput
board_input r = (r.processes, r.can_events, r.telemetry_events, r.kernel, r.now)

module _ (d : Doubles) where
  -- The part of the service that has no part in the camera.
  abbrev pub Board : Type 0
  Board = Supervisor × CanWorkerProxy × TelemetryWorkerProxy d × WatchdogService

  abbrev pub board : MainService d → Board
  board s = (s.supervisor, s.can_proxy, s.telemetry_proxy, s.watchdog)

  -- A round of that part alone, and what it does to the watchdog.
  step : BoardInput → Board → Board × List Action
  step (processes, can_events, telemetry_events, kernel, now)
        (supervisor, can, telemetry, watchdog) =
      let supervisor' = tick_supervisor processes supervisor in
      let can' = tick_can supervisor' can_events can in
      let telemetry' = tick_telemetry d supervisor' telemetry_events telemetry in
      let (fed, watchdog', actions) =
        feed kernel (can'.channel_alive && telemetry'.channel_alive) now watchdog in
      ((supervisor', can', telemetry', watchdog'), actions)

  steps : List BoardInput → Board → List (List Action)
  unfolding step
  steps [] b = []
  steps (i ∷ is) b = let (b', actions) = step i b in actions ∷ steps is b'

  -- The outcome, if there is one, is that of the part alone.
  abbrev IsStep : RoundInput → MainService d → Option (RoundOutcome d) → Type 0
  IsStep r s none = Unit
  IsStep r s (some o) = (board o.service, o.actions) ≡ step (board_input r) (board s)

  after_camera-IsStep :
      (r : RoundInput) (s : MainService d) (o : Option (TaskManager CameraWorkerProxy))
      → IsStep r s (after_camera d r (tick_workers d r s) o)
  unfolding after_camera feed_and_log tick_tasks_and_commands tick_workers step
  after_camera-IsStep r s none = tt
  after_camera-IsStep r s (some tm) = refl

  round-IsStep : (r : RoundInput) (s : MainService d) → IsStep r s (round d r s)
  unfolding round
  round-IsStep r s =
      let s1 : MainService d = tick_workers d r s in
      after_camera-IsStep r s (tick_camera_proxy s1.supervisor r.camera_arrivals s1.task_manager)

  abbrev pub actions_of : List (RoundOutcome d) → List (List Action)
  actions_of [] = []
  actions_of (o ∷ os) = o.actions ∷ actions_of os

  outcomes-steps :
      (rs : List RoundInput) (s : MainService d)
      → length (outcomes d rs s) ≡ length rs
      → actions_of (outcomes d rs s) ≡ steps (map board_input rs) (board s)
  unfolding outcomes steps
  outcomes-steps [] s h = refl
  outcomes-steps (r ∷ rs) s h =
      after (round d r s) (λ (t : MainService d). outcomes d rs t) (outcomes-steps rs)
        (round-IsStep r s) h
    where
      after :
          (o : Option (RoundOutcome d)) (further : MainService d → List (RoundOutcome d))
          → ((t : MainService d)
              → length (further t) ≡ length rs
              → actions_of (further t) ≡ steps (map board_input rs) (board t))
          → IsStep r s o
          → length (elim o [ none ↦ [] | some o ↦ o ∷ further o.service ]) ≡ suc (length rs)
          → actions_of (elim o [ none ↦ [] | some o ↦ o ∷ further o.service ])
            ≡ steps (map board_input (r ∷ rs)) (board s)
      after none further ih e l = ground arith
      after (some o) further ih e l =
          ap (λ (xs : List (List Action)). o.actions ∷ xs) (ih o.service (omega arith))
          ∙ ap (λ (p : Board × List Action). p.1 ∷ steps (map board_input rs) p.0) e

  -- What the service does to the watchdog has nothing to do with the camera: two services with the
  -- same supervisor, proxies of the CAN and the telemetry worker and watchdog, which no exception
  -- ends, do the same to the watchdog in rounds of the same inputs, whatever arrives from the camera
  -- worker, whatever tasks and commands there are, and whatever is in the files.
  pub feeding-camera :
      (rs qs : List RoundInput) (s t : MainService d)
      → map board_input rs ≡ map board_input qs
      → board s ≡ board t
      → length (outcomes d rs s) ≡ length rs
      → length (outcomes d qs t) ≡ length qs
      → actions_of (outcomes d rs s) ≡ actions_of (outcomes d qs t)
  feeding-camera rs qs s t inputs boards left right =
      outcomes-steps rs s left
      ∙ ap (λ is. steps is (board s)) inputs
      ∙ ap (steps (map board_input qs)) boards
      ∙ sym (outcomes-steps qs t right)
