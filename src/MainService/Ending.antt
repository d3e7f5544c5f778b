-- ===== src/MainService/Ending.antt =====
-- How the loop of app/src/main_service.cpp ends.
use youyeetoo_rk3588_toolkit.Prelude.{
  ℕ, suc, ◌+◌, ◌≤◌, ◌<◌, ◌≡◌, ◌↔◌, refl, ap, ◌∙◌, pos, Bool, true, false, List, [], ◌∷◌, Option,
  none, some, arith, length, if◌then◌else◌, ltb, Bool-cases, inl, inr,
}
use youyeetoo_rk3588_toolkit.Camera.{CameraAppOptions, CameraDeviceState, fatal}
use youyeetoo_rk3588_toolkit.TelemetryWorker.{Doubles}
use youyeetoo_rk3588_toolkit.TelemetryManager.{evaluate_lifecycle}
use youyeetoo_rk3588_toolkit.TaskManager.{TaskManager}
use youyeetoo_rk3588_toolkit.CameraWorker.Proxy.{CameraWorkerProxy}
use youyeetoo_rk3588_toolkit.MainService.{
  RoundInput, MainService, RoundOutcome, tick_workers, tick_camera_proxy, tick_tasks_and_commands,
  feed_and_log, after_camera, round, outcomes, camera_snapshot_of,
}
use youyeetoo_rk3588_toolkit.MainService.Run.{
  goes_on, exit_code, is_fatal, LoopEnd, left, crashed, loop,
}

fatal_iff :
    (device : CameraDeviceState) (bootstrapped : Bool)
    → (◌≡◌ {A = ℕ} (if is_fatal (evaluate_lifecycle device bootstrapped) then 4 else 0) 4)
      ↔ (device ≡ fatal)
unfolding evaluate_lifecycle
fatal_iff device bootstrapped = ground arith

module _ (d : Doubles) where
  -- The exit code is 4 exactly if the camera is in the state Fatal.
  exit_code-fatal :
      (s : MainService d)
      → (exit_code d s ≡ 4) ↔ ((camera_snapshot_of s.task_manager).device_state ≡ fatal)
  unfolding exit_code
  exit_code-fatal s =
      fatal_iff (camera_snapshot_of s.task_manager).device_state s.task_manager.bootstrapped

  abbrev IsCounted : MainService d → Option (RoundOutcome d) → Type 0
  IsCounted s none = Unit
  IsCounted s (some o) = (o.service.loop_count ≡ s.loop_count + 1) × (o.service.options ≡ s.options)

  after_camera-IsCounted :
      (r : RoundInput) (s : MainService d) (o : Option (TaskManager CameraWorkerProxy))
      → IsCounted s (after_camera d r (tick_workers d r s) o)
  unfolding after_camera feed_and_log tick_tasks_and_commands tick_workers
  after_camera-IsCounted r s none = tt
  after_camera-IsCounted r s (some tm) = (refl, refl)

  round-IsCounted : (r : RoundInput) (s : MainService d) → IsCounted s (round d r s)
  unfolding round
  round-IsCounted r s =
      let s1 : MainService d = tick_workers d r s in
      after_camera-IsCounted r s (tick_camera_proxy s1.supervisor r.camera_arrivals s1.task_manager)

  goes_on-below :
      (s : MainService d) (m : ℕ)
      → s.options.max_loops ≡ pos (suc m)
      → s.loop_count < suc m
      → goes_on d s ≡ true
  unfolding goes_on
  goes_on-below s m e l = rw e (ground arith)

  goes_on-at :
      (s : MainService d) (m : ℕ)
      → s.options.max_loops ≡ pos (suc m)
      → s.loop_count ≡ suc m
      → goes_on d s ≡ false
  unfolding goes_on
  goes_on-at s m e l = rw (e, l) (ground arith)

  goes_on_forever : (s : MainService d) → s.options.max_loops ≡ pos 0 → goes_on d s ≡ true
  unfolding goes_on
  goes_on_forever s e = rw e refl

  -- The loop left with the exit code of a service behind so many rounds.
  abbrev pub IsLeftAfter : ℕ → LoopEnd d → Type 0
  IsLeftAfter n end =
      (s : MainService d) × (end ≡ left (exit_code d s) s)
      × (s.loop_count ≡ n)
      × ((exit_code d s ≡ 4) ↔ ((camera_snapshot_of s.task_manager).device_state ≡ fatal))

  leaves :
      (rs : List RoundInput) (s : MainService d) (m : ℕ)
      → s.options.max_loops ≡ pos (suc m)
      → s.loop_count ≡ suc m
      → IsLeftAfter (suc m) (loop d rs s)
  unfolding loop
  leaves [] s m e l = (s, rw (goes_on-at s m e l) refl, l, exit_code-fatal s)
  leaves (r ∷ rs) s m e l = (s, at (round d r s), l, exit_code-fatal s)
    where
      at :
          (o : Option (RoundOutcome d))
          → (elim o [
            | none ↦ if goes_on d s then crashed else left (exit_code d s) s
            | some o ↦
                let further = loop d rs o.service in
                if goes_on d s then further else left (exit_code d s) s
          ])
            ≡ left (exit_code d s) s
      at none = rw (goes_on-at s m e l) refl
      at (some o) = rw (goes_on-at s m e l) refl

  -- The rounds behind the first one, given how they end.
  module _ (r : RoundInput) (rs : List RoundInput) (s : MainService d) (m : ℕ)
      (below : s.loop_count < suc m) (e : s.options.max_loops ≡ pos (suc m))
      (enough : suc m ≤ s.loop_count + suc (length rs))
      (ends : (t : MainService d)
        → t.options.max_loops ≡ pos (suc m)
        → t.loop_count ≤ suc m
        → suc m ≤ t.loop_count + length rs
        → length (outcomes d rs t) ≡ length rs
        → IsLeftAfter (suc m) (loop d rs t)) where
    continue :
        (o : Option (RoundOutcome d))
        → IsCounted s o
        → length (elim o [ none ↦ [] | some o ↦ o ∷ outcomes d rs o.service ]) ≡ suc (length rs)
        → IsLeftAfter (suc m) (elim o [
          | none ↦ if goes_on d s then crashed else left (exit_code d s) s
          | some o ↦
              let further = loop d rs o.service in
              if goes_on d s then further else left (exit_code d s) s
        ])
    continue none counted complete = ground arith
    continue (some o) (counted, same) complete = rw (goes_on-below s m e below) (
        ends o.service (ap (λ (x : CameraAppOptions). x.max_loops) same ∙ e) (omega arith)
          (omega arith) (omega arith))

  -- A service whose max_loops is positive and no less than its loop count leaves the loop behind
  -- exactly that many rounds, if no exception does, with the exit code 4 if the camera is then in
  -- the state Fatal, and otherwise with another one.
  pub loop-IsLeftAfter :
      (rs : List RoundInput) (s : MainService d) (m : ℕ)
      → s.options.max_loops ≡ pos (suc m)
      → s.loop_count ≤ suc m
      → suc m ≤ s.loop_count + length rs
      → length (outcomes d rs s) ≡ length rs
      → IsLeftAfter (suc m) (loop d rs s)
  unfolding outcomes loop
  loop-IsLeftAfter [] s m e l enough complete = leaves [] s m e (omega arith)
  loop-IsLeftAfter (r ∷ rs) s m e l enough complete = elim (Bool-cases (ltb s.loop_count (suc m))) [
    | inr done ↦ leaves (r ∷ rs) s m e (ground arith)
    | inl below ↦
        continue r rs s m (ground arith) e enough
          (λ (t : MainService d) f c k h. loop-IsLeftAfter rs t m f c k h) (round d r s)
          (round-IsCounted r s) complete
  ]
