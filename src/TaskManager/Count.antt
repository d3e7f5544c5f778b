-- ===== src/TaskManager/Count.antt =====
-- How often the completions of app/src/task_manager.cpp are counted.
use youyeetoo_rk3588_toolkit.Prelude.{
  ℕ, ◌+◌, ◌≤◌, ◌≡◌, List, [], ◌∷◌, none, some, arith, if◌then◌else◌,
}
use youyeetoo_rk3588_toolkit.Command.{ModuleTask}
use youyeetoo_rk3588_toolkit.TaskManager.{ICameraManager, TaskManager, submit_module_task, tick}

module _ (cm : ICameraManager) where
  open cm use {State, is_task_finished}

  -- The main loop's calls; between them the camera manager changes as it likes.
  pub data Call : Type 0 where
    ticks : Call
    submits : ModuleTask → Call
    changes : (State → State) → Call

  abbrev change : (State → State) → TaskManager State → TaskManager State
  change f tm = record tm {
    camera_manager = elim tm.camera_manager [ none ↦ none | some c ↦ some (f c) ];
  }

  -- The task manager, and the number of tasks taken.
  step : Call → TaskManager State × ℕ → TaskManager State × ℕ
  step ticks (tm, taken) = (tick cm tm, taken)
  step (submits task) (tm, taken) =
      let (tm', accepted, message) = submit_module_task cm task tm in
      (tm', if accepted then taken + 1 else taken)
  step (changes f) (tm, taken) = (change f tm, taken)

  unfoldable pub run : List Call → TaskManager State × ℕ → TaskManager State × ℕ
  unfolding step
  run [] st = st
  run (call ∷ calls) st = run calls (step call st)

  -- A completion that may still be counted.
  abbrev open_one : TaskManager State → ℕ
  open_one tm = if tm.completion_recorded then 0 else 1

  abbrev IsCounted : TaskManager State × ℕ → Type 0
  IsCounted st = st.0.completed_task_count + open_one st.0 ≤ st.1 + 1

  step-IsCounted :
      (call : Call) (tm : TaskManager State) (taken : ℕ)
      → IsCounted (tm, taken)
      → IsCounted (step call (tm, taken))
  unfolding step tick submit_module_task
  step-IsCounted ticks tm taken h = ground arith
  step-IsCounted (submits task) tm taken h = ground arith
  step-IsCounted (changes f) tm taken h = ground arith

  run-IsCounted :
      (calls : List Call) (tm : TaskManager State) (taken : ℕ)
      → IsCounted (tm, taken)
      → IsCounted (run calls (tm, taken))
  unfolding run
  run-IsCounted [] tm taken h = h
  run-IsCounted (call ∷ calls) tm taken h =
      run-IsCounted calls (step call (tm, taken)).0 (step call (tm, taken)).1
        (step-IsCounted call tm taken h)

  -- However the camera manager behaves, the completions that are counted never outnumber the tasks
  -- that were taken by more than one (the one that a manager reports as finished at the start).
  pub completed-le-taken :
      (calls : List Call) (tm : TaskManager State)
      → tm.completed_task_count ≡ 0
      → (run calls (tm, 0)).0.completed_task_count ≤ (run calls (tm, 0)).1 + 1
  completed-le-taken calls tm h = omega (arith, run-IsCounted calls tm 0 (ground arith))

  -- A completion is counted once: a second tick changes nothing.
  pub tick-tick : (tm : TaskManager State) → tick cm (tick cm tm) ≡ tick cm tm
  unfolding tick
  tick-tick tm = ground arith
