-- ===== src/CameraWorker/Answers.antt =====
-- What the proxy of app/src/camera_worker.cpp answers, compared with the camera manager of
-- app/src/camera_manager.cpp that it stands for.
use youyeetoo_rk3588_toolkit.Prelude.{
  ◌≡◌, ap, ◌∙◌, Bool, true, false, not, ◌&&◌, ◌||◌, List, [], ◌∷◌, ◌++◌, none, some, arith, All,
  is_nonneg,
}
use youyeetoo_rk3588_toolkit.Prelude.Text.{Text, codes, text_eq, is_empty}
use youyeetoo_rk3588_toolkit.Prelude.Dict.{lookup}
use youyeetoo_rk3588_toolkit.Supervisor.{Supervisor, get_parent_fd}
use youyeetoo_rk3588_toolkit.WorkerChannel.{WorkerChannel, datagram}
use youyeetoo_rk3588_toolkit.Camera.{CameraControllerSnapshot, CameraTaskState, cancelled}
use youyeetoo_rk3588_toolkit.CameraController.{Platform, is_final, is_task_finished}
use youyeetoo_rk3588_toolkit.CameraManager.{CameraManager, active_snapshot, is_active_task_finished}
use youyeetoo_rk3588_toolkit.CameraWorker.Report.{IsSnapshot}
use youyeetoo_rk3588_toolkit.CameraWorker.Proxy.{CameraWorkerProxy, tick, is_finished_state}
use youyeetoo_rk3588_toolkit.CameraWorker.Loop.{CameraWorker, Round, goes_on, round}
use youyeetoo_rk3588_toolkit.CameraWorker.Refinement.{messages, tick-round-Shows}

abbrev pub is_cancelled : CameraTaskState → Bool
is_cancelled cancelled = true
is_cancelled _ = false

is_finished_state-is_final :
    (t : CameraTaskState) → is_finished_state t ≡ is_final t && not (is_cancelled t)
unfolding is_finished_state is_final
is_finished_state-is_final t = ground arith

-- The manager has the session that took the last task.
unfoldable pub has_active_session : {D : Type 0} → CameraManager D → Bool
unfolding lookup
has_active_session cm =
    let key = cm.last_active_session_key in
    not (is_empty key)
    && (text_eq key (codes "__default__")
        || elim (lookup key cm.named_sessions) [ none ↦ false | some s ↦ true ])

finished_as_shown :
    {D : Type 0} (cm : CameraManager D)
    → has_active_session cm ≡ true
    → is_final (active_snapshot cm).task_state ≡ is_active_task_finished cm
unfolding has_active_session active_snapshot is_active_task_finished is_task_finished
finished_as_shown cm h = ground arith

-- When a round of the worker has sent a message, and any snapshots sent before it are still in the
-- channel, the proxy behind its next tick answers IsTaskFinished as the worker's camera manager does
-- behind that round, but for a cancelled task, which the proxy never calls finished; if the worker
-- runs, the numbers of the snapshots are in the ranges of their types, and the manager still has the
-- session that took the last task.
pub tick-round-finished :
    (platform : Platform) (ch : WorkerChannel) (r : Round platform.Device)
    (w w' : CameraWorker platform.Device) (msg : Text) (earlier : List CameraControllerSnapshot)
    (supervisor : Supervisor) (p : CameraWorkerProxy)
    → round platform ch r w ≡ goes_on w' (some msg)
    → All IsSnapshot earlier
    → IsSnapshot (active_snapshot w'.manager)
    → is_nonneg (get_parent_fd p.worker_name supervisor) ≡ true
    → has_active_session w'.manager ≡ true
    → (q : CameraWorkerProxy) × (tick supervisor (messages earlier ++ datagram msg ∷ []) p ≡ some q)
      × (q.task_finished
          ≡ is_active_task_finished w'.manager
            && not (is_cancelled (active_snapshot w'.manager).task_state))
tick-round-finished platform ch r w w' msg earlier supervisor p ran valid last runs active =
    let state : CameraTaskState = (active_snapshot w'.manager).task_state in
    let (q, ticked, shows) =
      tick-round-Shows platform ch r w w' msg earlier supervisor p ran valid last runs in
    (
      q,
      ticked,
      shows.finished
          ∙ is_finished_state-is_final state
          ∙ ap (λ b. b && not (is_cancelled state)) (finished_as_shown w'.manager active),
    )
