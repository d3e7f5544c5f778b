-- ===== src/CameraWorker/Refinement.antt =====
-- The proxy of app/src/camera_worker.cpp stands for the camera manager of the worker.
use mathlib.Core.Path.{subst}
use youyeetoo_rk3588_toolkit.Prelude.{
  ℕ, ◌≡◌, refl, ap, ◌∙◌, ℤ, true, List, [], ◌∷◌, ◌++◌, Option, none, some, arith, All, is_nonneg,
  eq_ℤ, leb, ◌+◌, Bool-cases, inl, inr, if◌then◌else◌,
}
use youyeetoo_rk3588_toolkit.Prelude.Text.{Text}
use youyeetoo_rk3588_toolkit.Supervisor.{Supervisor, get_parent_fd}
use youyeetoo_rk3588_toolkit.WorkerChannel.{RecvResult, datagram, WorkerChannel, send}
use youyeetoo_rk3588_toolkit.Camera.{CameraControllerSnapshot}
use youyeetoo_rk3588_toolkit.TaskManager.Contract.{IsCameraManager}
use youyeetoo_rk3588_toolkit.CameraController.{Platform}
use youyeetoo_rk3588_toolkit.CameraManager.{CameraManager, active_snapshot}
use youyeetoo_rk3588_toolkit.CameraManager.Requests.{tick as tick_manager}
use youyeetoo_rk3588_toolkit.CameraWorker.Snapshots.{serialize_snapshot}
use youyeetoo_rk3588_toolkit.CameraWorker.Report.{IsSnapshot, parse_snapshot-serialize_snapshot}
use youyeetoo_rk3588_toolkit.CameraWorker.Proxy.{
  CameraWorkerProxy, tick, start_task, drain, process_message, adopt, adopt_snapshot, proxy_manager,
  reconnected, is_active_state, is_finished_state,
}
use youyeetoo_rk3588_toolkit.CameraWorker.Loop.{
  CameraWorker, Round, RoundEnd, goes_on, Reception, drained, channel_broken, aborted, report,
  round, receive, after_tick, after_messages, snapshot_interval,
}

-- The proxy is a camera manager as the task manager wants one: once StartTask has taken a request,
-- it reports an active task that is not finished.
pub proxy_manager-IsCameraManager :
    (supervisor : Supervisor) (sent : Text → ℤ) → IsCameraManager (proxy_manager supervisor sent)
unfolding start_task
proxy_manager-IsCameraManager supervisor sent = record {
  taken_is_active = λ request p h. ground arith;
  taken_is_unfinished = λ request p h. ground arith;
}

-- The proxy shows a snapshot, but for its outputs, and the flags that follow from it.
pub record Shows (s : CameraControllerSnapshot) (p : CameraWorkerProxy) : Type 0 where
  pub shown_snapshot : p.cached_snapshot ≡ record s { outputs = [] }
  pub active : p.task_active ≡ is_active_state s.task_state
  pub finished : p.task_finished ≡ is_finished_state s.task_state

adopt-Shows :
    (s : CameraControllerSnapshot) (p : CameraWorkerProxy)
    → Shows s (adopt_snapshot (record s { outputs = [] }) p)
unfolding adopt_snapshot
adopt-Shows s p = record { shown_snapshot = refl; active = refl; finished = refl }

-- What recv returns for these snapshots.
abbrev pub messages : List CameraControllerSnapshot → List RecvResult
messages [] = []
messages (s ∷ ss) = datagram (serialize_snapshot s) ∷ messages ss

drain-message :
    (s : CameraControllerSnapshot) (rest : List RecvResult) (p : CameraWorkerProxy)
    → IsSnapshot s
    → drain (datagram (serialize_snapshot s) ∷ rest) p
      ≡ drain rest (adopt_snapshot (record s { outputs = [] }) p)
unfolding drain process_message adopt
drain-message s rest p h =
    ap (λ r. elim (adopt r p) [ none ↦ none | some q ↦ drain rest q ])
      (parse_snapshot-serialize_snapshot s h)

-- A proxy that adopts the snapshots of some messages shows the last of them.
pub drain-Shows :
    (earlier : List CameraControllerSnapshot) (s : CameraControllerSnapshot) (p : CameraWorkerProxy)
    → All IsSnapshot earlier
    → IsSnapshot s
    → (q : CameraWorkerProxy) × (drain (messages earlier ++ datagram (serialize_snapshot s) ∷ []) p
        ≡ some q)
      × Shows s q
unfolding drain
drain-Shows [] s p hs h =
    (adopt_snapshot (record s { outputs = [] }) p, drain-message s [] p h, adopt-Shows s p)
drain-Shows (e ∷ earlier) s p (he, hs) h =
    let (q, ended, shows) =
      drain-Shows earlier s (adopt_snapshot (record e { outputs = [] }) p) hs h in
    (
      q,
      drain-message e (messages earlier ++ datagram (serialize_snapshot s) ∷ []) p he ∙ ended,
      shows,
    )

pub tick-drain :
    (supervisor : Supervisor) (arrivals : List RecvResult) (p : CameraWorkerProxy)
    → is_nonneg (get_parent_fd p.worker_name supervisor) ≡ true
    → (p' : CameraWorkerProxy) × (tick supervisor arrivals p ≡ drain arrivals p')
unfolding tick
tick-drain supervisor arrivals p h = (
  if eq_ℤ (get_parent_fd p.worker_name supervisor) p.last_seen_fd
      then p
      else reconnected (get_parent_fd p.worker_name supervisor) p,
  rw h refl,
)

module _ (platform : Platform) where
  open platform use {Device}

  -- A message that a round has sent is the snapshot of the manager behind it.
  unfoldable IsSent : RoundEnd Device → Type 0
  IsSent (goes_on w (some msg)) = msg ≡ serialize_snapshot (active_snapshot w.manager)
  IsSent _ = Unit

  report-IsSent :
      (ch : WorkerChannel) (r : Round Device) (cm : CameraManager Device) (last : ℕ)
      → IsSent (report platform ch r cm last)
  unfolding report IsSent
  report-IsSent ch r cm last =
      let msg : Text = serialize_snapshot (active_snapshot cm) in
      elim (Bool-cases (leb (last + snapshot_interval) r.now)) [
        | inl due ↦ rw due (elim (Bool-cases (send r.sent msg ch)) [
          | inl sent ↦ rw sent refl
          | inr unsent ↦ rw unsent tt
        ])
        | inr early ↦ rw early tt
      ]

  after_tick-IsSent :
      (ch : WorkerChannel) (r : Round Device) (last : ℕ) (o : Option (CameraManager Device))
      → IsSent (after_tick platform ch r last o)
  unfolding after_tick IsSent
  after_tick-IsSent ch r last none = tt
  after_tick-IsSent ch r last (some cm) = report-IsSent ch r cm last

  after_messages-IsSent :
      (ch : WorkerChannel) (r : Round Device) (last : ℕ) (m : Reception Device)
      → IsSent (after_messages platform ch r last m)
  unfolding after_messages IsSent
  after_messages-IsSent ch r last channel_broken = tt
  after_messages-IsSent ch r last aborted = tt
  after_messages-IsSent ch r last (drained cm) =
      after_tick-IsSent ch r last (tick_manager platform cm)

  round-sent :
      (ch : WorkerChannel) (r : Round Device) (w w' : CameraWorker Device) (msg : Text)
      → round platform ch r w ≡ goes_on w' (some msg)
      → msg ≡ serialize_snapshot (active_snapshot w'.manager)
  unfolding round IsSent
  round-sent ch r w w' msg h =
      subst IsSent h
        (after_messages-IsSent ch r w.last_snapshot (receive platform ch r.arrivals w.manager))

  -- When a round of the worker has sent a message, and any snapshots sent before it are still in
  -- the channel, the proxy's next tick shows the snapshot of the worker's camera manager as it is
  -- behind that round, without its outputs, and the flags that its task state gives, if the worker
  -- runs and the numbers of the snapshots are in the ranges of their types.
  pub tick-round-Shows :
      (ch : WorkerChannel) (r : Round Device) (w w' : CameraWorker Device) (msg : Text)
      (earlier : List CameraControllerSnapshot) (supervisor : Supervisor) (p : CameraWorkerProxy)
      → round platform ch r w ≡ goes_on w' (some msg)
      → All IsSnapshot earlier
      → IsSnapshot (active_snapshot w'.manager)
      → is_nonneg (get_parent_fd p.worker_name supervisor) ≡ true
      → (q : CameraWorkerProxy) × (tick supervisor (messages earlier ++ datagram msg ∷ []) p
          ≡ some q)
        × Shows (active_snapshot w'.manager) q
  tick-round-Shows ch r w w' msg earlier supervisor p ran valid last runs =
      let s : CameraControllerSnapshot = active_snapshot w'.manager in
      let arrivals : Text → List RecvResult = λ m. messages earlier ++ datagram m ∷ [] in
      let (p', drains) = tick-drain supervisor (arrivals (serialize_snapshot s)) p runs in
      let (q, ended, shows) = drain-Shows earlier s p' valid last in
      (
        q,
        ap (λ m. tick supervisor (arrivals m) p) (round-sent ch r w w' msg ran) ∙ drains ∙ ended,
        shows,
      )
