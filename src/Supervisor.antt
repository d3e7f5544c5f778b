-- ===== src/Supervisor.antt =====
-- app/src/worker_supervisor.cpp: worker processes that are forked, reaped and restarted after a
-- back-off. A spawn's system calls (socketpair, fork), the children that waitpid reports and the
-- clock are inputs; the code of a child process is not part of the supervisor. Times are in
-- milliseconds. `fds` counts the channel descriptors that the parent process holds.
pub mod Backoff
pub mod Descriptors
pub mod Restart
pub mod Recovery
pub mod Consistency
pub mod Tests
use Prim.Native.Nat.{min}
use youyeetoo_rk3588_toolkit.Prelude.{
  ℕ, zero, suc, ◌+◌, ◌-◌, ◌*◌, ◌^◌, Bool, true, false, List, [], ◌∷◌, ◌++◌, Option, none, some, ℤ,
  pos, minus_one, is_nonneg, is_positive, eq_ℤ, ltb, leb, if◌then◌else◌,
}
use youyeetoo_rk3588_toolkit.Prelude.Text.{Text, text_eq}
use youyeetoo_rk3588_toolkit.Prelude.Dict.{lookup, insert}

-- The name stands for the whole descriptor, whose other field is the child's code.
pub record WorkerState : Type 0 where
  pub name : Text
  pub pid : ℤ
  pub parent_fd : ℤ
  pub restart_count : ℕ
  pub pending_restart : Bool
  pub next_restart_at : ℕ

pub record Supervisor : Type 0 where
  pub workers : List (Text × WorkerState)
  pub order : List Text
  pub fds : ℕ

abbrev pub empty : Supervisor
empty = record { workers = []; order = []; fds = 0 }

abbrev fresh : Text → WorkerState
fresh name = record {
  name = name;
  pid = minus_one;
  parent_fd = minus_one;
  restart_count = 0;
  pending_restart = false;
  next_restart_at = 0;
}

unfoldable pub register : Text → Supervisor → Supervisor
register name s = record s {
  workers = insert name (fresh name) s.workers;
  order = s.order ++ name ∷ [];
}

-- What the system calls of one spawn return: socketpair fails; fork fails; or fork returns the
-- child's pid to the parent, whose end of the channel is `fd`.
pub data SpawnOutcome : Type 0 where
  no_channel : SpawnOutcome
  no_fork : SpawnOutcome
  forked : (pid fd : ℕ) → SpawnOutcome

-- 1 if the worker's channel is open in the parent.
abbrev pub held : WorkerState → ℕ
held ws = if is_nonneg ws.parent_fd then 1 else 0

-- The worker after a spawn, and the number of open descriptors.
unfoldable pub spawn_one : SpawnOutcome → WorkerState → ℕ → WorkerState × ℕ
spawn_one no_channel ws fds = (record ws { pending_restart = false }, fds)
spawn_one no_fork ws fds =
    let opened = fds + 2 - held ws in (record ws { parent_fd = minus_one }, opened - 1 - 1)
spawn_one (forked pid fd) ws fds =
    let opened = fds + 2 - held ws in
    (record ws { parent_fd = pos fd; pid = pos pid; pending_restart = false }, opened - 1)

-- BackoffSeconds; a restart count is never negative.
unfoldable pub backoff_seconds : ℕ → ℕ
backoff_seconds n = if leb n 0 then 1 else min (2 ^ min n 5) 30

-- The body of the loop over the workers for one dead child.
unfoldable pub reap_worker : ℤ → ℕ → WorkerState → WorkerState
reap_worker dead now ws =
    if eq_ℤ ws.pid dead
    then record ws {
      pid = minus_one;
      restart_count = ws.restart_count + 1;
      pending_restart = true;
      next_restart_at = now + backoff_seconds (ws.restart_count + 1) * 1000;
    }
    else ws

abbrev pub map_workers :
    (WorkerState → WorkerState) → List (Text × WorkerState) → List (Text × WorkerState)
map_workers f [] = []
map_workers f ((k, ws) ∷ rest) = (k, f ws) ∷ map_workers f rest

-- The children that waitpid returns in one tick, each with the clock when it is recorded. The loop
-- stops at the first result that is not positive.
unfoldable pub reap : List (ℤ × ℕ) → List (Text × WorkerState) → List (Text × WorkerState)
unfolding reap_worker
reap [] workers = workers
reap ((dead, now) ∷ rest) workers =
    let more = reap rest (map_workers (reap_worker dead now) workers) in
    if is_positive dead then more else workers

-- Whether the restart loop spawns this worker.
abbrev pub due : ℕ → WorkerState → Bool
due now ws =
    if ws.pending_restart then (if ltb now ws.next_restart_at then false else true) else false

-- Spawn the worker that `workers_.at(name)` names. (`at` throws if there is none, which
-- `register` excludes.)
unfoldable pub spawn_at : SpawnOutcome → Text → Supervisor → Supervisor
unfolding spawn_one
spawn_at o name s = elim (lookup name s.workers) [
  | none ↦ s
  | some ws ↦
      let (ws', fds') = spawn_one o ws s.fds in
      record s { workers = insert name ws' s.workers; fds = fds' }
]

unfoldable pub restart_at : ℕ → SpawnOutcome → Text → Supervisor → Supervisor
unfolding spawn_at
restart_at now o name s = elim (lookup name s.workers) [
  | none ↦ s
  | some ws ↦ if due now ws then spawn_at o name s else s
]

-- The loops over `order_`; `outcomes i` is what the system calls return for its i-th name.
unfoldable pub start_loop : (ℕ → SpawnOutcome) → ℕ → List Text → Supervisor → Supervisor
start_loop outcomes i [] s = s
start_loop outcomes i (name ∷ rest) s =
    start_loop outcomes (i + 1) rest (spawn_at (outcomes i) name s)

unfoldable pub restart_loop : ℕ → (ℕ → SpawnOutcome) → ℕ → List Text → Supervisor → Supervisor
restart_loop now outcomes i [] s = s
restart_loop now outcomes i (name ∷ rest) s =
    restart_loop now outcomes (i + 1) rest (restart_at now (outcomes i) name s)

unfoldable pub start_all : (ℕ → SpawnOutcome) → Supervisor → Supervisor
unfolding start_loop spawn_at
start_all outcomes s = start_loop outcomes 0 s.order s

-- What the environment does during one tick.
pub record TickInput : Type 0 where
  pub dead : List (ℤ × ℕ)
  pub now : ℕ
  pub outcomes : ℕ → SpawnOutcome

unfoldable pub tick : TickInput → Supervisor → Supervisor
unfolding reap restart_loop restart_at
tick e s = restart_loop e.now e.outcomes 0 s.order (record s { workers = reap e.dead s.workers })

unfoldable pub run : List TickInput → Supervisor → Supervisor
run [] s = s
run (e ∷ es) s = run es (tick e s)

-- The queries.
unfoldable pub get_parent_fd : Text → Supervisor → ℤ
get_parent_fd name s = elim (lookup name s.workers) [ none ↦ minus_one | some ws ↦ ws.parent_fd ]

unfoldable pub is_running : Text → Supervisor → Bool
is_running name s = elim (lookup name s.workers) [ none ↦ false | some ws ↦ is_positive ws.pid ]

unfoldable pub restart_count : Text → Supervisor → ℕ
restart_count name s = elim (lookup name s.workers) [ none ↦ 0 | some ws ↦ ws.restart_count ]
