-- ===== src/Supervisor/Consistency.antt =====
-- The state that app/src/worker_supervisor.cpp keeps of each worker is consistent.
use youyeetoo_rk3588_toolkit.Prelude.{
  ℕ, ◌+◌, ◌≡◌, refl, true, List, [], ◌∷◌, some, ℤ, minus_one, arith, is_positive, is_nonneg, eq_ℤ,
  Option-cases, inl, inr, Bool-cases,
}
use youyeetoo_rk3588_toolkit.Prelude.Text.{Text, text_eq}
use youyeetoo_rk3588_toolkit.Prelude.Dict.{lookup, insert}
use youyeetoo_rk3588_toolkit.Supervisor.{
  Supervisor, WorkerState, SpawnOutcome, no_channel, no_fork, forked, TickInput, spawn_one, due,
  spawn_at, restart_at, restart_loop, reap, reap_worker, map_workers, tick, run,
}

-- A pending worker has no process, and a worker with a process has its channel open: so a restart
-- never abandons a process that is still running.
pub record IsConsistent (ws : WorkerState) : Type 0 where
  pub pending_is_down : ws.pending_restart ≡ true → ws.pid ≡ minus_one
  pub running_is_open : is_positive ws.pid ≡ true → is_nonneg ws.parent_fd ≡ true

abbrev pub EachConsistent : List (Text × WorkerState) → Type 0
EachConsistent [] = Unit
EachConsistent ((k, ws) ∷ m) = IsConsistent ws × EachConsistent m

abbrev pub AllConsistent : Supervisor → Type 0
AllConsistent s = EachConsistent s.workers

EachConsistent-lookup :
    (k : Text) (m : List (Text × WorkerState)) (ws : WorkerState)
    → EachConsistent m
    → lookup k m ≡ some ws
    → IsConsistent ws
unfolding lookup
EachConsistent-lookup k [] ws c e = cc
EachConsistent-lookup k ((j, x) ∷ m) ws (p, c) e = elim (Bool-cases (text_eq j k)) [
  | inl same ↦ let it : x ≡ ws = ground arith in rw (← it) p
  | inr other ↦ EachConsistent-lookup k m ws c (ground arith)
]

EachConsistent-insert :
    (k : Text) (ws : WorkerState) (m : List (Text × WorkerState))
    → EachConsistent m
    → IsConsistent ws
    → EachConsistent (insert k ws m)
unfolding insert
EachConsistent-insert k ws [] c p = (p, tt)
EachConsistent-insert k ws ((j, x) ∷ m) (px, c) p = elim (Bool-cases (text_eq j k)) [
  | inl same ↦ rw (same) (p, c)
  | inr other ↦ rw (other) (px, EachConsistent-insert k ws m c p)
]

spawn_one-IsConsistent :
    (o : SpawnOutcome) (ws : WorkerState) (fds : ℕ)
    → ws.pid ≡ minus_one
    → IsConsistent (spawn_one o ws fds).0
unfolding spawn_one
spawn_one-IsConsistent no_channel ws fds d = record {
  pending_is_down = λ h. d;
  running_is_open = λ h. absurd (ground arith);
}
spawn_one-IsConsistent no_fork ws fds d = record {
  pending_is_down = λ h. d;
  running_is_open = λ h. absurd (ground arith);
}
spawn_one-IsConsistent (forked pid fd) ws fds d = record {
  pending_is_down = λ h. absurd (ground arith);
  running_is_open = λ h. refl;
}

reap_worker-IsConsistent :
    (dead : ℤ) (now : ℕ) (ws : WorkerState)
    → IsConsistent ws
    → IsConsistent (reap_worker dead now ws)
unfolding reap_worker
reap_worker-IsConsistent dead now ws c = elim (Bool-cases (eq_ℤ ws.pid dead)) [
  | inl it ↦
      rw (it) (record { pending_is_down = λ h. refl; running_is_open = λ h. absurd (ground arith) })
  | inr other ↦ rw (other) c
]

map_workers-EachConsistent :
    (dead : ℤ) (now : ℕ) (m : List (Text × WorkerState))
    → EachConsistent m
    → EachConsistent (map_workers (reap_worker dead now) m)
map_workers-EachConsistent dead now [] c = tt
map_workers-EachConsistent dead now ((k, ws) ∷ m) (p, c) =
    (reap_worker-IsConsistent dead now ws p, map_workers-EachConsistent dead now m c)

reap-EachConsistent :
    (dead : List (ℤ × ℕ)) (m : List (Text × WorkerState))
    → EachConsistent m
    → EachConsistent (reap dead m)
unfolding reap
reap-EachConsistent [] m c = c
reap-EachConsistent ((d, now) ∷ dead) m c = elim (Bool-cases (is_positive d)) [
  | inl more ↦ rw more (reap-EachConsistent dead _ (map_workers-EachConsistent d now m c))
  | inr stop ↦ rw stop c
]

spawn_at-AllConsistent :
    (o : SpawnOutcome) (k : Text) (s : Supervisor) (ws : WorkerState)
    → AllConsistent s
    → lookup k s.workers ≡ some ws
    → ws.pid ≡ minus_one
    → AllConsistent (spawn_at o k s)
unfolding spawn_at
spawn_at-AllConsistent o k s ws c e d =
    rw (e, spawn_at) (EachConsistent-insert k _ s.workers c (spawn_one-IsConsistent o ws s.fds d))

restart_at-AllConsistent :
    (now : ℕ) (o : SpawnOutcome) (k : Text) (s : Supervisor)
    → AllConsistent s
    → AllConsistent (restart_at now o k s)
unfolding restart_at
restart_at-AllConsistent now o k s c = elim (Option-cases (lookup k s.workers)) [
  | inl e ↦ rw (e, restart_at) c
  | inr (ws, e) ↦ elim (Bool-cases (due now ws)) [
    | inr waits ↦ rw (e, restart_at, waits) c
    | inl goes ↦
        rw (e, restart_at, goes)
          (spawn_at-AllConsistent o k s ws c e
            ((EachConsistent-lookup k s.workers ws c e).pending_is_down (ground arith)))
  ]
]

restart_loop-AllConsistent :
    (now : ℕ) (outcomes : ℕ → SpawnOutcome) (i : ℕ) (names : List Text) (s : Supervisor)
    → AllConsistent s
    → AllConsistent (restart_loop now outcomes i names s)
unfolding restart_loop
restart_loop-AllConsistent now outcomes i [] s c = c
restart_loop-AllConsistent now outcomes i (k ∷ names) s c =
    restart_loop-AllConsistent now outcomes (i + 1) names _
      (restart_at-AllConsistent now (outcomes i) k s c)

tick-AllConsistent : (e : TickInput) (s : Supervisor) → AllConsistent s → AllConsistent (tick e s)
unfolding tick
tick-AllConsistent e s c =
    restart_loop-AllConsistent e.now e.outcomes 0 s.order _ (reap-EachConsistent e.dead s.workers c)

-- Whatever the environment does in the ticks, a worker that waits for its restart never has a
-- process, and a worker with a process always has its channel open, if that held at the start.
pub run-AllConsistent :
    (es : List TickInput) (s : Supervisor) → AllConsistent s → AllConsistent (run es s)
unfolding run
run-AllConsistent [] s c = c
run-AllConsistent (e ∷ es) s c = run-AllConsistent es (tick e s) (tick-AllConsistent e s c)
