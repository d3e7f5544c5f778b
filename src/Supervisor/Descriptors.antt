-- ===== src/Supervisor/Descriptors.antt =====
-- The channel descriptors that the supervisor of app/src/worker_supervisor.cpp holds.
use youyeetoo_rk3588_toolkit.Prelude.{
  ℕ, ◌+◌, ◌≤◌, ◌≡◌, refl, List, [], ◌∷◌, some, ℤ, arith, Option-cases, inl, inr, sym, ◌∙◌,
}
use youyeetoo_rk3588_toolkit.Prelude.Text.{Text}
use youyeetoo_rk3588_toolkit.Prelude.Dict.{lookup, insert}
use youyeetoo_rk3588_toolkit.Supervisor.{
  Supervisor, WorkerState, SpawnOutcome, no_channel, no_fork, forked, TickInput, held, spawn_one,
  spawn_at, restart_at, restart_loop, start_loop, start_all, reap, reap_worker, map_workers, tick,
  run,
}

-- The workers whose channel is open.
unfoldable pub held_all : List (Text × WorkerState) → ℕ
held_all [] = 0
held_all ((k, ws) ∷ rest) = held ws + held_all rest

-- The count of descriptors is that of the workers' open channels.
abbrev pub IsBalanced : Supervisor → Type 0
IsBalanced s = s.fds ≡ held_all s.workers

held-le : (ws : WorkerState) → held ws ≤ 1
held-le ws = ground arith

spawn_one-held :
    (o : SpawnOutcome) (ws : WorkerState) (fds : ℕ)
    → held ws ≤ fds
    → (spawn_one o ws fds).1 + held ws ≡ fds + held (spawn_one o ws fds).0
unfolding spawn_one
spawn_one-held no_channel ws fds h = refl
spawn_one-held no_fork ws fds h = omega (arith, held-le ws)
spawn_one-held (forked pid fd) ws fds h = omega (arith, held-le ws)

held-le-held_all :
    (k : Text) (ws : WorkerState) (m : List (Text × WorkerState))
    → lookup k m ≡ some ws
    → held ws ≤ held_all m
unfolding lookup held_all
held-le-held_all k ws [] e = ground arith
held-le-held_all k ws ((j, x) ∷ m) e = ground (arith, held-le-held_all k ws m)

held_all-insert :
    (k : Text) (ws ws' : WorkerState) (m : List (Text × WorkerState))
    → lookup k m ≡ some ws
    → held_all (insert k ws' m) + held ws ≡ held_all m + held ws'
unfolding lookup insert held_all
held_all-insert k ws ws' [] e = ground arith
held_all-insert k ws ws' ((j, x) ∷ m) e = ground (arith, held_all-insert k ws ws' m)

spawn_at-IsBalanced :
    (o : SpawnOutcome) (k : Text) (s : Supervisor) → IsBalanced s → IsBalanced (spawn_at o k s)
unfolding spawn_at
spawn_at-IsBalanced o k s b = elim (Option-cases (lookup k s.workers)) [
  | inl e ↦ rw (e, spawn_at) b
  | inr (ws, e) ↦
      rw (e, spawn_at)
        (omega (
          arith,
          held-le-held_all k ws s.workers e,
          spawn_one-held o ws s.fds (omega (arith, held-le-held_all k ws s.workers e)),
          held_all-insert k ws (spawn_one o ws s.fds).0 s.workers e,
        ))
]

restart_at-IsBalanced :
    (now : ℕ) (o : SpawnOutcome) (k : Text) (s : Supervisor)
    → IsBalanced s
    → IsBalanced (restart_at now o k s)
unfolding restart_at
restart_at-IsBalanced now o k s b = ground (arith, spawn_at-IsBalanced o k s b)

start_loop-IsBalanced :
    (outcomes : ℕ → SpawnOutcome) (i : ℕ) (names : List Text) (s : Supervisor)
    → IsBalanced s
    → IsBalanced (start_loop outcomes i names s)
unfolding start_loop
start_loop-IsBalanced outcomes i [] s b = b
start_loop-IsBalanced outcomes i (k ∷ names) s b =
    start_loop-IsBalanced outcomes (i + 1) names _ (spawn_at-IsBalanced (outcomes i) k s b)

restart_loop-IsBalanced :
    (now : ℕ) (outcomes : ℕ → SpawnOutcome) (i : ℕ) (names : List Text) (s : Supervisor)
    → IsBalanced s
    → IsBalanced (restart_loop now outcomes i names s)
unfolding restart_loop
restart_loop-IsBalanced now outcomes i [] s b = b
restart_loop-IsBalanced now outcomes i (k ∷ names) s b =
    restart_loop-IsBalanced now outcomes (i + 1) names _
      (restart_at-IsBalanced now (outcomes i) k s b)

held-reap_worker :
    (dead : ℤ) (now : ℕ) (ws : WorkerState) → held (reap_worker dead now ws) ≡ held ws
unfolding reap_worker
held-reap_worker dead now ws = ground arith

held_all-map_workers :
    (dead : ℤ) (now : ℕ) (m : List (Text × WorkerState))
    → held_all (map_workers (reap_worker dead now) m) ≡ held_all m
unfolding held_all
held_all-map_workers dead now [] = refl
held_all-map_workers dead now ((k, ws) ∷ m) =
    omega (arith, held-reap_worker dead now ws, held_all-map_workers dead now m)

held_all-reap :
    (dead : List (ℤ × ℕ)) (m : List (Text × WorkerState)) → held_all (reap dead m) ≡ held_all m
unfolding reap
held_all-reap [] m = refl
held_all-reap ((d, now) ∷ dead) m =
    ground
      (arith, held_all-reap dead (map_workers (reap_worker d now) m), held_all-map_workers d now m)

tick-IsBalanced : (e : TickInput) (s : Supervisor) → IsBalanced s → IsBalanced (tick e s)
unfolding tick
tick-IsBalanced e s b =
    restart_loop-IsBalanced e.now e.outcomes 0 s.order _ (b ∙ sym (held_all-reap e.dead s.workers))

run-IsBalanced : (es : List TickInput) (s : Supervisor) → IsBalanced s → IsBalanced (run es s)
unfolding run
run-IsBalanced [] s b = b
run-IsBalanced (e ∷ es) s b = run-IsBalanced es (tick e s) (tick-IsBalanced e s b)

-- No descriptor leaks: from a supervisor whose count of channel descriptors is the number of its
-- workers' open channels, starting all workers and any ticks after it keep that so, whichever
-- spawns fail and whichever children die.
pub start_and_run-IsBalanced :
    (outcomes : ℕ → SpawnOutcome) (es : List TickInput) (s : Supervisor)
    → IsBalanced s
    → IsBalanced (run es (start_all outcomes s))
unfolding start_all
start_and_run-IsBalanced outcomes es s b =
    run-IsBalanced es _ (start_loop-IsBalanced outcomes 0 s.order s b)
