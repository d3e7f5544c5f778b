-- ===== src/Supervisor/Restart.antt =====
-- Which workers the ticks of app/src/worker_supervisor.cpp start again, and which never.
use mathlib.Core.Path.{subst}
use youyeetoo_rk3588_toolkit.Prelude.{
  ℕ, ◌+◌, ◌≡◌, ◌≢◌, refl, true, false, List, [], ◌∷◌, some, ℤ, pos, negsuc, minus_one, arith,
  is_positive, eq_ℤ, if◌then◌else◌, Option-cases, inl, inr, sym, ◌∙◌, ap, Bool-cases, All, length,
  ◌++◌,
}
use youyeetoo_rk3588_toolkit.Prelude.Text.{Text, text_eq, text_eq_iff, text_eq_refl}
use youyeetoo_rk3588_toolkit.Prelude.Dict.{lookup, lookup-insert}
use youyeetoo_rk3588_toolkit.Supervisor.{
  Supervisor, WorkerState, SpawnOutcome, TickInput, spawn_one, due, spawn_at, restart_at,
  restart_loop, reap, reap_worker, map_workers, tick, is_running,
}

-- `ws` is what the table holds for `name`.
abbrev pub Holds : Text → WorkerState → Supervisor → Type 0
Holds name ws s = lookup name s.workers ≡ some ws

pub lookup-map_workers :
    (f : WorkerState → WorkerState) (k : Text) (m : List (Text × WorkerState)) (ws : WorkerState)
    → lookup k m ≡ some ws
    → lookup k (map_workers f m) ≡ some (f ws)
unfolding lookup
lookup-map_workers f k [] ws e = cc
lookup-map_workers f k ((j, x) ∷ m) ws e = ground (arith, lookup-map_workers f k m ws)

-- A worker with no process: waitpid never names it.
abbrev pub IsDown : WorkerState → Type 0
IsDown ws = ws.pid ≡ minus_one

reap_worker-IsDown :
    (dead : ℤ) (now : ℕ) (ws : WorkerState)
    → IsDown ws
    → is_positive dead ≡ true
    → reap_worker dead now ws ≡ ws
unfolding reap_worker
reap_worker-IsDown (pos n) now ws p h = rw (p, eq_ℤ) refl
reap_worker-IsDown (negsuc n) now ws p h = cc

pub reap-IsDown :
    (dead : List (ℤ × ℕ)) (k : Text) (m : List (Text × WorkerState)) (ws : WorkerState)
    → IsDown ws
    → lookup k m ≡ some ws
    → lookup k (reap dead m) ≡ some ws
unfolding reap
reap-IsDown [] k m ws st e = e
reap-IsDown ((d, now) ∷ dead) k m ws st e = elim (Bool-cases (is_positive d)) [
  | inr stop ↦ rw stop e
  | inl more ↦ rw more (
      reap-IsDown dead k _ ws st (
        lookup-map_workers (reap_worker d now) k m ws e
        ∙ ap some (reap_worker-IsDown d now ws st more)))
]

-- The table behind a spawn.
lookup-spawn_at :
    (o : SpawnOutcome) (j k : Text) (s : Supervisor) (ws : WorkerState)
    → Holds j ws s
    → lookup k (spawn_at o j s).workers
      ≡ (if text_eq j k then some (spawn_one o ws s.fds).0 else lookup k s.workers)
unfolding spawn_at
lookup-spawn_at o j k s ws e = rw (e, spawn_at) (lookup-insert j k _ s.workers)

-- A worker that is not due stays as it is, whichever name the loop is at.
restart_at-keeps :
    (now : ℕ) (o : SpawnOutcome) (j k : Text) (s : Supervisor) (ws : WorkerState)
    → Holds k ws s
    → due now ws ≡ false
    → Holds k ws (restart_at now o j s)
unfolding restart_at
restart_at-keeps now o j k s ws e d = elim (Option-cases (lookup j s.workers)) [
  | inl none_there ↦ rw (none_there, restart_at) e
  | inr (x, there) ↦ elim (Bool-cases (text_eq j k)) [
    | inl same ↦
        let it : some x ≡ some ws =
          sym there ∙ ap (λ (n : Text). lookup n s.workers) ((text_eq_iff j k).0 same) ∙ e in
        ground arith
    | inr other ↦ ground (arith, lookup-spawn_at o j k s x there)
  ]
]

pub restart_loop-keeps :
    (now : ℕ) (outcomes : ℕ → SpawnOutcome) (i : ℕ) (names : List Text) (k : Text) (s : Supervisor)
    (ws : WorkerState)
    → Holds k ws s
    → due now ws ≡ false
    → Holds k ws (restart_loop now outcomes i names s)
unfolding restart_loop
restart_loop-keeps now outcomes i [] k s ws e d = e
restart_loop-keeps now outcomes i (j ∷ names) k s ws e d =
    restart_loop-keeps now outcomes (i + 1) names k _ ws
      (restart_at-keeps now (outcomes i) j k s ws e d) d

-- What a restart makes of a due worker.
pub restart_at-due :
    (now : ℕ) (o : SpawnOutcome) (k : Text) (s : Supervisor) (ws : WorkerState)
    → Holds k ws s
    → due now ws ≡ true
    → Holds k (spawn_one o ws s.fds).0 (restart_at now o k s)
unfolding restart_at
restart_at-due now o k s ws h d =
    rw (h, restart_at) (ground (arith, lookup-spawn_at o k k s ws h, text_eq_refl k))

-- Names that are not `k` leave its worker alone, due or not.
restart_at-other :
    (now : ℕ) (o : SpawnOutcome) (j k : Text) (s : Supervisor) (ws : WorkerState)
    → Holds k ws s
    → j ≢ k
    → Holds k ws (restart_at now o j s)
unfolding restart_at
restart_at-other now o j k s ws h ne = elim (Option-cases (lookup j s.workers)) [
  | inl none_there ↦ rw (none_there, restart_at) h
  | inr (x, there) ↦
      rw (there, restart_at) (ground (arith, lookup-spawn_at o j k s x there, text_eq_iff j k))
]

restart_loop-other :
    (now : ℕ) (outcomes : ℕ → SpawnOutcome) (i : ℕ) (names : List Text) (k : Text) (s : Supervisor)
    (ws : WorkerState)
    → Holds k ws s
    → All (λ j. j ≢ k) names
    → Holds k ws (restart_loop now outcomes i names s)
unfolding restart_loop
restart_loop-other now outcomes i [] k s ws h ne = h
restart_loop-other now outcomes i (j ∷ names) k s ws h (ne, nes) =
    restart_loop-other now outcomes (i + 1) names k _ ws
      (restart_at-other now (outcomes i) j k s ws h ne) nes

-- The restart loop gives the worker at its place what its spawn makes of it; `fds` is the count of
-- descriptors by then.
restart_loop-due :
    (now : ℕ) (outcomes : ℕ → SpawnOutcome) (i n : ℕ) (before after : List Text) (k : Text)
    (s : Supervisor) (ws : WorkerState)
    → Holds k ws s
    → due now ws ≡ true
    → All (λ j. j ≢ k) before
    → All (λ j. j ≢ k) after
    → i + length before ≡ n
    → (fds : ℕ) × Holds k
        (spawn_one (outcomes n) ws fds).0
        (restart_loop now outcomes i (before ++ k ∷ after) s)
unfolding restart_loop
restart_loop-due now outcomes i n [] after k s ws h d nb na e =
    let here : i ≡ n = omega arith in
    (
      s.fds,
      restart_loop-other now outcomes (i + 1) after k _ _
          (subst
            (λ m. Holds k (spawn_one (outcomes m) ws s.fds).0 (restart_at now (outcomes i) k s))
            here (restart_at-due now (outcomes i) k s ws h d))
          na,
    )
restart_loop-due now outcomes i n (j ∷ before) after k s ws h d (ne, nb) na e =
    restart_loop-due now outcomes (i + 1) n before after k _ ws
      (restart_at-other now (outcomes i) j k s ws h ne) d nb na (omega arith)

order-restart_at :
    (now : ℕ) (o : SpawnOutcome) (j : Text) (s : Supervisor)
    → (restart_at now o j s).order ≡ s.order
unfolding restart_at spawn_at
order-restart_at now o j s = ground arith

order-restart_loop :
    (now : ℕ) (outcomes : ℕ → SpawnOutcome) (i : ℕ) (names : List Text) (s : Supervisor)
    → (restart_loop now outcomes i names s).order ≡ s.order
unfolding restart_loop
order-restart_loop now outcomes i [] s = refl
order-restart_loop now outcomes i (j ∷ names) s =
    order-restart_loop now outcomes (i + 1) names _ ∙ order-restart_at now (outcomes i) j s

pub order-tick : (e : TickInput) (s : Supervisor) → (tick e s).order ≡ s.order
unfolding tick
order-tick e s = order-restart_loop e.now e.outcomes 0 s.order _

-- A tick in terms of one worker that is down and due.
pub tick-due :
    (e : TickInput) (before after : List Text) (k : Text) (s : Supervisor) (ws : WorkerState)
    → Holds k ws s
    → IsDown ws
    → due e.now ws ≡ true
    → s.order ≡ before ++ k ∷ after
    → All (λ j. j ≢ k) before
    → All (λ j. j ≢ k) after
    → (fds : ℕ) × Holds k (spawn_one (e.outcomes (length before)) ws fds).0 (tick e s)
unfolding tick
tick-due e before after k s ws h down d o nb na = rw o (
    restart_loop-due e.now e.outcomes 0 (length before) before after k _ ws
      (reap-IsDown e.dead k s.workers ws down h) d nb na (omega arith))

pub is_running_lem :
    (k : Text) (s : Supervisor) (ws : WorkerState)
    → Holds k ws s
    → is_running k s ≡ is_positive ws.pid
unfolding is_running
is_running_lem k s ws h = rw (h, is_running) refl
