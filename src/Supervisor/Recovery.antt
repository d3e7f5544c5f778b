-- ===== src/Supervisor/Recovery.antt =====
-- What becomes of a worker of app/src/worker_supervisor.cpp whose restart fails or goes through.
use youyeetoo_rk3588_toolkit.Prelude.{
  ℕ, ◌≤◌, ◌<◌, ◌≡◌, ◌≢◌, refl, ◌∙◌, true, false, List, [], ◌∷◌, ◌++◌, minus_one, arith, All, length,
}
use youyeetoo_rk3588_toolkit.Prelude.Text.{Text}
use youyeetoo_rk3588_toolkit.Supervisor.{
  Supervisor, WorkerState, no_channel, no_fork, forked, TickInput, spawn_one, due, tick, run,
  is_running,
}
use youyeetoo_rk3588_toolkit.Supervisor.Restart.{
  Holds, IsDown, tick-due, restart_loop-keeps, reap-IsDown, is_running_lem, order-tick,
}

-- A worker that is down and not pending.
abbrev IsStranded : WorkerState → Type 0
IsStranded ws = (ws.pid ≡ minus_one) × (ws.pending_restart ≡ false)

tick-IsStranded :
    (e : TickInput) (k : Text) (s : Supervisor) (ws : WorkerState)
    → IsStranded ws
    → Holds k ws s
    → Holds k ws (tick e s)
unfolding tick
tick-IsStranded e k s ws (p, q) h =
    restart_loop-keeps e.now e.outcomes 0 s.order k _ ws (reap-IsDown e.dead k s.workers ws p h)
      (ground arith)

run-IsStranded :
    (es : List TickInput) (k : Text) (s : Supervisor) (ws : WorkerState)
    → IsStranded ws
    → Holds k ws s
    → Holds k ws (run es s)
unfolding run
run-IsStranded [] k s ws st h = h
run-IsStranded (e ∷ es) k s ws st h =
    run-IsStranded es k (tick e s) ws st (tick-IsStranded e k s ws st h)

module _ (e : TickInput) (before after : List Text) (k : Text) (s : Supervisor) (ws : WorkerState)
    (h : Holds k ws s) (down : IsDown ws) (d : due e.now ws ≡ true)
    (o : s.order ≡ before ++ k ∷ after) (nb : All (λ j. j ≢ k) before)
    (na : All (λ j. j ≢ k) after) where
  -- A tick whose spawn of a due worker (registered once, at its place in the order) goes through
  -- gets the worker running, whatever happens to the other workers in that tick.
  pub tick_restarts :
      (pid fd : ℕ)
      → e.outcomes (length before) ≡ forked pid fd
      → 0 < pid
      → is_running k (tick e s) ≡ true
  unfolding spawn_one
  tick_restarts pid fd f p =
      let (fds, after_tick) = tick-due e before after k s ws h down d o nb na in
      is_running_lem k _ _ after_tick ∙ rw (f, spawn_one) (ground arith)

  -- If the channel pair of a due worker (registered once) cannot be created in a tick, the worker
  -- is given up for good: no later ticks, of whatever number and with whatever outcomes, get it
  -- running again.
  pub no_channel_strands :
      (es : List TickInput)
      → e.outcomes (length before) ≡ no_channel
      → is_running k (run es (tick e s)) ≡ false
  unfolding spawn_one
  no_channel_strands es f =
      let (fds, after_tick) = tick-due e before after k s ws h down d o nb na in
      let stranded : WorkerState = record ws { pending_restart = false } in
      let there : Holds k stranded (tick e s) = after_tick ∙ rw (f, spawn_one) refl in
      is_running_lem k _ stranded (run-IsStranded es k _ stranded (down, refl) there) ∙ rw down refl

  -- If only the fork of a due worker (registered once) fails in a tick, the worker is tried again:
  -- a next tick, no earlier by the clock, whose spawn goes through gets it running.
  pub no_fork_retries :
      (next : TickInput) (pid fd : ℕ)
      → e.outcomes (length before) ≡ no_fork
      → e.now ≤ next.now
      → next.outcomes (length before) ≡ forked pid fd
      → 0 < pid
      → is_running k (tick next (tick e s)) ≡ true
  unfolding spawn_one
  no_fork_retries next pid fd f le g p =
      let (fds, after_tick) = tick-due e before after k s ws h down d o nb na in
      let closed : WorkerState = record ws { parent_fd = minus_one } in
      let there : Holds k closed (tick e s) = after_tick ∙ rw (f, spawn_one) refl in
      let (fds', after_next) =
        tick-due next before after k (tick e s) closed there down (ground arith)
          (order-tick e s ∙ o) nb na in
      is_running_lem k _ _ after_next ∙ rw (g, spawn_one) (ground arith)
