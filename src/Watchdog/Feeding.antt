-- ===== src/Watchdog/Feeding.antt =====
-- Sequences of calls of Feed of app/src/watchdog_service.cpp: what unhealthy calls and refused
-- kicks do.
use youyeetoo_rk3588_toolkit.Prelude.{
  ℕ, ◌+◌, ◌≤◌, ◌≡◌, refl, Bool, true, false, List, [], ◌∷◌, ◌++◌, arith, ltb, length, All,
  is_nonneg,
}
use youyeetoo_rk3588_toolkit.Watchdog.{
  WatchdogService, Kernel, Action, feed, kick, feed_hw_watchdog,
}

-- One call of Feed by the main loop.
pub record Call : Type 0 where
  pub kernel : Kernel
  pub is_healthy : Bool
  pub now : ℕ

unfoldable pub calls : List Call → WatchdogService → WatchdogService × List Action
calls [] w = (w, [])
calls (c ∷ cs) w =
    let (_, w', actions) = feed c.kernel c.is_healthy c.now w in
    let (w'', more) = calls cs w' in (w'', actions ++ more)

-- Unhealthy calls of Feed, however many, neither touch the device nor notify systemd; all that
-- changes is the count of skipped calls, which grows by one with each.
pub unhealthy_starves :
    (cs : List Call) (w : WatchdogService)
    → All (λ c. c.is_healthy ≡ false) cs
    → (calls cs w).1 ≡ [] × (calls cs w).0 ≡ record w { skip_count = w.skip_count + length cs }
unfolding calls feed
unhealthy_starves [] w h = ground arith
unhealthy_starves (c ∷ cs) w (h, hs) =
    let later = unhealthy_starves cs (record w { skip_count = w.skip_count + 1 }) hs in
    ground (arith, later)

-- A call before the interval is over touches nothing.
feed_early :
    (k : Kernel) (healthy : Bool) (now limit : ℕ) (w : WatchdogService)
    → limit ≡ w.last_feed + w.config.feed_interval
    → ltb now limit ≡ true
    → ((feed k healthy now w).2 ≡ [])
      × (limit ≡ (feed k healthy now w).1.last_feed + (feed k healthy now w).1.config.feed_interval)
unfolding feed
feed_early k healthy now limit w e early = ground arith

early_calls :
    (limit : ℕ) (cs : List Call) (w : WatchdogService)
    → limit ≡ w.last_feed + w.config.feed_interval
    → All (λ c. ltb c.now limit ≡ true) cs
    → (calls cs w).1 ≡ []
unfolding calls
early_calls limit [] w e early = refl
early_calls limit (c ∷ cs) w e (h, hs) =
    let (quiet, e') = feed_early c.kernel c.is_healthy c.now limit w e h in
    rw quiet (early_calls limit cs (feed c.kernel c.is_healthy c.now w).1 e' hs)

-- While systemd's socket is there, a healthy call that is due counts as a feed even if the device
-- refuses both the ioctl and the write, and then no call within the interval kicks the device again.
pub refused_kick_waits :
    (k : Kernel) (now : ℕ) (cs : List Call) (w : WatchdogService)
    → w.sd_notify_available ≡ true
    → ltb now (w.last_feed + w.config.feed_interval) ≡ false
    → All (λ c. ltb c.now (now + w.config.feed_interval) ≡ true) cs
    → ((feed k true now w).0 ≡ true) × ((calls cs (feed k true now w).1).1 ≡ [])
unfolding feed kick
refused_kick_waits k now cs w sd due soon =
    let counted : ((feed k true now w).0 ≡ true)
        × (now + w.config.feed_interval
            ≡ (feed k true now w).1.last_feed + (feed k true now w).1.config.feed_interval) =
      ground arith in
    (counted.0, early_calls (now + w.config.feed_interval) cs (feed k true now w).1 counted.1 soon)

-- Without systemd, a healthy call that is due while the device refuses both the ioctl and the write
-- reports no feed and leaves the service as it was, so that the next healthy call, no earlier, feeds
-- the device if that then takes the ioctl or the write.
pub refused_kick_retries :
    (k k' : Kernel) (now later : ℕ) (w : WatchdogService)
    → w.sd_notify_available ≡ false
    → is_nonneg w.hw_fd ≡ true
    → ltb now (w.last_feed + w.config.feed_interval) ≡ false
    → now ≤ later
    → (feed_hw_watchdog k).0 ≡ false
    → (feed_hw_watchdog k').0 ≡ true
    → ((feed k true now w).0 ≡ false)
      × ((feed k true now w).1 ≡ w)
      × ((feed k' true later w).0 ≡ true)
      × ((feed k' true later w).1 ≡ record w { feed_count = w.feed_count + 1; last_feed = later })
unfolding feed kick
refused_kick_retries k k' now later w sd fd due order refused taken = ground arith
