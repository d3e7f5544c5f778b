-- ===== src/Watchdog/Timing.antt =====
-- The time between the feeds of app/src/watchdog_service.cpp, and the hardware watchdog as a device
-- that resets the board when no kick reaches it for longer than its timeout.
use youyeetoo_rk3588_toolkit.Prelude.{
  ℕ, ◌+◌, ◌*◌, ◌≤◌, ◌<◌, ◌≡◌, refl, Bool, true, false, ◌&&◌, ◌||◌, List, [], ◌∷◌, ◌++◌, arith, leb,
  All, is_nonneg, inl, inr, ◌⊎◌, if◌then◌else◌,
}
use youyeetoo_rk3588_toolkit.Watchdog.{
  WatchdogService, Kernel, Action, open_device, set_timeout, keep_alive, write_device, close_device,
  sd_notify, feed, kick, feed_hw_watchdog,
}
use youyeetoo_rk3588_toolkit.Watchdog.Feeding.{Call, calls}

-- Whether one of the actions reaches the device's timer.
unfoldable pub kicked : Kernel → List Action → Bool
kicked k [] = false
kicked k (keep_alive ∷ rest) = k.keep_alive_ok || kicked k rest
kicked k (write_device _ ∷ rest) = k.write_ok || kicked k rest
kicked k (open_device _ ∷ rest) = kicked k rest
kicked k (set_timeout _ ∷ rest) = kicked k rest
kicked k (close_device ∷ rest) = kicked k rest
kicked k (sd_notify _ ∷ rest) = kicked k rest

-- Whether the device does not fire before the last of the calls, when its last kick was at `last`.
unfoldable pub survives : (timeout last : ℕ) → List Call → WatchdogService → Bool
survives timeout last [] w = true
survives timeout last (c ∷ cs) w =
    let (_, w', actions) = feed c.kernel c.is_healthy c.now w in
    leb c.now (last + timeout)
    && survives timeout (if kicked c.kernel actions then c.now else last) cs w'

-- Calls that follow each other, the first one a call at `t`, by at most `d` milliseconds, all of
-- them healthy and with a device that takes the ioctl or the write.
unfoldable pub IsPaced : (d t : ℕ) → List Call → Type 0
IsPaced d t [] = Unit
IsPaced d t (c ∷ cs) =
    (t ≤ c.now)
    × (c.now ≤ t + d)
    × (c.is_healthy ≡ true)
    × ((feed_hw_watchdog c.kernel).0 ≡ true)
    × IsPaced d c.now cs

feed_paced :
    (k : Kernel) (now t d : ℕ) (w : WatchdogService)
    → is_nonneg w.hw_fd ≡ true
    → (feed_hw_watchdog k).0 ≡ true
    → t ≤ now
    → now ≤ t + d
    → t ≤ w.last_feed + w.config.feed_interval
    → let (_, w', actions) = feed k true now w in
      (is_nonneg w'.hw_fd ≡ true)
      × (w'.config ≡ w.config)
      × (now ≤ w'.last_feed + w'.config.feed_interval)
      × ((if kicked k actions then now else w.last_feed) ≡ w'.last_feed)
unfolding feed kick feed_hw_watchdog kicked
feed_paced k now t d w fd taken a b c = ground arith

-- A device whose timeout is at least the feed interval plus the longest time between two calls of
-- Feed does not fire while the calls are healthy and it takes the ioctl or the write, if its last
-- kick was the last feed and that is at most the interval before the call that went before.
pub device_survives :
    (timeout d t : ℕ) (cs : List Call) (w : WatchdogService)
    → is_nonneg w.hw_fd ≡ true
    → w.config.feed_interval + d ≤ timeout
    → t ≤ w.last_feed + w.config.feed_interval
    → IsPaced d t cs
    → survives timeout w.last_feed cs w ≡ true
unfolding survives IsPaced
device_survives timeout d t [] w fd room recent paced = refl
device_survives timeout d t (c ∷ cs) w fd room recent (a, b, healthy, taken, paced) =
    let (fd', same, recent', kept) = feed_paced c.kernel c.now t d w fd taken a b recent in
    rw (healthy, kept)
      (ground (
        arith,
        device_survives timeout d c.now cs (feed c.kernel true c.now w).1 fd' (rw same room) recent'
            paced,
      ))

-- If all calls of Feed are unhealthy and one of them comes after the timeout, the device fires.
pub device_fires :
    (timeout last : ℕ) (before after : List Call) (c : Call) (w : WatchdogService)
    → All (λ c. c.is_healthy ≡ false) before
    → last + timeout < c.now
    → survives timeout last (before ++ c ∷ after) w ≡ false
unfolding survives feed kicked
device_fires timeout last [] after c w ill late = ground arith
device_fires timeout last (b ∷ before) after c w (h, hs) late =
    let later =
      device_fires timeout last before after c (record w { skip_count = w.skip_count + 1 }) hs
        late in
    rw h (ground (arith, later))

-- A call either leaves the count and the time of the last feed, or counts one feed.
feed_counts :
    (k : Kernel) (healthy : Bool) (now interval : ℕ) (w : WatchdogService)
    → w.config.feed_interval ≡ interval
    → let w' = (feed k healthy now w).1 in
      (w'.config.feed_interval ≡ interval)
      × (((w'.feed_count ≡ w.feed_count) × (w'.last_feed ≡ w.last_feed))
          ⊎ ((w'.feed_count ≡ w.feed_count + 1) × (w.last_feed + interval ≤ w'.last_feed)))
unfolding feed
feed_counts k healthy now interval w e = ground arith

feeds_spaced_from :
    (interval : ℕ) (cs : List Call) (w : WatchdogService)
    → w.config.feed_interval ≡ interval
    → (calls cs w).0.feed_count * interval + w.last_feed
      ≤ (calls cs w).0.last_feed + w.feed_count * interval
unfolding calls
feeds_spaced_from interval [] w e = omega arith
feeds_spaced_from interval (c ∷ cs) w e =
    let w' = (feed c.kernel c.is_healthy c.now w).1 in
    let (same, counts) = feed_counts c.kernel c.is_healthy c.now interval w e in
    let later = feeds_spaced_from interval cs w' same in
    elim counts [
      | inl (count, last) ↦
          let unchanged : w'.feed_count * interval ≡ w.feed_count * interval = rw count refl in
          omega arith
      | inr (count, apart) ↦
          let one_more : w'.feed_count * interval ≡ w.feed_count * interval + interval =
            rw count (omega arith) in
          omega arith
    ]

-- Feeds are at least the interval apart: over any calls, the interval times the number of feeds
-- that are counted is at most the time by which the last feed has moved on.
pub feeds_spaced :
    (cs : List Call) (w : WatchdogService)
    → (calls cs w).0.feed_count * w.config.feed_interval + w.last_feed
      ≤ (calls cs w).0.last_feed + w.feed_count * w.config.feed_interval
feeds_spaced cs w = feeds_spaced_from w.config.feed_interval cs w refl
