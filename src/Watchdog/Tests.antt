-- ===== src/Watchdog/Tests.antt =====
-- The watchdog service of app/src/watchdog_service.cpp at concrete inputs.
use youyeetoo_rk3588_toolkit.Prelude.{
  ℕ, ◌≡◌, refl, true, false, [], ◌∷◌, ◌++◌, none, some, pos, minus_one, arith,
}
use youyeetoo_rk3588_toolkit.Prelude.Text.{codes}
use youyeetoo_rk3588_toolkit.Watchdog.{
  WatchdogService, default_config, Kernel, open_watchdog, feed, notify_address, feed_hw_watchdog,
}
use youyeetoo_rk3588_toolkit.Watchdog.Feeding.{Call, calls}
use youyeetoo_rk3588_toolkit.Watchdog.Timing.{IsPaced, survives, device_survives, device_fires}
use youyeetoo_rk3588_toolkit.Watchdog.Notify.{notify_address_names, is_abstract}

abbrev working : Kernel
working = record { opened = some 3; keep_alive_ok = true; write_ok = true; notify_socket = none }

abbrev stuck : Kernel
stuck = record { opened = some 3; keep_alive_ok = false; write_ok = false; notify_socket = none }

abbrev closed : WatchdogService
closed = record {
  config = default_config;
  hw_fd = minus_one;
  sd_notify_available = false;
  feed_count = 0;
  skip_count = 0;
  last_feed = 0;
}

-- The service with the device open since time 0.
abbrev running : WatchdogService
running = record closed { hw_fd = pos 3 }

abbrev with_systemd : WatchdogService
with_systemd = record running { sd_notify_available = true }

opened : (open_watchdog working default_config 0 closed).0 ≡ running
unfolding open_watchdog codes
opened = refl

abbrev healthy_at : ℕ → Call
healthy_at now = record { kernel = working; is_healthy = true; now = now }

abbrev ill_at : ℕ → Call
ill_at now = record { kernel = working; is_healthy = false; now = now }

ill_calls : (calls (ill_at 20000 ∷ ill_at 40000 ∷ []) running).0.skip_count ≡ 2
unfolding calls feed
ill_calls = refl

-- The main loop calls every second, the interval is 10 seconds, and the device waits for 30.
device_survives_example :
    survives 30000 0 (healthy_at 9900 ∷ healthy_at 10900 ∷ healthy_at 11900 ∷ []) running ≡ true
unfolding IsPaced feed_hw_watchdog
device_survives_example =
    device_survives 30000 1000 9000 (healthy_at 9900 ∷ healthy_at 10900 ∷ healthy_at 11900 ∷ [])
      running refl (omega arith) (omega arith)
      (
        omega arith,
        omega arith,
        refl,
        refl,
        (omega arith, omega arith, refl, refl, (omega arith, omega arith, refl, refl, tt)),
      )

device_fires_example :
    survives 30000 0 ((ill_at 20000 ∷ []) ++ ill_at 30001 ∷ healthy_at 30002 ∷ []) running ≡ false
device_fires_example =
    device_fires 30000 0 (ill_at 20000 ∷ []) (healthy_at 30002 ∷ []) (ill_at 30001) running
      (refl, tt) (omega arith)

two_feeds : (calls (healthy_at 10000 ∷ healthy_at 25000 ∷ []) running).0.feed_count ≡ 2
unfolding calls feed
two_feeds = refl

notify_address_names_example : notify_address (codes "@systemd") ≡ 0 ∷ []
unfolding codes is_abstract
notify_address_names_example =
    notify_address_names (codes "@systemd")
      (refl, (refl, (refl, (refl, (refl, (refl, (refl, (refl, tt)))))))) (omega arith)
