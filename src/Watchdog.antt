-- ===== src/Watchdog.antt =====
-- app/src/watchdog_service.cpp: the service that keeps the hardware watchdog and the watchdog of
-- systemd from firing. What the system calls return and the clock are inputs of an operation; what
-- it does to the device and to systemd is the list of its actions. Times are in milliseconds.
pub mod Feeding
pub mod Timing
pub mod Notify
pub mod Tests
use youyeetoo_rk3588_toolkit.Prelude.{
  ℕ, zero, suc, ◌+◌, ◌-◌, ◌*◌, Bool, true, false, ◌||◌, List, [], ◌∷◌, ◌++◌, Option, none, some, ℤ,
  pos, minus_one, is_nonneg, ltb, leb, ◌==◌, length, take, drop, replicate, if◌then◌else◌,
}
use youyeetoo_rk3588_toolkit.Prelude.Text.{Text, codes, is_empty}

pub record WatchdogConfig : Type 0 where
  pub hw_watchdog_path : Text
  pub hw_timeout_sec : ℕ
  pub feed_interval : ℕ
  pub enable_sd_notify : Bool

abbrev pub default_config : WatchdogConfig
default_config = record {
  hw_watchdog_path = codes "/dev/watchdog";
  hw_timeout_sec = 30;
  feed_interval = 10 * 1000;
  enable_sd_notify = true;
}

pub record WatchdogService : Type 0 where
  pub config : WatchdogConfig
  pub hw_fd : ℤ
  pub sd_notify_available : Bool
  pub feed_count : ℕ
  pub skip_count : ℕ
  pub last_feed : ℕ

-- What an operation does to the device and to systemd, successful or not.
pub data Action : Type 0 where
  open_device : Text → Action
  set_timeout : ℕ → Action
  keep_alive : Action
  write_device : Text → Action
  close_device : Action
  sd_notify : Text → Action

-- What the system calls return: open gives a descriptor or fails; WDIOC_KEEPALIVE and the write
-- that replaces it succeed or fail; NOTIFY_SOCKET is set or not. Whether WDIOC_SETTIMEOUT succeeds
-- only decides on a log line.
pub record Kernel : Type 0 where
  pub opened : Option ℕ
  pub keep_alive_ok : Bool
  pub write_ok : Bool
  pub notify_socket : Option Text

-- FeedHwWatchdog
unfoldable pub feed_hw_watchdog : Kernel → Bool × List Action
feed_hw_watchdog k =
    if k.keep_alive_ok
    then (true, keep_alive ∷ [])
    else (k.write_ok, keep_alive ∷ write_device (codes "1") ∷ [])

-- OpenHwWatchdog
unfoldable pub open_hw_watchdog :
    Kernel → Text → ℕ → WatchdogService → Bool × WatchdogService × List Action
unfolding feed_hw_watchdog
open_hw_watchdog k path timeout_sec w = elim k.opened [
  | none ↦ (false, record w { hw_fd = minus_one }, open_device path ∷ [])
  | some fd ↦
      let (_, fed) = feed_hw_watchdog k in
      (true, record w { hw_fd = pos fd }, open_device path ∷ set_timeout timeout_sec ∷ fed)
]

-- The part of Open that looks for systemd.
unfoldable pub detect_systemd : Kernel → WatchdogService → WatchdogService × List Action
detect_systemd k w =
    if w.config.enable_sd_notify
    then (elim k.notify_socket [
      | none ↦ (record w { sd_notify_available = false }, [])
      | some _ ↦ (record w { sd_notify_available = true }, sd_notify (codes "READY=1") ∷ [])
    ])
    else (w, [])

-- Open, whose result is always true.
unfoldable pub open_watchdog :
    Kernel → WatchdogConfig → (now : ℕ) → WatchdogService → WatchdogService × List Action
unfolding open_hw_watchdog detect_systemd
open_watchdog k config now w =
    let w1 = record w { config = config; last_feed = now } in
    let (_, w2, hw) =
      if is_empty config.hw_watchdog_path
      then (false, w1, [])
      else open_hw_watchdog k config.hw_watchdog_path config.hw_timeout_sec w1 in
    let (w3, sd) = detect_systemd k w2 in (w3, hw ++ sd)

-- Close
unfoldable pub close_watchdog : WatchdogService → WatchdogService × List Action
close_watchdog w =
    let stopping : List Action =
      if w.sd_notify_available then sd_notify (codes "STOPPING=1") ∷ [] else [] in
    if is_nonneg w.hw_fd
    then (record w { hw_fd = minus_one }, stopping ++ write_device (codes "V") ∷ close_device ∷ [])
    else (w, stopping)

-- The two kicks of Feed: whether one of them counts, and the actions.
unfoldable pub kick : Kernel → WatchdogService → Bool × List Action
unfolding feed_hw_watchdog
kick k w =
    let (fed, hw) : Bool × List Action =
      if is_nonneg w.hw_fd then feed_hw_watchdog k else (false, []) in
    if w.sd_notify_available then (true, hw ++ sd_notify (codes "WATCHDOG=1") ∷ []) else (fed, hw)

-- Feed
unfoldable pub feed :
    Kernel → (is_healthy : Bool) (now : ℕ) → WatchdogService → Bool × WatchdogService × List Action
unfolding kick
feed k is_healthy now w =
    let (fed, actions) = kick k w in
    if is_healthy
    then if ltb now (w.last_feed + w.config.feed_interval)
      then (false, w, [])
      else if fed
      then (true, record w { feed_count = w.feed_count + 1; last_feed = now }, actions)
      else (false, w, actions)
    else (false, record w { skip_count = w.skip_count + 1 }, [])

-- The room for a path in a sockaddr_un of Linux.
abbrev sun_path_size : ℕ
sun_path_size = 108

-- strncpy(dest, s, n) for a text without a zero byte: n bytes, filled up with zeros.
abbrev strncpy : Text → ℕ → Text
strncpy s n = take n s ++ replicate (n - length s) 0

-- strlen
unfoldable pub strlen : Text → ℕ
strlen [] = 0
strlen (c ∷ cs) = let rest = strlen cs in if c == 0 then 0 else suc rest

-- The bytes of `addr.sun_path` that SdNotify fills in.
unfoldable pub sun_path : Text → Text
sun_path [] = strncpy [] (sun_path_size - 1) ++ 0 ∷ []
sun_path (c ∷ name) =
    if c == b'@'
    then (0 ∷ strncpy name (sun_path_size - 2)) ++ 0 ∷ []
    else strncpy (c ∷ name) (sun_path_size - 1) ++ 0 ∷ []

-- The part of it that the address of sendto covers: `addr_len` less the offset of sun_path.
unfoldable pub notify_address : Text → Text
unfolding sun_path strlen
notify_address socket_path = let path = sun_path socket_path in take (strlen path + 1) path
