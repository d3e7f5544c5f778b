-- ===== src/TelemetryWorker.antt =====
-- app/src/telemetry_worker.cpp: the process that measures the board and reports every two seconds,
-- and the service's side of its channel. What the system calls return and the clock are arguments;
-- floating-point numbers are the interface Doubles.
pub mod Proxy
pub mod Reports
pub mod Bounds
pub mod Delivery
pub mod Tests
use youyeetoo_rk3588_toolkit.Prelude.{
  ℕ, ◌+◌, ◌-◌, ◌*◌, ◌/◌, ◌%◌, ◌^◌, ℤ, pos, Bool, true, false, List, [], ◌∷◌, ◌++◌, Option, none,
  some, ltb, leb, ◌==◌, if◌then◌else◌,
}
use youyeetoo_rk3588_toolkit.Prelude.Text.{Text, codes, text_eq, split_whitespace, is_digit}
use youyeetoo_rk3588_toolkit.Number.{to_string}
use youyeetoo_rk3588_toolkit.WorkerChannel.{
  WorkerChannel, PollResult, RecvResult, Received, message, no_message, broken, try_recv, send,
}

-- What the source does with numbers of type `double`: 0.0, 100.0 * a / b, a / 1000.0, the cast to
-- `int`, what a stream prints, and std::stod (`none` where it throws).
pub record Doubles : Type 1 where
  pub Double : Type 0
  pub zero_double : Double
  pub percent : (part whole : ℕ) → Double
  pub thousandth : ℤ → Double
  pub truncate : Double → ℤ
  pub print : Double → Text
  pub stod : Text → Option Double

-- The eight counters of the first line of /proc/stat, in their order.
pub record CpuStat : Type 0 where
  pub user : ℕ
  pub nice : ℕ
  pub sys : ℕ
  pub idle : ℕ
  pub iowait : ℕ
  pub irq : ℕ
  pub softirq : ℕ
  pub steal : ℕ

-- A difference of numbers of type uint64_t.
abbrev minus64 : ℕ → ℕ → ℕ
minus64 a b = (a + 2 ^ 64 - b % 2 ^ 64) % 2 ^ 64

-- read_stat; `none` where the counters cannot be read.
unfoldable pub used_and_total : Option CpuStat → ℕ × ℕ
used_and_total none = (0, 0)
used_and_total (some s) =
    let total =
      (s.user + s.nice + s.sys + s.idle + s.iowait + s.irq + s.softirq + s.steal) % 2 ^ 64 in
    (minus64 (minus64 total s.idle) s.iowait, total)

-- The differences of two samples: the used and all units of time between them.
unfoldable pub cpu_differences : Option CpuStat → Option CpuStat → ℕ × ℕ
unfolding used_and_total
cpu_differences first second =
    let (u1, t1) = used_and_total first in
    let (u2, t2) = used_and_total second in (minus64 u2 u1, minus64 t2 t1)

-- The number at the front of a word, and what is left of the word; `none` where `>>` fails. (`>>`
-- takes a sign as well; /proc/meminfo has none.)
unfoldable pub read_number : Option ℕ → Text → Option (ℕ × Text)
read_number none [] = none
read_number (some n) [] = if ltb n (2 ^ 64) then some (n, []) else none
read_number none (c ∷ w) = if is_digit c then read_number (some (c - 48)) w else none
read_number (some n) (c ∷ w) =
    if is_digit c
    then read_number (some (n * 10 + (c - 48))) w
    else if ltb n (2 ^ 64)
    then some (n, c ∷ w)
    else none

-- What the loop of ReadMemInfo reads next.
pub data Expected : Type 0 where
  key : Expected
  value : (name : Text) → Expected
  unit : Expected
  nothing : Expected

pub record MemInfo : Type 0 where
  pub total_kb : ℕ
  pub available_kb : ℕ

-- A line of the loop: the entry with its value.
unfoldable pub note_entry : Text → ℕ → MemInfo → MemInfo
unfolding text_eq
note_entry name val mem =
    if text_eq name (codes "MemTotal:")
    then record mem { total_kb = val }
    else if text_eq name (codes "MemAvailable:")
    then record mem { available_kb = val }
    else mem

-- The next word of /proc/meminfo. What follows a number in its word is taken as its unit.
unfoldable pub read_word : Text → Expected × MemInfo → Expected × MemInfo
unfolding read_number note_entry
read_word w (nothing, mem) = (nothing, mem)
read_word w (unit, mem) = (key, mem)
read_word w (key, mem) = (value w, mem)
read_word w (value name, mem) = elim (read_number none w) [
  | none ↦ (nothing, mem)
  | some (val, []) ↦ (unit, note_entry name val mem)
  | some (val, c ∷ rest) ↦ (key, note_entry name val mem)
]

unfoldable pub read_words : List Text → Expected × MemInfo → Expected × MemInfo
unfolding read_word
read_words [] st = st
read_words (w ∷ ws) st = read_words ws (read_word w st)

-- ReadMemInfo: the used and the total memory, for what /proc/meminfo holds.
unfoldable pub read_mem_info : Text → ℕ × ℕ
unfolding read_words split_whitespace
read_mem_info text =
    let (_, mem) =
      read_words (split_whitespace text) (key, record { total_kb = 0; available_kb = 0 }) in
    (if ltb mem.available_kb mem.total_kb then mem.total_kb - mem.available_kb else 0, mem.total_kb)

-- What statvfs gives.
pub record FileSystemStat : Type 0 where
  pub block_size : ℕ
  pub blocks : ℕ
  pub available : ℕ

-- ReadDiskUsage: the used and the total space; `none` where statvfs fails.
unfoldable pub read_disk_usage : Option FileSystemStat → ℕ × ℕ
read_disk_usage none = (0, 0)
read_disk_usage (some sv) =
    let block_kb = sv.block_size / 1024 in
    let total = sv.blocks * block_kb % 2 ^ 64 in
    let free = sv.available * block_kb % 2 ^ 64 in
    (if ltb free total then total - free else 0, total)

-- What one round measures: two samples of /proc/stat, the temperatures in thousandths (`none`: they
-- cannot be read), the text of /proc/meminfo and the state of the file system /data.
pub record Measurement : Type 0 where
  pub first_stat : Option CpuStat
  pub second_stat : Option CpuStat
  pub zone0 : Option ℤ
  pub zone1 : Option ℤ
  pub mem_info : Text
  pub data_stat : Option FileSystemStat

-- How a round of the worker's loop ends: it goes on, with the time of the last report and the
-- message that was sent; or the process ends.
pub data RoundEnd : Type 0 where
  goes_on : (last_send : ℕ) → Option Text → RoundEnd
  exits : RoundEnd

-- kInterval, in milliseconds.
abbrev pub report_interval : ℕ
report_interval = 2000

-- One entry of the message.
abbrev pub entry : Text → Text → Text → Text
entry name v rest = name ++ (b'=' ∷ (v ++ (10 ∷ rest)))

-- The message of values that have been measured.
unfoldable pub telemetry_message : (cpu : Text) (mem disk : ℕ × ℕ) (temp0 temp1 : Text) → Text
unfolding to_string codes
telemetry_message cpu (mem_used, mem_total) (disk_used, disk_total) temp0 temp1 =
    entry (codes "type") (codes "telemetry") (
      entry (codes "cpu_usage_pct") cpu (
        entry (codes "mem_used_kb") (to_string mem_used) (
          entry (codes "mem_total_kb") (to_string mem_total) (
            entry (codes "cpu_temp_c") temp0 (
              entry (codes "board_temp_c") temp1 (
                entry (codes "disk_used_kb") (to_string disk_used)
                  (entry (codes "disk_total_kb") (to_string disk_total) [])))))))

module _ (d : Doubles) where
  open d use {Double, zero_double, percent, thousandth, print}

  -- ReadCpuUsagePct
  unfoldable pub read_cpu_usage_pct : Option CpuStat → Option CpuStat → Double
  unfolding cpu_differences
  read_cpu_usage_pct first second =
      let (du, dt) = cpu_differences first second in if ltb 0 dt then percent du dt else zero_double

  -- ReadThermalTemp
  unfoldable pub read_thermal_temp : Option ℤ → Double
  read_thermal_temp none = zero_double
  read_thermal_temp (some milli) = thousandth milli

  -- The message of one round.
  unfoldable pub measure : Measurement → Text
  unfolding read_cpu_usage_pct read_thermal_temp read_mem_info read_disk_usage telemetry_message
  measure m =
      telemetry_message (print (read_cpu_usage_pct m.first_stat m.second_stat))
        (read_mem_info m.mem_info) (read_disk_usage m.data_stat) (print (read_thermal_temp m.zone0))
        (print (read_thermal_temp m.zone1))

  -- The report of a round, for what ::send returns.
  unfoldable pub send_report : WorkerChannel → (now : ℕ) (sent : ℤ) → Text → RoundEnd
  unfolding send
  send_report ch now sent msg = if send sent msg ch then goes_on now (some msg) else exits

  -- One round of TelemetryWorkerChildMain; `now` is the clock before the report. A message of the
  -- service is thrown away.
  unfoldable pub round :
      WorkerChannel
      → PollResult
      → RecvResult
      → Measurement
      → (now : ℕ) (sent : ℤ) (last_send : ℕ) → RoundEnd
  unfolding try_recv measure send_report
  round ch poll recv m now sent last_send =
      let reported = send_report ch now sent (measure m) in
      let alive =
        if leb (last_send + report_interval) now then reported else goes_on last_send none in
      elim (try_recv poll recv ch) [ broken ↦ exits | no_message ↦ alive | message msg ↦ alive ]
