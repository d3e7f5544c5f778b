-- ===== src/TelemetryWorker/Delivery.antt =====
-- The measurements of app/src/telemetry_worker.cpp reach the service.
use youyeetoo_rk3588_toolkit.Prelude.{
  ℕ, ◌^◌, ◌<◌, ◌≡◌, refl, ap, ◌∙◌, [], ◌∷◌, arith, false, none, some, if◌then◌else◌,
}
use youyeetoo_rk3588_toolkit.Prelude.Text.{Text, codes, is_empty}
use youyeetoo_rk3588_toolkit.Number.{to_string, stoull}
use youyeetoo_rk3588_toolkit.Number.Decimal.{stoull-to_string}
use youyeetoo_rk3588_toolkit.TelemetryWorker.{
  Doubles, Measurement, telemetry_message, measure, read_cpu_usage_pct, read_thermal_temp,
  read_mem_info, read_disk_usage,
}
use youyeetoo_rk3588_toolkit.TelemetryWorker.Proxy.{
  TelemetryWorkerProxy, get_value, get_unsigned, get_double, unsigned_of, or_zero, read_telemetry,
  process_message,
}
use youyeetoo_rk3588_toolkit.TelemetryWorker.Reports.{
  IsPlain, value_cpu_usage_pct, value_mem_used_kb, value_mem_total_kb, value_cpu_temp_c,
  value_board_temp_c, value_disk_used_kb, value_disk_total_kb,
}
use youyeetoo_rk3588_toolkit.TelemetryWorker.Bounds.{read_mem_info_range, read_disk_usage_range}

nonempty : (v : Text) (n : ℕ) → stoull v ≡ some n → is_empty v ≡ false
unfolding stoull
nonempty [] n h = ground arith
nonempty (c ∷ v) n h = refl

unsigned_of-to_string : (n : ℕ) → n < 2 ^ 64 → unsigned_of (to_string n) ≡ n
unfolding unsigned_of
unsigned_of-to_string n h =
    let read : stoull (to_string n) ≡ some n = stoull-to_string n h in
    rw (nonempty (to_string n) n read) (ap or_zero read)

get_unsigned_at :
    (name msg : Text) (n : ℕ)
    → n < 2 ^ 64
    → get_value name msg ≡ to_string n
    → get_unsigned name msg ≡ n
unfolding get_unsigned
get_unsigned_at name msg n h e = ap unsigned_of e ∙ unsigned_of-to_string n h

module _ (d : Doubles) (prints : (x : d.Double) → IsPlain (d.print x)) where
  open d use {Double, zero_double, print, stod}

  -- A floating-point number that has been printed and read.
  abbrev pub read_back : Text → Double
  read_back v =
      if is_empty v then zero_double else elim (stod v) [ none ↦ zero_double | some x ↦ x ]

  get_double_at : (name msg v : Text) → get_value name msg ≡ v → get_double d name msg ≡ read_back v
  unfolding get_double
  get_double_at name msg v e = ap read_back e

  read_telemetry-message :
      (cpu temp0 temp1 : Text) (mem disk : ℕ × ℕ)
      → IsPlain cpu
      → IsPlain temp0
      → IsPlain temp1
      → (mem.0 < 2 ^ 64) × (mem.1 < 2 ^ 64)
      → (disk.0 < 2 ^ 64) × (disk.1 < 2 ^ 64)
      → read_telemetry d (telemetry_message cpu mem disk temp0 temp1) ≡ record {
        cpu_usage_pct = read_back cpu;
        mem_used_kb = mem.0;
        mem_total_kb = mem.1;
        cpu_temp_c = read_back temp0;
        board_temp_c = read_back temp1;
        disk_used_kb = disk.0;
        disk_total_kb = disk.1;
      }
  unfolding read_telemetry
  read_telemetry-message cpu temp0 temp1 mem disk pc p0 p1 (mu, mt) (du, dt) =
      let msg : Text = telemetry_message cpu mem disk temp0 temp1 in
      rw
        (
          get_double_at (codes "cpu_usage_pct") msg cpu
              (value_cpu_usage_pct cpu temp0 temp1 mem disk pc p0 p1),
          get_unsigned_at (codes "mem_used_kb") msg mem.0 mu
              (value_mem_used_kb cpu temp0 temp1 mem disk pc p0 p1),
          get_unsigned_at (codes "mem_total_kb") msg mem.1 mt
              (value_mem_total_kb cpu temp0 temp1 mem disk pc p0 p1),
          get_double_at (codes "cpu_temp_c") msg temp0
              (value_cpu_temp_c cpu temp0 temp1 mem disk pc p0 p1),
          get_double_at (codes "board_temp_c") msg temp1
              (value_board_temp_c cpu temp0 temp1 mem disk pc p0 p1),
          get_unsigned_at (codes "disk_used_kb") msg disk.0 du
              (value_disk_used_kb cpu temp0 temp1 mem disk pc p0 p1),
          get_unsigned_at (codes "disk_total_kb") msg disk.1 dt
              (value_disk_total_kb cpu temp0 temp1 mem disk pc p0 p1),
        )
        refl

  -- What a message of the worker leaves in the proxy: the kilobytes exactly as they were measured,
  -- and the floating-point numbers as they are read from their printed texts, if the printed texts
  -- are made of the characters of numbers.
  pub process_message-measure :
      (m : Measurement) (p : TelemetryWorkerProxy d)
      → (process_message d (measure d m) p).telemetry ≡ record {
        cpu_usage_pct = read_back (print (read_cpu_usage_pct d m.first_stat m.second_stat));
        mem_used_kb = (read_mem_info m.mem_info).0;
        mem_total_kb = (read_mem_info m.mem_info).1;
        cpu_temp_c = read_back (print (read_thermal_temp d m.zone0));
        board_temp_c = read_back (print (read_thermal_temp d m.zone1));
        disk_used_kb = (read_disk_usage m.data_stat).0;
        disk_total_kb = (read_disk_usage m.data_stat).1;
      }
  unfolding process_message measure
  process_message-measure m p =
      let cpu : Text = print (read_cpu_usage_pct d m.first_stat m.second_stat) in
      let temp0 : Text = print (read_thermal_temp d m.zone0) in
      let temp1 : Text = print (read_thermal_temp d m.zone1) in
      let mem = read_mem_info m.mem_info in
      let disk = read_disk_usage m.data_stat in
      read_telemetry-message cpu temp0 temp1 mem disk
        (prints (read_cpu_usage_pct d m.first_stat m.second_stat))
        (prints (read_thermal_temp d m.zone0)) (prints (read_thermal_temp d m.zone1))
        (read_mem_info_range m.mem_info) (read_disk_usage_range m.data_stat)
