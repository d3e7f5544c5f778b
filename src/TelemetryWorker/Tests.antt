-- ===== src/TelemetryWorker/Tests.antt =====
-- The telemetry worker of app/src/telemetry_worker.cpp with whole numbers for the floating-point ones.
use youyeetoo_rk3588_toolkit.Prelude.{ℕ, ◌≡◌, refl, ◌*◌, ◌/◌, pos, negsuc, none, some, length}
use youyeetoo_rk3588_toolkit.Prelude.Text.{Text, codes}
use youyeetoo_rk3588_toolkit.Number.{to_string, stoull}
use youyeetoo_rk3588_toolkit.WorkerChannel.{nothing_ready, would_block, hung_up}
use youyeetoo_rk3588_toolkit.TelemetryWorker.{
  Doubles, Measurement, CpuStat, measure, read_mem_info, read_disk_usage, read_cpu_usage_pct,
  read_thermal_temp, round, goes_on, exits, cpu_differences,
}
use youyeetoo_rk3588_toolkit.TelemetryWorker.Proxy.{process_message, new_proxy}
use youyeetoo_rk3588_toolkit.TelemetryWorker.Reports.{number-IsPlain}
use youyeetoo_rk3588_toolkit.TelemetryWorker.Delivery.{read_back, process_message-measure}

abbrev pub whole : Doubles
whole = record {
  Double = ℕ;
  zero_double = 0;
  percent = λ part total. 100 * part / total;
  thousandth = λ milli. elim milli [ pos n ↦ n / 1000 | negsuc n ↦ 0 ];
  truncate = λ n. pos n;
  print = to_string;
  stod = stoull;
}

abbrev cpu : CpuStat
cpu = record {
  user = 100;
  nice = 0;
  sys = 50;
  idle = 800;
  iowait = 50;
  irq = 0;
  softirq = 0;
  steal = 0;
}

abbrev mem_text : Text
mem_text =
    codes
      "MemTotal: 8000 kB MemFree: 100 kB MemAvailable: 6000 kB HugePages_Total: 0 HugePages_Free: 0"

-- A quarter of the time between the samples was used.
busy_quarter : cpu_differences (some cpu) (some (record cpu { user = 150; idle = 950 })) ≡ (50, 200)
unfolding cpu_differences
busy_quarter = refl

used_memory : read_mem_info mem_text ≡ (2000, 8000)
unfolding read_mem_info codes
used_memory = refl

-- Blocks of less than a kilobyte count as nothing.
small_blocks :
    read_disk_usage (some (record { block_size = 512; blocks = 1000; available = 10 })) ≡ (0, 0)
unfolding read_disk_usage
small_blocks = refl

abbrev measured : Measurement
measured = record {
  first_stat = some cpu;
  second_stat = none;
  zone0 = some (pos 45600);
  zone1 = none;
  mem_info = mem_text;
  data_stat = some (record { block_size = 4096; blocks = 1000; available = 250 });
}

process_message-measure_example :
    (process_message whole
      (measure whole measured)
      (new_proxy whole (codes "telemetry_worker"))).telemetry
    ≡ record {
      cpu_usage_pct =
          read_back whole number-IsPlain
            (to_string (read_cpu_usage_pct whole measured.first_stat measured.second_stat));
      mem_used_kb = (read_mem_info mem_text).0;
      mem_total_kb = (read_mem_info mem_text).1;
      cpu_temp_c =
          read_back whole number-IsPlain (to_string (read_thermal_temp whole measured.zone0));
      board_temp_c =
          read_back whole number-IsPlain (to_string (read_thermal_temp whole measured.zone1));
      disk_used_kb = (read_disk_usage measured.data_stat).0;
      disk_total_kb = (read_disk_usage measured.data_stat).1;
    }
process_message-measure_example =
    process_message-measure whole number-IsPlain measured
      (new_proxy whole (codes "telemetry_worker"))

-- The first report is due at once, as the clock starts two seconds back.
first_report :
    round whole
      (record { fd = pos 3 })
      nothing_ready
      would_block
      measured
      2000
      (pos (length (measure whole measured)))
      0
    ≡ goes_on 2000 (some (measure whole measured))
unfolding round
first_report = refl

broken_channel :
    round whole (record { fd = pos 3 }) hung_up would_block measured 2000 (pos 0) 0 ≡ exits
unfolding round
broken_channel = refl
