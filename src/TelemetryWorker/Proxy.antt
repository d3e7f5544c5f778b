-- ===== src/TelemetryWorker/Proxy.antt =====
-- TelemetryWorkerProxy of app/src/telemetry_worker.cpp. The branch for a null supervisor is left out:
-- app/src/main_service.cpp gives each proxy its supervisor.
use youyeetoo_rk3588_toolkit.Prelude.{
  ℕ, ◌/◌, ℤ, minus_one, is_nonneg, eq_ℤ, Bool, true, false, List, [], ◌∷◌, ◌++◌, Option, none, some,
  is_some, ltb, if◌then◌else◌,
}
use youyeetoo_rk3588_toolkit.Prelude.Text.{Text, codes, split_at, is_empty}
use youyeetoo_rk3588_toolkit.Number.{stoull, to_string, int_text}
use youyeetoo_rk3588_toolkit.Supervisor.{Supervisor, get_parent_fd}
use youyeetoo_rk3588_toolkit.CanWorker.Proxy.{
  ChannelEvent, message, hung_up, would_block, closed_or_failed, after,
}
use youyeetoo_rk3588_toolkit.TelemetryWorker.{Doubles}

-- The lambda `getval` of ProcessMessage; it looks for the name anywhere in the message.
unfoldable pub get_value : Text → Text → Text
unfolding after split_at
get_value name msg = elim (after (name ++ b'=' ∷ []) msg) [
  | none ↦ []
  | some rest ↦ elim (split_at 10 rest) [ none ↦ rest | some (line, _) ↦ line ]
]

-- std::stoull, with 0 for an empty text and where it throws.
abbrev pub or_zero : Option ℕ → ℕ
or_zero none = 0
or_zero (some n) = n

unfoldable pub unsigned_of : Text → ℕ
unfolding stoull
unsigned_of v = if is_empty v then 0 else or_zero (stoull v)

-- The lambda `getu`.
unfoldable pub get_unsigned : Text → Text → ℕ
unfolding get_value unsigned_of
get_unsigned name msg = unsigned_of (get_value name msg)

module _ (d : Doubles) where
  open d use {Double, zero_double, percent, truncate, stod}

  pub record SystemTelemetry : Type 0 where
    pub cpu_usage_pct : Double
    pub mem_used_kb : ℕ
    pub mem_total_kb : ℕ
    pub cpu_temp_c : Double
    pub board_temp_c : Double
    pub disk_used_kb : ℕ
    pub disk_total_kb : ℕ

  abbrev pub no_telemetry : SystemTelemetry
  no_telemetry = record {
    cpu_usage_pct = zero_double;
    mem_used_kb = 0;
    mem_total_kb = 0;
    cpu_temp_c = zero_double;
    board_temp_c = zero_double;
    disk_used_kb = 0;
    disk_total_kb = 0;
  }

  pub record TelemetryWorkerProxy : Type 0 where
    pub worker_name : Text
    pub telemetry : SystemTelemetry
    pub status_summary : Text
    pub channel_alive : Bool
    pub last_seen_fd : ℤ

  abbrev pub new_proxy : Text → TelemetryWorkerProxy
  new_proxy worker_name = record {
    worker_name = worker_name;
    telemetry = no_telemetry;
    status_summary = codes "telemetry=subprocess_starting";
    channel_alive = false;
    last_seen_fd = minus_one;
  }

  -- The lambda `getd`.
  unfoldable pub get_double : Text → Text → Double
  unfolding get_value
  get_double name msg =
      let v = get_value name msg in
      if is_empty v then zero_double else elim (stod v) [ none ↦ zero_double | some x ↦ x ]

  -- The telemetry of a message.
  unfoldable pub read_telemetry : Text → SystemTelemetry
  unfolding get_double get_unsigned codes
  read_telemetry msg = record {
    cpu_usage_pct = get_double (codes "cpu_usage_pct") msg;
    mem_used_kb = get_unsigned (codes "mem_used_kb") msg;
    mem_total_kb = get_unsigned (codes "mem_total_kb") msg;
    cpu_temp_c = get_double (codes "cpu_temp_c") msg;
    board_temp_c = get_double (codes "board_temp_c") msg;
    disk_used_kb = get_unsigned (codes "disk_used_kb") msg;
    disk_total_kb = get_unsigned (codes "disk_total_kb") msg;
  }

  -- SystemTelemetry::mem_usage_pct
  unfoldable pub mem_usage_pct : SystemTelemetry → Double
  mem_usage_pct t =
      if ltb 0 t.mem_total_kb then percent t.mem_used_kb t.mem_total_kb else zero_double

  -- The status of the telemetry.
  unfoldable pub status_of_telemetry : SystemTelemetry → Text
  unfolding mem_usage_pct int_text to_string
  status_of_telemetry t =
      codes "telemetry=ok cpu="
      ++ (int_text (truncate t.cpu_usage_pct)
          ++ (codes "% mem="
              ++ (int_text (truncate (mem_usage_pct t))
                  ++ (codes "% cpu_temp="
                      ++ (int_text (truncate t.cpu_temp_c)
                          ++ (codes "C disk_used="
                              ++ (to_string (t.disk_used_kb / 1024) ++ codes "MB")))))))

  -- ProcessMessage
  unfoldable pub process_message : Text → TelemetryWorkerProxy → TelemetryWorkerProxy
  unfolding after read_telemetry status_of_telemetry
  process_message msg p =
      if is_some (after (codes "type=telemetry") msg)
      then record p {
        telemetry = read_telemetry msg;
        status_summary = status_of_telemetry (read_telemetry msg);
      }
      else p

  -- The loop of Tick over what poll and recv give.
  unfoldable pub drain : List ChannelEvent → TelemetryWorkerProxy → TelemetryWorkerProxy
  unfolding process_message
  drain [] p = p
  drain (message msg ∷ rest) p = drain rest (process_message msg p)
  drain (hung_up ∷ rest) p = record p { channel_alive = false }
  drain (would_block ∷ rest) p = p
  drain (closed_or_failed ∷ rest) p = record p { channel_alive = false }

  -- Tick
  unfoldable pub tick : Supervisor → List ChannelEvent → TelemetryWorkerProxy → TelemetryWorkerProxy
  unfolding drain
  tick supervisor events p =
      let fd = get_parent_fd p.worker_name supervisor in
      let fresh = record p {
        last_seen_fd = fd;
        channel_alive = true;
        status_summary = codes "telemetry=subprocess_starting";
        telemetry = no_telemetry;
      } in
      if is_nonneg fd
      then drain events (if eq_ℤ fd p.last_seen_fd then p else fresh)
      else record p { channel_alive = false }
