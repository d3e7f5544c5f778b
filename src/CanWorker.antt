-- ===== src/CanWorker.antt =====
-- app/src/can_worker.cpp: the process that receives commands from the CAN bus and puts them into
-- the inbox, sends frames, and changes to the backup interface. The parts of a turn of the event
-- loop are here, the loop is in CanWorker.Loop; what the system calls return and the clock, in milliseconds, are its
-- inputs. The proxy in the parent process is in CanWorker.Proxy.
pub mod Proxy
pub mod Loop
pub mod Inbox
pub mod Failover
pub mod Sends
pub mod Routes
pub mod Beacon
pub mod Channel
pub mod Tests
use Prim.Native.Nat.{min}
use youyeetoo_rk3588_toolkit.Prelude.{
  ℕ, zero, suc, ◌+◌, ◌-◌, ◌*◌, ◌/◌, ◌%◌, ◌^◌, Bool, true, false, not, ◌&&◌, ◌||◌, List, [], ◌∷◌,
  ◌++◌, Option, none, some, ℤ, pos, negsuc, is_nonneg, eq_ℤ, ltb, leb, ◌==◌, length, take,
  replicate, if◌then◌else◌,
}
use youyeetoo_rk3588_toolkit.Prelude.Text.{Text, codes, text_eq, is_empty, split_at}
use youyeetoo_rk3588_toolkit.Number.{stoul0, stoul16, to_string}
use youyeetoo_rk3588_toolkit.FileSystem.{FileSystem, lines, append_file}
use youyeetoo_rk3588_toolkit.Can.{
  CanConfig, CanFrame, CommandMap, parse_rx_frame, build_telemetry_frame,
}

-- The line of AppendCommandToInbox, without its newline.
unfoldable pub inbox_line : Text → Text → Text
inbox_line command_name [] = command_name
inbox_line command_name (c ∷ extra_params) = command_name ++ b' ' ∷ c ∷ extra_params

-- AppendCommandToInbox
unfoldable pub append_command_to_inbox : Text → Text → Text → FileSystem → FileSystem
unfolding append_file inbox_line
append_command_to_inbox inbox_path command_name extra_params fs =
    append_file inbox_path (inbox_line command_name extra_params ++ 10 ∷ []) fs

-- The bytes of at most n pairs of hexadecimal digits; a pair that does not parse is 0.
unfoldable pub parse_bytes : (n : ℕ) → Text → List ℕ
unfolding stoul16
parse_bytes zero val = []
parse_bytes (suc n) [] = []
parse_bytes (suc n) (c ∷ []) = []
parse_bytes (suc n) (c ∷ d ∷ val) =
    let byte : ℕ = elim (stoul16 (c ∷ d ∷ [])) [ none ↦ 0 | some v ↦ v % 256 ] in
    byte ∷ parse_bytes n val

-- One line of a message, and the identifier and the bytes that were read before.
pub parse_tx_line : Text → Option ℕ × Option (List ℕ) → Option ℕ × Option (List ℕ)
unfolding split_at text_eq stoul0 parse_bytes
parse_tx_line line (id, bytes) = elim (split_at b'=' line) [
  | none ↦ (id, bytes)
  | some (key, val) ↦
      if text_eq key (codes "can_id")
      then (elim (stoul0 val) [ none ↦ (id, bytes) | some v ↦ (some (v % 2 ^ 32), bytes) ])
      else if text_eq key (codes "data")
      then (id, some (parse_bytes 8 val))
      else (id, bytes)
]

pub parse_tx_lines : List Text → Option ℕ × Option (List ℕ) → Option ℕ × Option (List ℕ)
unfolding parse_tx_line
parse_tx_lines [] found = found
parse_tx_lines (l ∷ ls) found = parse_tx_lines ls (parse_tx_line l found)

-- ParseTxMessage
pub parse_tx_message : Text → Option (ℕ × List ℕ)
unfolding parse_tx_lines lines
parse_tx_message msg = let (id, bytes) = parse_tx_lines (lines msg) (none, none) in both id bytes
  where
    both : Option ℕ → Option (List ℕ) → Option (ℕ × List ℕ)
    both (some id) (some bytes) = some (id, bytes)
    both _ _ = none

-- The frame for data of at most eight bytes.
abbrev pub frame_of : ℕ → List ℕ → CanFrame
frame_of id bytes = record {
  can_id = id;
  dlc = length bytes;
  bytes = bytes ++ replicate (8 - length bytes) 0;
}

pub record CanWorker : Type 0 where
  pub cfg : CanConfig
  pub command_map : CommandMap
  pub inbox : Text
  pub primary_fd : ℤ
  pub backup_fd : ℤ
  pub using_backup : Bool
  pub active_tx_fd : ℤ
  pub rx_count : ℕ
  pub tx_count : ℕ
  pub error_count : ℕ
  pub primary_errors : ℕ
  pub last_status : ℕ
  pub last_telemetry : ℕ

-- The state before the loop.
unfoldable pub start_worker :
    CanConfig → CommandMap → (inbox : Text) (primary_fd backup_fd : ℤ) (now : ℕ) → CanWorker
start_worker cfg command_map inbox primary_fd backup_fd now = record {
  cfg = cfg;
  command_map = command_map;
  inbox = inbox;
  primary_fd = primary_fd;
  backup_fd = backup_fd;
  using_backup = false;
  active_tx_fd = if is_nonneg primary_fd then primary_fd else backup_fd;
  rx_count = 0;
  tx_count = 0;
  error_count = 0;
  primary_errors = 0;
  last_status = now;
  last_telemetry = now;
}

-- A text occurs in a text: msg.find(t) != npos.
abbrev begins_with : Text → Text → Bool
begins_with [] s = true
begins_with (c ∷ t) [] = false
begins_with (c ∷ t) (d ∷ s) = if c == d then begins_with t s else false

pub occurs_in : Text → Text → Bool
occurs_in t [] = is_empty t
occurs_in t (d ∷ s) = begins_with t (d ∷ s) || occurs_in t s

-- The result of a write of a frame, in the counters.
abbrev count_write : Bool → CanWorker → CanWorker
count_write true w = record w { tx_count = w.tx_count + 1 }
count_write false w = record w { error_count = w.error_count + 1 }

-- 5.1: one message of the parent, with the result of the write that it may cause; and the frames
-- that are written, each with the descriptor that it is written to.
unfoldable pub transmit : Text → (write_ok : Bool) → CanWorker → CanWorker × List (ℤ × CanFrame)
unfolding occurs_in parse_tx_message
transmit msg write_ok w =
    if occurs_in (codes "type=can_tx") msg && is_nonneg w.active_tx_fd
    then (elim (parse_tx_message msg) [
      | none ↦ (w, [])
      | some (id, bytes) ↦ (count_write write_ok w, (w.active_tx_fd, frame_of id bytes) ∷ [])
    ])
    else (w, [])

-- What a read of a socket that poll reports as readable gives.
pub data ReadOutcome : Type 0 where
  would_block : ReadOutcome
  read_error : ReadOutcome
  short_read : ReadOutcome
  received : (can_id dlc : ℕ) (bytes : List ℕ) → ReadOutcome

-- The frame without the flags of its identifier, with at most eight bytes.
unfoldable pub to_frame : ℕ → ℕ → List ℕ → CanFrame
to_frame can_id dlc bytes =
    let size = min (dlc % 256) 8 in
    record {
      can_id = can_id % 2 ^ 29;
      dlc = size;
      bytes = take size bytes ++ replicate (8 - size) 0;
    }

-- 5.2: one readable socket.
unfoldable pub receive : ℤ → ReadOutcome → CanWorker × FileSystem → CanWorker × FileSystem
unfolding to_frame parse_rx_frame append_command_to_inbox
receive fd would_block (w, fs) = (w, fs)
receive fd read_error (w, fs) = (
  record w {
    error_count = w.error_count + 1;
    primary_errors = if eq_ℤ fd w.primary_fd then w.primary_errors + 1 else w.primary_errors;
  },
  fs,
)
receive fd short_read (w, fs) = (w, fs)
receive fd (received can_id dlc bytes) (w, fs) =
    let cmd = parse_rx_frame w.command_map (to_frame can_id dlc bytes) w.cfg.rx_command_id in
    (
      record w {
        rx_count = w.rx_count + 1;
        primary_errors = if eq_ℤ fd w.primary_fd then 0 else w.primary_errors;
      },
      (if cmd.valid && not (is_empty w.inbox)
          then append_command_to_inbox w.inbox cmd.command_name cmd.extra_params fs
          else fs),
    )

-- n ≥ z
abbrev pub reaches : ℕ → ℤ → Bool
reaches n (pos z) = leb z n
reaches n (negsuc z) = true

-- 5.3
unfoldable pub switch_over : CanWorker → CanWorker
switch_over w =
    if (not w.using_backup && reaches w.primary_errors w.cfg.rx_error_threshold)
      && is_nonneg w.backup_fd
    then record w { using_backup = true; active_tx_fd = w.backup_fd }
    else w

-- The summary that a telemetry frame is built from.
pub compact : CanWorker → Text
unfolding to_string
compact w =
    codes (if w.using_backup then "bk" else "ok")
    ++ codes " r="
    ++ to_string w.rx_count
    ++ codes " t="
    ++ to_string w.tx_count
    ++ codes " e="
    ++ to_string w.error_count

-- 5.4: the worker, and the frames that are written, with their descriptors.
unfoldable pub send_telemetry :
    (now : ℕ) (write_ok : Bool) → CanWorker → CanWorker × List (ℤ × CanFrame)
unfolding compact build_telemetry_frame
send_telemetry now write_ok w =
    if is_nonneg w.active_tx_fd && reaches (now - w.last_telemetry) w.cfg.telemetry_interval_ms
    then (
      count_write write_ok (record w { last_telemetry = now }),
      (w.active_tx_fd, build_telemetry_frame w.cfg.tx_telemetry_id (compact w)) ∷ [],
    )
    else (w, [])

-- 5.5: the worker, and the status that is sent to the parent.
unfoldable pub report_status : (now : ℕ) → CanWorker → CanWorker × Option Text
unfolding to_string
report_status now w =
    let iface = if w.using_backup then w.cfg.backup_interface else w.cfg.primary_interface in
    let hw = if is_nonneg w.active_tx_fd then "ok" else "no_hw" in
    let role = if w.using_backup then "backup" else "primary" in
    if leb 1000 (now - w.last_status)
    then (
      record w { last_status = now },
      some (
          codes "type=can_status"
          ++ 10 ∷ codes "status=can="
          ++ codes hw
          ++ codes " iface="
          ++ iface
          ++ codes " role="
          ++ codes role
          ++ codes " rx="
          ++ to_string w.rx_count
          ++ codes " tx="
          ++ to_string w.tx_count
          ++ codes " err="
          ++ to_string w.error_count
          ++ 10 ∷ []),
    )
    else (w, none)
