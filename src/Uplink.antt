-- ===== src/Uplink.antt =====
-- The way of a command into the service: app/src/can_worker.cpp puts a line for each command frame
-- into the inbox, and app/src/telemetry_command_interface.cpp takes one line from it in each tick.
-- Both work on the same file; a run of the two is a sequence of reads and ticks in any order, none of
-- which overlap.
pub mod Delivery
pub mod Tests
use youyeetoo_rk3588_toolkit.Prelude.{
  ℕ, ℤ, ◌≡◌, refl, ap, sym, ◌∙◌, Bool, true, false, not, ◌&&◌, List, [], ◌∷◌, ◌++◌, some, All,
  Bool-cases, inl, inr, if◌then◌else◌, arith,
}
use youyeetoo_rk3588_toolkit.Prelude.Text.{Text, is_empty, text_eq_refl}
use youyeetoo_rk3588_toolkit.Prelude.Splitting.{Lacks, split-append}
use youyeetoo_rk3588_toolkit.Result.{err}
use youyeetoo_rk3588_toolkit.FileSystem.{FileSystem, lines, append_file, write_file}
use youyeetoo_rk3588_toolkit.Camera.{CameraAppOptions}
use youyeetoo_rk3588_toolkit.TaskManager.{ICameraManager}
use youyeetoo_rk3588_toolkit.Dispatcher.{ServiceContext}
use youyeetoo_rk3588_toolkit.Telemetry.{
  TelemetryCommandInterface, commands_of, parse_command_line, tick, trim,
}
use youyeetoo_rk3588_toolkit.Telemetry.Inbox.{inbox, queue, tick_malformed}
use youyeetoo_rk3588_toolkit.Can.Maps.{IsEntry}
use youyeetoo_rk3588_toolkit.CanWorker.{
  CanWorker, ReadOutcome, received, would_block, read_error, short_read, receive, to_frame,
  append_command_to_inbox, inbox_line,
}
use youyeetoo_rk3588_toolkit.CanWorker.Inbox.{
  command_of, line_of, append_assoc, command-Lacks, inbox_line-Lacks,
}

-- What happens next: the worker reads a socket, or the interface ticks.
pub data Event : Type 0 where
  worker_read : ℤ → ReadOutcome → Event
  service_tick : Event

-- A text that begins with the line.
abbrev pub IsFirst : Text → Text → FileSystem → Type 0
IsFirst line path fs = (rest : Text) × (fs.contents path ≡ some (line ++ (10 ∷ rest)))

append_file-IsFirst :
    (line path text : Text) (fs : FileSystem)
    → IsFirst line path fs
    → IsFirst line path (append_file path text fs)
unfolding append_file write_file
append_file-IsFirst line path text fs (rest, e) = elim (Bool-cases (fs.writable path)) [
  | inl w ↦ (
    rest ++ text,
    rw (e, append_file)
        (rw (w, text_eq_refl path) (ap (λ t. some t) (append_assoc line (10 ∷ rest) text))),
  )
  | inr w ↦ (rest, rw (e, append_file) (rw w e))
]

append_file-empty :
    (line path : Text) (fs : FileSystem)
    → fs.writable path ≡ true
    → fs.contents path ≡ some []
    → IsFirst line path (append_file path (line ++ 10 ∷ []) fs)
unfolding append_file write_file
append_file-empty line path fs w e = ([], rw (e, append_file) (rw (w, text_eq_refl path) refl))

-- Whatever the worker reads, what its inbox begins with stays.
receive-IsFirst :
    (line : Text) (fd : ℤ) (r : ReadOutcome) (w : CanWorker) (fs : FileSystem)
    → IsFirst line w.inbox fs
    → IsFirst line w.inbox (receive fd r (w, fs)).1
unfolding receive append_command_to_inbox
receive-IsFirst line fd would_block w fs h = h
receive-IsFirst line fd read_error w fs h = h
receive-IsFirst line fd short_read w fs h = h
receive-IsFirst line fd (received can_id dlc bytes) w fs h =
    let cmd = command_of w can_id dlc bytes in
    elim (Bool-cases (cmd.valid && not (is_empty w.inbox))) [
      | inl taken ↦ rw taken (
          append_file-IsFirst line w.inbox (inbox_line cmd.command_name cmd.extra_params ++ 10 ∷ [])
            fs h)
      | inr left ↦ rw left h
    ]

receive-inbox :
    (fd : ℤ) (r : ReadOutcome) (w : CanWorker) (fs : FileSystem)
    → (receive fd r (w, fs)).0.inbox ≡ w.inbox
unfolding receive
receive-inbox fd would_block w fs = refl
receive-inbox fd read_error w fs = refl
receive-inbox fd short_read w fs = refl
receive-inbox fd (received can_id dlc bytes) w fs = refl

queue-IsFirst :
    (line path : Text) (fs : FileSystem)
    → Lacks 10 line
    → is_empty (trim line) ≡ false
    → IsFirst line path fs
    → (rest : List Text) × (queue path fs ≡ trim line ∷ rest)
unfolding queue lines commands_of
queue-IsFirst line path fs whole filled (rest, e) = (
  commands_of (lines rest),
  rw (e, queue) (rw (split-append 10 line rest whole, lines) (rw (filled, commands_of) refl)),
)

module _ (cm : ICameraManager) where
  open cm use {State}

  pub record System : Type 0 where
    pub worker : CanWorker
    pub files : FileSystem
    pub commands : TelemetryCommandInterface
    pub services : ServiceContext State

  unfoldable pub step : Event → System → System
  unfolding receive tick
  step (worker_read fd r) s =
      let (worker', files') = receive fd r (s.worker, s.files) in
      record s { worker = worker'; files = files' }
  step service_tick s =
      let (files', commands', services') = tick cm (s.files, s.commands, s.services) in
      record s { files = files'; commands = commands'; services = services' }

  unfoldable pub run : List Event → System → System
  run [] s = s
  run (e ∷ es) s = run es (step e s)

  -- The inbox begins with a line that is no well-formed command.
  pub record IsBlocked (line e : Text) (s : System) : Type 0 where
    pub same_inbox : s.worker.inbox ≡ inbox s.commands
    pub first_line : IsFirst line s.worker.inbox s.files
    pub whole : Lacks 10 line
    pub filled : is_empty (trim line) ≡ false
    pub malformed : parse_command_line (trim line) ≡ err e

  step-IsBlocked :
      (line e : Text) (event : Event) (s : System)
      → IsBlocked line e s
      → IsBlocked line e (step event s) × ((step event s).services ≡ s.services)
  unfolding step
  step-IsBlocked line e (worker_read fd r) s h =
      let same : (receive fd r (s.worker, s.files)).0.inbox ≡ s.worker.inbox =
        receive-inbox fd r s.worker s.files in
      (
        record {
          same_inbox = same ∙ h.same_inbox;
          first_line = rw same (receive-IsFirst line fd r s.worker s.files h.first_line);
          whole = h.whole;
          filled = h.filled;
          malformed = h.malformed;
        },
        refl,
      )
  step-IsBlocked line e service_tick s h =
      let (rest, q) = queue-IsFirst line s.worker.inbox s.files h.whole h.filled h.first_line in
      let (files', services', options') =
        tick_malformed cm s.files s.commands s.services (trim line) rest e
          (ap (λ path. queue path s.files) (sym h.same_inbox) ∙ q) h.malformed in
      (
        record {
          same_inbox =
              h.same_inbox
              ∙ ap (λ (o : CameraAppOptions). o.telemetry_command_inbox) (sym options');
          first_line = rw files' h.first_line;
          whole = h.whole;
          filled = h.filled;
          malformed = h.malformed;
        },
        services',
      )

  run-IsBlocked :
      (line e : Text) (events : List Event) (s : System)
      → IsBlocked line e s
      → (run events s).services ≡ s.services
  unfolding run
  run-IsBlocked line e [] s h = refl
  run-IsBlocked line e (event ∷ events) s h =
      let (still, same) = step-IsBlocked line e event s h in
      run-IsBlocked line e events (step event s) still ∙ same

  -- One command frame whose line is neither blank nor a well-formed command, received while the inbox
  -- is empty, stops the commands for good: whatever the worker reads and however often the interface
  -- ticks behind it, in any order, no service and no task changes; if both use the same inbox, which
  -- can be written, and the entries of the command map are on one line each.
  pub one_frame_blocks :
      (fd : ℤ) (can_id dlc : ℕ) (bytes : List ℕ) (events : List Event) (s : System) (e : Text)
      → All IsEntry s.worker.command_map
      → (command_of s.worker can_id dlc bytes).valid ≡ true
      → is_empty s.worker.inbox ≡ false
      → s.worker.inbox ≡ inbox s.commands
      → s.files.writable s.worker.inbox ≡ true
      → s.files.contents s.worker.inbox ≡ some []
      → is_empty (trim (line_of (command_of s.worker can_id dlc bytes))) ≡ false
      → parse_command_line (trim (line_of (command_of s.worker can_id dlc bytes))) ≡ err e
      → (run (worker_read fd (received can_id dlc bytes) ∷ events) s).services ≡ s.services
  unfolding run step receive append_command_to_inbox
  one_frame_blocks fd can_id dlc bytes events s e entries valid named same w empty filled bad =
      let cmd = command_of s.worker can_id dlc bytes in
      let (name, params) =
        command-Lacks s.worker.command_map (to_frame can_id dlc bytes) s.worker.cfg.rx_command_id
          entries in
      run-IsBlocked (line_of cmd) e events (step (worker_read fd (received can_id dlc bytes)) s)
        (record {
          same_inbox = same;
          first_line =
              rw (valid, named) (append_file-empty (line_of cmd) s.worker.inbox s.files w empty);
          whole = inbox_line-Lacks cmd.command_name cmd.extra_params name params;
          filled = filled;
          malformed = bad;
        })
