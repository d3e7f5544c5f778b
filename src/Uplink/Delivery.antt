-- ===== src/Uplink/Delivery.antt =====
-- A command frame that app/src/can_worker.cpp receives reaches the code of
-- app/src/telemetry_command_interface.cpp that dispatches its request.
use youyeetoo_rk3588_toolkit.Prelude.{
  ℕ, ℤ, ◌≡◌, refl, ap, sym, ◌∙◌, true, false, List, [], ◌∷◌, ◌++◌, some, All, length, Bool-cases,
  inl, inr,
}
use mathlib.Core.Path.{subst}
use youyeetoo_rk3588_toolkit.Prelude.Dict.{lookup}
use youyeetoo_rk3588_toolkit.Prelude.Text.{Text, is_empty}
use youyeetoo_rk3588_toolkit.Prelude.Splitting.{Lacks}
use youyeetoo_rk3588_toolkit.Result.{ok}
use youyeetoo_rk3588_toolkit.FileSystem.{FileSystem, lines, unlines, append_file, write_file}
use youyeetoo_rk3588_toolkit.Camera.{CameraAppOptions}
use youyeetoo_rk3588_toolkit.Command.{CommandRequest}
use youyeetoo_rk3588_toolkit.Dispatcher.{dispatch}
use youyeetoo_rk3588_toolkit.TaskManager.{ICameraManager}
use youyeetoo_rk3588_toolkit.Telemetry.{
  CommandDefinition, build_command_request, commands_of, open_definitions, parse_command_line,
  resolve_command_request, tick, ticks, trim, World,
}
use youyeetoo_rk3588_toolkit.Telemetry.Inbox.{inbox, queue}
use youyeetoo_rk3588_toolkit.Telemetry.Drain.{
  IsReady, IsReady-write_file, Parses, open_definitions-write_file, table_unique, ticks-turn,
}
use youyeetoo_rk3588_toolkit.Can.Maps.{IsEntry}
use youyeetoo_rk3588_toolkit.CanWorker.{CanWorker, received, receive, append_command_to_inbox}
use youyeetoo_rk3588_toolkit.CanWorker.Inbox.{command_of, line_of, receive_appends}
use youyeetoo_rk3588_toolkit.Uplink.{System, step, worker_read}

commands_of-append :
    (ls : List Text) (l : Text)
    → is_empty (trim l) ≡ false
    → commands_of (ls ++ l ∷ []) ≡ commands_of ls ++ trim l ∷ []
unfolding commands_of
commands_of-append [] l h = rw h refl
commands_of-append (k ∷ ls) l h = elim (Bool-cases (is_empty (trim k))) [
  | inl blank ↦ rw blank (commands_of-append ls l h)
  | inr filled ↦ rw filled (ap (λ cs. trim k ∷ cs) (commands_of-append ls l h))
]

queue-lines :
    (path : Text) (ls : List Text) (fs : FileSystem)
    → fs.contents path ≡ some (unlines ls)
    → lines (unlines ls) ≡ ls
    → queue path fs ≡ commands_of ls
unfolding queue
queue-lines path ls fs e whole = rw (e, queue) (ap commands_of whole)

-- What appending to the inbox leaves: the files are ready, and the same definitions are opened.
abbrev StaysReady : (o : CameraAppOptions) (fs new : FileSystem) → Type 0
StaysReady o fs new = IsReady o new × (open_definitions o new ≡ open_definitions o fs)

append_file-StaysReady :
    (o : CameraAppOptions) (path text before : Text) (fs : FileSystem)
    → o.telemetry_command_inbox ≡ path
    → IsReady o fs
    → fs.contents path ≡ some before
    → StaysReady o fs (append_file path text fs)
unfolding append_file
append_file-StaysReady o path text before fs same ready e =
    rw (e, append_file)
      (subst (λ p. StaysReady o fs (write_file p (before ++ text) fs)) same
        (
          IsReady-write_file o (before ++ text) fs ready,
          open_definitions-write_file o (before ++ text) fs ready.apart,
        ))

receive-StaysReady :
    (o : CameraAppOptions) (before : Text) (fd : ℤ) (can_id dlc : ℕ) (bytes : List ℕ)
    (w : CanWorker) (fs : FileSystem)
    → o.telemetry_command_inbox ≡ w.inbox
    → (command_of w can_id dlc bytes).valid ≡ true
    → is_empty w.inbox ≡ false
    → IsReady o fs
    → fs.contents w.inbox ≡ some before
    → StaysReady o fs (receive fd (received can_id dlc bytes) (w, fs)).1
unfolding receive append_command_to_inbox
receive-StaysReady o before fd can_id dlc bytes w fs same valid named ready e =
    let line : Text = line_of (command_of w can_id dlc bytes) in
    rw (valid, named) (append_file-StaysReady o w.inbox (line ++ 10 ∷ []) before fs same ready e)

module _ (cm : ICameraManager) where
  open cm use {State}

  -- The world when the command of a frame has its turn: after the frame, and as many ticks as there
  -- are commands in the lines before it.
  abbrev pub turn_of : ℤ → (can_id dlc : ℕ) → List ℕ → List Text → System cm → World cm
  turn_of fd can_id dlc bytes ls s =
      let s' = step cm (worker_read fd (received can_id dlc bytes)) s in
      ticks cm (length (commands_of ls)) (s'.files, s'.commands, s'.services)

  -- A command frame with a well-formed line, received while the inbox holds whole lines with
  -- well-formed commands, is dispatched in its turn: after as many ticks as there are commands
  -- before it, the next tick leaves the services as the dispatcher leaves them for the request of
  -- the frame's command, has noted the module that it was routed to and the name of the command, and
  -- leaves the inbox empty; if no more arrives, the command is in the definitions, its request
  -- resolves in its turn, both use the same inbox, which can be written, the definitions load from
  -- other files, and the entries of the command map are on one line each.
  pub frame_is_run :
      (fd : ℤ) (can_id dlc : ℕ) (bytes : List ℕ) (s : System cm) (ls : List Text) (name : Text)
      (params : List (Text × Text)) (definition : CommandDefinition) (request : CommandRequest)
      → All IsEntry s.worker.command_map
      → (command_of s.worker can_id dlc bytes).valid ≡ true
      → is_empty s.worker.inbox ≡ false
      → inbox s.commands ≡ s.worker.inbox
      → (ready : IsReady s.commands.options s.files)
      → s.files.contents s.worker.inbox ≡ some (unlines ls)
      → All (Lacks 10) ls
      → All Parses (commands_of ls)
      → is_empty (trim (line_of (command_of s.worker can_id dlc bytes))) ≡ false
      → parse_command_line (trim (line_of (command_of s.worker can_id dlc bytes)))
        ≡ ok (name, params)
      → lookup name ready.loads.table ≡ some definition
      → (let (files, commands, services) = turn_of fd can_id dlc bytes ls s in
          resolve_command_request
            (build_command_request commands.next_id definition params)
            (write_file s.worker.inbox [] files)
          ≡ ok request)
      → let (_, _, services) = turn_of fd can_id dlc bytes ls s in
        let (files', commands', services') = tick cm (turn_of fd can_id dlc bytes ls s) in
        (queue s.worker.inbox files' ≡ [])
        × (commands'.last_command_name ≡ name)
        × (services' ≡ (dispatch cm request services).0)
        × (commands'.last_routed_module ≡ (dispatch cm request services).1.routed_module)
  unfolding step
  frame_is_run fd can_id dlc bytes s ls name params definition request entries valid named same
        ready e whole ps filled p defined resolved =
      let path : Text = s.worker.inbox in
      let line : Text = line_of (command_of s.worker can_id dlc bytes) in
      let writes = ap s.files.writable (sym same) ∙ ready.writes in
      let (appended, still_whole) =
        receive_appends fd can_id dlc bytes s.worker s.files ls entries valid named writes e
          whole in
      let files : FileSystem = (receive fd (received can_id dlc bytes) (s.worker, s.files)).1 in
      let (still_ready, opens) =
        receive-StaysReady s.commands.options (unlines ls) fd can_id dlc bytes s.worker s.files same
          valid named ready e in
      ticks-turn cm (commands_of ls) files s.commands s.services path (trim line) name params
        definition request same still_ready
        (queue-lines path (ls ++ line ∷ []) files appended still_whole
          ∙ commands_of-append ls line filled)
        ps p (ap (lookup name) (table_unique still_ready.loads ready.loads opens) ∙ defined)
        resolved
