-- ===== src/Telemetry/Queue.antt =====
-- The inbox of app/src/telemetry_command_interface.cpp as a queue that a tick takes one command from.
use mathlib.Core.Path.{subst, subst₂}
use youyeetoo_rk3588_toolkit.Prelude.{
  ◌≡◌, refl, sym, ap, ◌∙◌, some, true, false, List, [], ◌∷◌, arith, Option-cases, Bool-cases, inl,
  inr, All, ◌==◌,
}
use youyeetoo_rk3588_toolkit.Prelude.Text.{Text, text_eq_refl, is_empty, is_space}
use youyeetoo_rk3588_toolkit.Prelude.Splitting.{Lacks, split-append, split-Lacks}
use youyeetoo_rk3588_toolkit.Prelude.Trimming.{trim_by_idem, trim_by-All}
use youyeetoo_rk3588_toolkit.Result.{ok}
use youyeetoo_rk3588_toolkit.Camera.{CameraAppOptions}
use youyeetoo_rk3588_toolkit.FileSystem.{FileSystem, lines, unlines, write_file}
use youyeetoo_rk3588_toolkit.TaskManager.{ICameraManager}
use youyeetoo_rk3588_toolkit.Command.{CommandRequest}
use youyeetoo_rk3588_toolkit.Dispatcher.{ServiceContext, dispatch}
use youyeetoo_rk3588_toolkit.Prelude.Dict.{lookup}
use youyeetoo_rk3588_toolkit.Telemetry.{
  TelemetryCommandInterface, CommandDefinition, build_command_request, resolve_command_request,
  load_definitions, commands_of, parse_command_line, take_command, run_command, dispatch_request,
  process_command_file, tick, trim,
}
use youyeetoo_rk3588_toolkit.Telemetry.Inbox.{
  inbox, queue, options-load_definitions, next_id-load_definitions,
}

-- A command as it stands in the queue: trimmed, not blank, in one line.
abbrev IsClean : Text → Type 0
IsClean c = (trim c ≡ c) × (is_empty c ≡ false) × Lacks 10 c

commands_of-unlines : (cs : List Text) → All IsClean cs → commands_of (lines (unlines cs)) ≡ cs
unfolding commands_of lines unlines
commands_of-unlines [] h = refl
commands_of-unlines (c ∷ cs) ((same, filled, one_line), hs) =
    rw (split-append 10 c (unlines cs) one_line, same, filled)
      (ap (λ r. c ∷ r) (commands_of-unlines cs hs))

commands_of-IsClean : (ls : List Text) → All (Lacks 10) ls → All IsClean (commands_of ls)
unfolding commands_of trim
commands_of-IsClean [] h = tt
commands_of-IsClean (l ∷ ls) (h, hs) = elim (Bool-cases (is_empty (trim l))) [
  | inl blank ↦ rw blank (commands_of-IsClean ls hs)
  | inr filled ↦ rw filled (
    (trim_by_idem is_space l, filled, trim_by-All (λ c. (c == 10) ≡ false) is_space l h),
    commands_of-IsClean ls hs,
  )
]

queue-IsClean : (path : Text) (fs : FileSystem) → All IsClean (queue path fs)
unfolding queue lines
queue-IsClean path fs = elim (Option-cases (fs.contents path)) [
  | inl e ↦ rw (e, queue) tt
  | inr (text, e) ↦ rw (e, queue) (commands_of-IsClean (lines text) (split-Lacks 10 text))
]

-- What is written back is read as the same queue.
queue-write_file :
    (path : Text) (cs : List Text) (fs : FileSystem)
    → fs.writable path ≡ true
    → All IsClean cs
    → queue path (write_file path (unlines cs) fs) ≡ cs
unfolding queue write_file
queue-write_file path cs fs w h = rw (w, queue, text_eq_refl path) (commands_of-unlines cs h)

module _ (cm : ICameraManager) where
  open cm use {State}

  run_command-keeps :
      (name : Text) (params : List (Text × Text)) (fs : FileSystem)
      (tci : TelemetryCommandInterface) (ctx : ServiceContext State)
      → ((run_command cm name params (fs, tci, ctx)).0.0 ≡ fs)
        × ((run_command cm name params (fs, tci, ctx)).0.1.options ≡ tci.options)
        × ((run_command cm name params (fs, tci, ctx)).0.1.last_command_name ≡ name)
  unfolding run_command dispatch_request
  run_command-keeps name params fs tci ctx = ground arith

  -- The world behind a tick on a well-formed first command.
  pub tick_well_formed :
      (fs : FileSystem) (tci loaded : TelemetryCommandInterface) (ctx : ServiceContext State)
      (first : Text) (rest : List Text) (name : Text) (params : List (Text × Text))
      → load_definitions fs tci ≡ ok loaded
      → queue (inbox tci) fs ≡ first ∷ rest
      → parse_command_line first ≡ ok (name, params)
      → ((tick cm (fs, tci, ctx)).0 ≡ write_file (inbox tci) (unlines rest) fs)
        × ((tick cm (fs, tci, ctx)).1.options ≡ tci.options)
        × ((tick cm (fs, tci, ctx)).1.last_command_name ≡ name)
  unfolding tick process_command_file take_command queue
  tick_well_formed fs tci loaded ctx first rest name params l q p =
      let same = options-load_definitions fs tci loaded l in
      let keeps =
        run_command-keeps name params (write_file (inbox loaded) (unlines rest) fs) loaded ctx in
      ground (
        arith,
        keeps,
        same,
        ap (λ (o : CameraAppOptions). write_file o.telemetry_command_inbox (unlines rest) fs) same,
      )

  -- What such a tick does to the services, if the command is defined and its request resolves.
  pub tick_dispatches :
      (fs : FileSystem) (tci loaded : TelemetryCommandInterface) (ctx : ServiceContext State)
      (first : Text) (rest : List Text) (name : Text) (params : List (Text × Text))
      (definition : CommandDefinition) (request : CommandRequest)
      → load_definitions fs tci ≡ ok loaded
      → queue (inbox tci) fs ≡ first ∷ rest
      → parse_command_line first ≡ ok (name, params)
      → lookup name loaded.definitions ≡ some definition
      → resolve_command_request
          (build_command_request tci.next_id definition params)
          (write_file (inbox tci) (unlines rest) fs)
        ≡ ok request
      → ((tick cm (fs, tci, ctx)).2 ≡ (dispatch cm request ctx).0)
        × ((tick cm (fs, tci, ctx)).1.last_routed_module
            ≡ (dispatch cm request ctx).1.routed_module)
  unfolding tick process_command_file take_command run_command dispatch_request queue
  tick_dispatches fs tci loaded ctx first rest name params definition request l q p d r =
      let same = options-load_definitions fs tci loaded l in
      let written =
        ap (λ (o : CameraAppOptions). write_file o.telemetry_command_inbox (unlines rest) fs)
          same in
      let counted = next_id-load_definitions fs tci loaded l in
      let resolved =
        subst₂
          (λ id files.
            resolve_command_request (build_command_request id definition params) files ≡ ok request)
          (sym counted) (sym written) r in
      ground (arith, resolved)

  module _ (fs : FileSystem) (tci : TelemetryCommandInterface) (ctx : ServiceContext State)
      (w : fs.writable (inbox tci) ≡ true) where
    -- A tick takes the first command out of the inbox, and no other, if the definitions load, the
    -- inbox can be written and the command is well formed.
    pub tick_takes :
        (loaded : TelemetryCommandInterface) (first : Text) (rest : List Text) (name : Text)
        (params : List (Text × Text))
        → load_definitions fs tci ≡ ok loaded
        → queue (inbox tci) fs ≡ first ∷ rest
        → parse_command_line first ≡ ok (name, params)
        → (queue (inbox tci) (tick cm (fs, tci, ctx)).0 ≡ rest)
          × ((tick cm (fs, tci, ctx)).1.last_command_name ≡ name)
    tick_takes loaded first rest name params l q p =
        let (files, options, named) =
          tick_well_formed fs tci loaded ctx first rest name params l q p in
        let clean : All IsClean (first ∷ rest) =
          subst (All IsClean) q (queue-IsClean (inbox tci) fs) in
        (ap (queue (inbox tci)) files ∙ queue-write_file (inbox tci) rest fs w clean.1, named)
