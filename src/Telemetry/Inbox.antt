-- ===== src/Telemetry/Inbox.antt =====
-- The command inbox of app/src/telemetry_command_interface.cpp as a queue: what a tick takes from
-- it, and the line that stops it for good.
use youyeetoo_rk3588_toolkit.Prelude.{
  ℕ, zero, suc, ◌≡◌, refl, ap, ◌∙◌, List, [], ◌∷◌, none, some, arith, inl, inr,
}
use youyeetoo_rk3588_toolkit.Prelude.Text.{Text}
use youyeetoo_rk3588_toolkit.Result.{ok, err, Result-cases}
use youyeetoo_rk3588_toolkit.Camera.{CameraAppOptions}
use youyeetoo_rk3588_toolkit.FileSystem.{FileSystem, lines}
use youyeetoo_rk3588_toolkit.TaskManager.{ICameraManager}
use youyeetoo_rk3588_toolkit.Dispatcher.{ServiceContext}
use youyeetoo_rk3588_toolkit.Telemetry.{
  TelemetryCommandInterface, load_definitions, commands_of, parse_command_line, take_command,
  process_command_file, tick, ticks,
}

-- The path of the inbox, and the commands that wait in it.
abbrev pub inbox : TelemetryCommandInterface → Text
inbox tci = tci.options.telemetry_command_inbox

unfoldable pub queue : Text → FileSystem → List Text
queue path fs = elim (fs.contents path) [ none ↦ [] | some text ↦ commands_of (lines text) ]

pub options-load_definitions :
    (fs : FileSystem) (tci loaded : TelemetryCommandInterface)
    → load_definitions fs tci ≡ ok loaded
    → loaded.options ≡ tci.options
unfolding load_definitions
options-load_definitions fs tci loaded h = ground arith

pub next_id-load_definitions :
    (fs : FileSystem) (tci loaded : TelemetryCommandInterface)
    → load_definitions fs tci ≡ ok loaded
    → loaded.next_id ≡ tci.next_id
unfolding load_definitions
next_id-load_definitions fs tci loaded h = ground arith

module _ (cm : ICameraManager) where
  open cm use {State}

  -- A tick on an inbox whose first command does not parse.
  pub tick_malformed :
      (fs : FileSystem) (tci : TelemetryCommandInterface) (ctx : ServiceContext State)
      (first : Text) (rest : List Text) (e : Text)
      → queue (inbox tci) fs ≡ first ∷ rest
      → parse_command_line first ≡ err e
      → ((tick cm (fs, tci, ctx)).0 ≡ fs)
        × ((tick cm (fs, tci, ctx)).2 ≡ ctx)
        × ((tick cm (fs, tci, ctx)).1.options ≡ tci.options)
  unfolding tick process_command_file take_command queue
  tick_malformed fs tci ctx first rest e q p = elim (Result-cases (load_definitions fs tci)) [
    | inr (message, l) ↦ rw (l, tick) (refl, refl, refl)
    | inl (loaded, l) ↦ ground (arith, options-load_definitions fs tci loaded l)
  ]

  -- A line that is no well-formed command blocks the inbox: while it is the first command, no number
  -- of ticks changes a file, reaches a service or hands out a task, so the commands behind it are
  -- never run.
  pub malformed_blocks :
      (n : ℕ) (fs : FileSystem) (tci : TelemetryCommandInterface) (ctx : ServiceContext State)
      (first : Text) (rest : List Text) (e : Text)
      → queue (inbox tci) fs ≡ first ∷ rest
      → parse_command_line first ≡ err e
      → ((ticks cm n (fs, tci, ctx)).0 ≡ fs) × ((ticks cm n (fs, tci, ctx)).2 ≡ ctx)
  unfolding ticks
  malformed_blocks zero fs tci ctx first rest e q p = (refl, refl)
  malformed_blocks (suc n) fs tci ctx first rest e q p =
      let (files, services, options) = tick_malformed fs tci ctx first rest e q p in
      let (fs', tci', ctx') = tick cm (fs, tci, ctx) in
      let (files', services') =
        malformed_blocks n fs' tci' ctx' first rest e
          (ap (λ (o : CameraAppOptions). queue o.telemetry_command_inbox fs') options
            ∙ ap (queue (inbox tci)) files
            ∙ q)
          p in
      (files' ∙ files, services' ∙ services)
