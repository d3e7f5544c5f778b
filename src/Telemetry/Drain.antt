-- ===== src/Telemetry/Drain.antt =====
-- The inbox of app/src/telemetry_command_interface.cpp is worked off in order, one command a tick.
use mathlib.Core.Path.{subst, subst₂}
use youyeetoo_rk3588_toolkit.Prelude.{
  ℕ, zero, suc, ◌≡◌, refl, sym, ap, ◌∙◌, true, false, List, [], ◌∷◌, some, arith, inl, inr, All,
  drop, ◌++◌, length,
}
use youyeetoo_rk3588_toolkit.Prelude.Text.{Text, text_eq}
use youyeetoo_rk3588_toolkit.Result.{ok, Result-cases}
use youyeetoo_rk3588_toolkit.Camera.{CameraAppOptions}
use youyeetoo_rk3588_toolkit.FileSystem.{FileSystem, lines, unlines, write_file}
use youyeetoo_rk3588_toolkit.TaskManager.{ICameraManager}
use youyeetoo_rk3588_toolkit.Command.{CommandRequest}
use youyeetoo_rk3588_toolkit.Dispatcher.{ServiceContext, dispatch}
use youyeetoo_rk3588_toolkit.Prelude.Dict.{lookup}
use youyeetoo_rk3588_toolkit.Telemetry.{
  TelemetryCommandInterface, CommandDefinition, load_definitions, open_definitions,
  parse_definitions, parse_command_line, take_command, process_command_file, tick, ticks,
  fallback_defs, note_loaded, build_command_request, resolve_command_request,
}
use youyeetoo_rk3588_toolkit.Telemetry.Inbox.{inbox, queue, options-load_definitions}
use youyeetoo_rk3588_toolkit.Telemetry.Queue.{tick_well_formed, tick_takes, tick_dispatches}

-- The definitions can be loaded: the file that is opened parses.
pub record Loads (options : CameraAppOptions) (fs : FileSystem) : Type 0 where
  pub path : Text
  pub text : Text
  pub table : List (Text × CommandDefinition)
  pub opened : open_definitions options fs ≡ some (path, text)
  pub parsed : parse_definitions 1 (lines text) [] ≡ ok table

load_definitions-Loads :
    (fs : FileSystem) (tci : TelemetryCommandInterface)
    → (l : Loads tci.options fs)
    → (loaded : TelemetryCommandInterface) × (load_definitions fs tci ≡ ok loaded)
      × (loaded.definitions ≡ l.table)
unfolding load_definitions
load_definitions-Loads fs tci l = (
  note_loaded l.path (record tci { definitions = l.table }),
  rw (l.opened, load_definitions, l.parsed) refl,
  ground arith,
)

-- Where the same file is opened, the same definitions load.
pub table_unique :
    {o o' : CameraAppOptions} {fs fs' : FileSystem} (l : Loads o fs) (l' : Loads o' fs')
    → open_definitions o fs ≡ open_definitions o' fs'
    → l.table ≡ l'.table
table_unique l l' e = grind (arith, l.opened, l'.opened, l.parsed, l'.parsed)

-- Writing the inbox leaves the definitions alone, if it is another file.
abbrev pub IsApart : CameraAppOptions → Type 0
IsApart o =
    (text_eq o.telemetry_command_inbox o.telemetry_command_defs ≡ false)
    × (text_eq o.telemetry_command_inbox fallback_defs ≡ false)

pub open_definitions-write_file :
    (o : CameraAppOptions) (new : Text) (fs : FileSystem)
    → IsApart o
    → open_definitions o (write_file o.telemetry_command_inbox new fs) ≡ open_definitions o fs
unfolding open_definitions write_file
open_definitions-write_file o new fs (a, b) = ground arith

writable-write_file :
    (path new : Text) (fs : FileSystem) → (write_file path new fs).writable ≡ fs.writable
unfolding write_file
writable-write_file path new fs = ground arith

drop_nil : (n : ℕ) → drop {A = Text} n [] ≡ []
drop_nil zero = refl
drop_nil (suc n) = refl

-- A well-formed command.
abbrev pub Parses : Text → Type 0
Parses c =
    (name : Text) × (params : List (Text × Text)) × (parse_command_line c ≡ ok (name, params))

-- What the ticks need of the options and the files, and keep.
pub record IsReady (o : CameraAppOptions) (fs : FileSystem) : Type 0 where
  pub loads : Loads o fs
  pub apart : IsApart o
  pub writes : fs.writable o.telemetry_command_inbox ≡ true

pub IsReady-write_file :
    (o : CameraAppOptions) (new : Text) (fs : FileSystem)
    → IsReady o fs
    → IsReady o (write_file o.telemetry_command_inbox new fs)
IsReady-write_file o new fs r = record {
  loads = record {
    path = r.loads.path;
    text = r.loads.text;
    table = r.loads.table;
    opened = open_definitions-write_file o new fs r.apart ∙ r.loads.opened;
    parsed = r.loads.parsed;
  };
  apart = r.apart;
  writes =
      ap (λ f. f o.telemetry_command_inbox) (writable-write_file o.telemetry_command_inbox new fs)
      ∙ r.writes;
}

module _ (cm : ICameraManager) where
  open cm use {State}

  tick_empty :
      (fs : FileSystem) (tci : TelemetryCommandInterface) (ctx : ServiceContext State)
      → queue (inbox tci) fs ≡ []
      → ((tick cm (fs, tci, ctx)).0 ≡ fs) × ((tick cm (fs, tci, ctx)).1.options ≡ tci.options)
  unfolding tick process_command_file take_command queue
  tick_empty fs tci ctx q = elim (Result-cases (load_definitions fs tci)) [
    | inr (message, l) ↦ rw (l, tick) (refl, refl)
    | inl (loaded, l) ↦ ground (arith, options-load_definitions fs tci loaded l)
  ]

  -- A tick on a well-formed first command: the state is ready for the next one.
  pub tick-IsReady :
      (fs : FileSystem) (tci : TelemetryCommandInterface) (ctx : ServiceContext State)
      (path first : Text) (rest : List Text) (name : Text) (params : List (Text × Text))
      → inbox tci ≡ path
      → IsReady tci.options fs
      → queue path fs ≡ first ∷ rest
      → parse_command_line first ≡ ok (name, params)
      → let (fs', tci', ctx') = tick cm (fs, tci, ctx) in
        (inbox tci' ≡ path)
        × IsReady tci'.options fs'
        × (queue path fs' ≡ rest)
        × (tci'.last_command_name ≡ name)
        × (open_definitions tci'.options fs' ≡ open_definitions tci.options fs)
  tick-IsReady fs tci ctx path first rest name params e r q p =
      let (loaded, l, _) = load_definitions-Loads fs tci r.loads in
      let here : queue (inbox tci) fs ≡ first ∷ rest = ap (λ p. queue p fs) e ∙ q in
      let (files, options, _) =
        tick_well_formed cm fs tci loaded ctx first rest name params l here p in
      let (left, named) =
        tick_takes cm fs tci ctx r.writes loaded first rest name params l here p in
      (
        ap (λ (o : CameraAppOptions). o.telemetry_command_inbox) options ∙ e,
        subst₂ IsReady (sym options) (sym files)
            (IsReady-write_file tci.options (unlines rest) fs r),
        ap (λ p. queue p (tick cm (fs, tci, ctx)).0) (sym e) ∙ left,
        named,
        subst₂ (λ o f. open_definitions o f ≡ open_definitions tci.options fs) (sym options)
            (sym files) (open_definitions-write_file tci.options (unlines rest) fs r.apart),
      )

  -- Liveness: if the definitions load from files other than the inbox, the inbox can be written and
  -- all its commands are well formed, then n ticks take exactly the first n commands out of it.
  pub ticks-drain :
      (n : ℕ) (fs : FileSystem) (tci : TelemetryCommandInterface) (ctx : ServiceContext State)
      (path : Text) (cs : List Text)
      → inbox tci ≡ path
      → IsReady tci.options fs
      → queue path fs ≡ cs
      → All Parses cs
      → queue path (ticks cm n (fs, tci, ctx)).0 ≡ drop n cs
  unfolding ticks
  ticks-drain zero fs tci ctx path cs e r q ps = q
  ticks-drain (suc n) fs tci ctx path [] e r q ps =
      let (files, options) = tick_empty fs tci ctx (ap (λ p. queue p fs) e ∙ q) in
      let (fs', tci', ctx') = tick cm (fs, tci, ctx) in
      ticks-drain n fs' tci' ctx' path []
        (ap (λ (o : CameraAppOptions). o.telemetry_command_inbox) options ∙ e)
        (subst₂ IsReady (sym options) (sym files) r) (ap (queue path) files ∙ q) tt
      ∙ drop_nil n
  ticks-drain (suc n) fs tci ctx path (c ∷ cs) e r q ((name, params, p), ps) =
      let (same, ready, left, _, _) = tick-IsReady fs tci ctx path c cs name params e r q p in
      let (fs', tci', ctx') = tick cm (fs, tci, ctx) in
      ticks-drain n fs' tci' ctx' path cs same ready left ps

  -- After as many ticks as there are well-formed commands before it, a command is the first one, and
  -- the definitions are the same.
  ticks-wait :
      (before : List Text) (fs : FileSystem) (tci : TelemetryCommandInterface)
      (ctx : ServiceContext State) (path c : Text)
      → inbox tci ≡ path
      → IsReady tci.options fs
      → queue path fs ≡ before ++ c ∷ []
      → All Parses before
      → let (fs', tci', ctx') = ticks cm (length before) (fs, tci, ctx) in
        (inbox tci' ≡ path)
        × IsReady tci'.options fs'
        × (queue path fs' ≡ c ∷ [])
        × (open_definitions tci'.options fs' ≡ open_definitions tci.options fs)
  unfolding ticks
  ticks-wait [] fs tci ctx path c e r q ps = (e, r, q, refl)
  ticks-wait (b ∷ before) fs tci ctx path c e r q ((name, params, p), ps) =
      let (same, ready, left, _, opens) =
        tick-IsReady fs tci ctx path b (before ++ c ∷ []) name params e r q p in
      let (fs', tci', ctx') = tick cm (fs, tci, ctx) in
      let (same', ready', left', opens') =
        ticks-wait before fs' tci' ctx' path c same ready left ps in
      (same', ready', left', opens' ∙ opens)

  -- A command waits for as many ticks as there are well-formed commands before it: the tick behind
  -- these dispatches its request, and leaves the inbox empty if the command was the last.
  pub ticks-turn :
      (before : List Text) (fs : FileSystem) (tci : TelemetryCommandInterface)
      (ctx : ServiceContext State) (path c : Text) (name : Text) (params : List (Text × Text))
      (definition : CommandDefinition) (request : CommandRequest)
      → inbox tci ≡ path
      → (r : IsReady tci.options fs) → queue path fs ≡ before ++ c ∷ []
      → All Parses before
      → parse_command_line c ≡ ok (name, params)
      → lookup name r.loads.table ≡ some definition
      → (let w = ticks cm (length before) (fs, tci, ctx) in
          resolve_command_request
            (build_command_request w.1.next_id definition params)
            (write_file path [] w.0)
          ≡ ok request)
      → let w = ticks cm (length before) (fs, tci, ctx) in
        let (fs', tci', ctx') = tick cm w in
        (queue path fs' ≡ [])
        × (tci'.last_command_name ≡ name)
        × (ctx' ≡ (dispatch cm request w.2).0)
        × (tci'.last_routed_module ≡ (dispatch cm request w.2).1.routed_module)
  unfolding unlines
  ticks-turn before fs tci ctx path c name params definition request e r q ps p d resolved =
      let (same, ready, first, opens) = ticks-wait before fs tci ctx path c e r q ps in
      let (fs', tci', ctx') = ticks cm (length before) (fs, tci, ctx) in
      let (_, _, left, named, _) =
        tick-IsReady fs' tci' ctx' path c [] name params same ready first p in
      let (loaded, l, table) = load_definitions-Loads fs' tci' ready.loads in
      let defined : lookup name loaded.definitions ≡ some definition =
        ap (lookup name) (table ∙ table_unique ready.loads r.loads opens) ∙ d in
      let resolves =
        subst
          (λ file.
            resolve_command_request (build_command_request tci'.next_id definition params)
              (write_file file [] fs')
            ≡ ok request)
          (sym same) resolved in
      let (services, routed) =
        tick_dispatches cm fs' tci' loaded ctx' c [] name params definition request l
          (ap (λ p. queue p fs') same ∙ first) p defined resolves in
      (left, named, services, routed)
