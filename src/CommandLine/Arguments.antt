-- ===== src/CommandLine/Arguments.antt =====
-- The arguments that stand for options, and app/main.cpp's reading of them.
use youyeetoo_rk3588_toolkit.Prelude.{
  ◌≡◌, refl, ap, ◌∙◌, ℤ, is_positive, is_nonneg, Bool, true, false, List, [], ◌∷◌, Option, none,
  some, arith, if◌then◌else◌,
}
use youyeetoo_rk3588_toolkit.Prelude.Text.{Text, codes, text_eq}
use youyeetoo_rk3588_toolkit.Number.{int_text}
use youyeetoo_rk3588_toolkit.Number.Decimal.{IsSigned, stoi-int_text}
use youyeetoo_rk3588_toolkit.Camera.{CameraAppOptions}
use youyeetoo_rk3588_toolkit.CommandLine.{
  parse_args, parse_positive_int, parse_non_negative_int, setting_of, setting_names, set_option,
  with_number, default_app_options, Setting, log_path, serial, timeout_ms, output_dir,
  poll_interval_ms, loop_interval_ms, max_loops, command_defs, command_inbox, port_map, can_config,
}

-- The argument that stands for an option.
abbrev pub name_of : Setting → Text
name_of log_path = codes "--log-path"
name_of serial = codes "--serial"
name_of timeout_ms = codes "--timeout-ms"
name_of output_dir = codes "--output-dir"
name_of poll_interval_ms = codes "--poll-interval-ms"
name_of loop_interval_ms = codes "--loop-interval-ms"
name_of max_loops = codes "--max-loops"
name_of command_defs = codes "--command-defs"
name_of command_inbox = codes "--command-inbox"
name_of port_map = codes "--port-map"
name_of can_config = codes "--can-config"

-- All options with their values, but for the flag debug.
abbrev pub settings_of : CameraAppOptions → List (Setting × Text)
settings_of o =
    (log_path, o.log_path)
    ∷ (serial, o.serial_number)
    ∷ (timeout_ms, int_text o.timeout_ms)
    ∷ (output_dir, o.default_output_dir)
    ∷ (poll_interval_ms, int_text o.poll_interval_ms)
    ∷ (loop_interval_ms, int_text o.loop_interval_ms)
    ∷ (max_loops, int_text o.max_loops)
    ∷ (command_defs, o.telemetry_command_defs)
    ∷ (command_inbox, o.telemetry_command_inbox)
    ∷ (port_map, o.port_map_path)
    ∷ (can_config, o.can_config_path)
    ∷ []

abbrev pub words_of : List (Setting × Text) → List Text
words_of [] = []
words_of ((s, value) ∷ rest) = name_of s ∷ value ∷ words_of rest

-- All options as arguments.
abbrev pub arguments_of : CameraAppOptions → List Text
arguments_of o =
    if o.debug then codes "--debug" ∷ words_of (settings_of o) else words_of (settings_of o)

-- Options that the command line can give.
pub record IsGiven (o : CameraAppOptions) : Type 0 where
  pub timeout_range : IsSigned 31 o.timeout_ms
  pub timeout_positive : is_positive o.timeout_ms ≡ true
  pub poll_range : IsSigned 31 o.poll_interval_ms
  pub poll_positive : is_positive o.poll_interval_ms ≡ true
  pub loop_range : IsSigned 31 o.loop_interval_ms
  pub loop_positive : is_positive o.loop_interval_ms ≡ true
  pub loops_range : IsSigned 31 o.max_loops
  pub loops_nonneg : is_nonneg o.max_loops ≡ true

positive-int_text :
    (z : ℤ) → IsSigned 31 z → is_positive z ≡ true → parse_positive_int (int_text z) ≡ some z
unfolding parse_positive_int
positive-int_text z h p =
    ap (λ o. elim o [ none ↦ none | some n ↦ if is_positive n then some n else none ])
      (stoi-int_text z h)
    ∙ rw p refl

nonneg-int_text :
    (z : ℤ) → IsSigned 31 z → is_nonneg z ≡ true → parse_non_negative_int (int_text z) ≡ some z
unfolding parse_non_negative_int
nonneg-int_text z h p =
    ap (λ o. elim o [ none ↦ none | some n ↦ if is_nonneg n then some n else none ])
      (stoi-int_text z h)
    ∙ rw p refl

-- The options set in turn.
abbrev set_each : List (Setting × Text) → CameraAppOptions → Option CameraAppOptions
set_each [] o = some o
set_each ((s, value) ∷ rest) o = elim (set_option s value o) [
  | none ↦ none
  | some o' ↦ set_each rest o'
]

setting_of-name_of : (s : Setting) → setting_of (name_of s) setting_names ≡ some s
unfolding setting_of setting_names codes text_eq
setting_of-name_of s = ground arith

name_of-no_flag : (s : Setting) → text_eq (name_of s) (codes "--debug") ≡ false
unfolding codes text_eq
name_of-no_flag s = ground arith

-- An option with its value at the front of the arguments.
parse_args-setting :
    (arg value : Text) (s : Setting) (rest : List Text) (o : CameraAppOptions)
    → text_eq arg (codes "--debug") ≡ false
    → setting_of arg setting_names ≡ some s
    → parse_args (arg ∷ value ∷ rest) o
      ≡ (elim (set_option s value o) [ none ↦ none | some o' ↦ parse_args rest o' ])
unfolding parse_args
parse_args-setting arg value s rest o h e = rw h (rw e refl)

elim-agree :
    {f g : CameraAppOptions → Option CameraAppOptions} (set : Option CameraAppOptions)
    → ((o : CameraAppOptions) → f o ≡ g o)
    → (elim set [ none ↦ none | some o ↦ f o ]) ≡ (elim set [ none ↦ none | some o ↦ g o ])
elim-agree none h = refl
elim-agree (some o) h = h o

parse_args-words_of :
    (settings : List (Setting × Text)) (o : CameraAppOptions)
    → parse_args (words_of settings) o ≡ set_each settings o
unfolding parse_args
parse_args-words_of [] o = refl
parse_args-words_of ((s, value) ∷ rest) o =
    parse_args-setting (name_of s) value s (words_of rest) o (name_of-no_flag s)
      (setting_of-name_of s)
    ∙ elim-agree (set_option s value o) (parse_args-words_of rest)

module _ (o : CameraAppOptions) (h : IsGiven o) where
  set_each-settings_of :
      (p : CameraAppOptions) → set_each (settings_of o) p ≡ some (record o { debug = p.debug })
  unfolding set_option
  set_each-settings_of p =
      rw
        (
          positive-int_text o.timeout_ms h.timeout_range h.timeout_positive,
          positive-int_text o.poll_interval_ms h.poll_range h.poll_positive,
          positive-int_text o.loop_interval_ms h.loop_range h.loop_positive,
          nonneg-int_text o.max_loops h.loops_range h.loops_nonneg,
          set_each,
          set_option,
          with_number,
        )
        refl

  parse_debug :
      (b : Bool)
      → parse_args
          (if b then codes "--debug" ∷ words_of (settings_of o) else words_of (settings_of o))
          default_app_options
        ≡ some (record o { debug = b })
  unfolding parse_args codes text_eq default_app_options
  parse_debug true =
      parse_args-words_of (settings_of o) (record default_app_options { debug = true })
      ∙ set_each-settings_of (record default_app_options { debug = true })
  parse_debug false =
      parse_args-words_of (settings_of o) default_app_options
      ∙ set_each-settings_of default_app_options

  -- The arguments that stand for options are read as these options, if the numbers are in the range
  -- of int, the times positive and the number of loops not negative.
  pub parse_args-arguments_of : parse_args (arguments_of o) default_app_options ≡ some o
  parse_args-arguments_of = parse_debug o.debug
