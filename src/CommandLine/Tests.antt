-- ===== src/CommandLine/Tests.antt =====
-- Command lines for app/main.cpp.
use youyeetoo_rk3588_toolkit.Prelude.{◌≡◌, refl, pos, [], ◌∷◌, none, some, true, arith}
use youyeetoo_rk3588_toolkit.Prelude.Text.{codes}
use youyeetoo_rk3588_toolkit.Camera.{CameraAppOptions}
use youyeetoo_rk3588_toolkit.TaskManager.Tests.{options}
use youyeetoo_rk3588_toolkit.CommandLine.{parse_args, default_app_options}
use youyeetoo_rk3588_toolkit.CommandLine.Arguments.{arguments_of, IsGiven, parse_args-arguments_of}

abbrev verbose : CameraAppOptions
verbose = record options { debug = true; serial_number = codes "--help"; max_loops = pos 7 }

verbose-IsGiven : IsGiven verbose
verbose-IsGiven = ground arith

parse_args-arguments_of_example :
    parse_args (arguments_of verbose) default_app_options ≡ some verbose
parse_args-arguments_of_example = parse_args-arguments_of verbose verbose-IsGiven

help_refused : parse_args (codes "--help" ∷ []) default_app_options ≡ none
unfolding parse_args
help_refused = refl

no_time : parse_args (codes "--timeout-ms" ∷ codes "0" ∷ []) default_app_options ≡ none
unfolding parse_args
no_time = refl
