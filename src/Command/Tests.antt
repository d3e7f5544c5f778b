-- ===== src/Command/Tests.antt =====
-- The names of the command categories at concrete inputs.
use youyeetoo_rk3588_toolkit.Prelude.{◌≢◌, arith}
use youyeetoo_rk3588_toolkit.Prelude.Text.{codes, text_eq}
use youyeetoo_rk3588_toolkit.Command.{unknown, parse_category}

log_known : parse_category (codes "log") ≢ unknown
unfolding parse_category codes text_eq
log_known = grind arith
