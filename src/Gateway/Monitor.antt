-- ===== src/Gateway/Monitor.antt =====
-- main of gateway/youyeetoo_eth_gateway.c: the start of the monitor, and the loop over what poll gives.
use youyeetoo_rk3588_toolkit.Prelude.{
  ℕ, Bool, List, [], ◌∷◌, ◌++◌, Option, none, some, if◌then◌else◌,
}
use youyeetoo_rk3588_toolkit.Prelude.Text.{Text}
use youyeetoo_rk3588_toolkit.Gateway.{
  Options, default_options, parse_options, PollResult, interrupted, poll_failed, timed_out,
  readable, inspected,
}
use youyeetoo_rk3588_toolkit.Gateway.Packets.{with_result, Inspection, inspect_frame}

-- How main starts: it returns an exit code, or monitors with its options.
pub data Start : Type 0 where
  exits : (code : ℕ) → Start
  monitors : Options → Start

-- The sockets of the interfaces, which can be opened or not.
unfoldable pub open_monitors : (can_open : Text → Bool) → Options → Start
open_monitors can_open o =
    if can_open o.payload_iface then if can_open o.x_iface then monitors o else exits 1 else exits 1

-- main up to its loop, for the arguments behind the program's name.
unfoldable pub start : List Text → (can_open : Text → Bool) → Start
unfolding parse_options open_monitors
start args can_open = elim (parse_options args default_options) [
  | none ↦ exits 2
  | some o ↦ open_monitors can_open o
]

-- The frames of one round, in the order of the interfaces.
unfoldable pub frames_of : Options → PollResult → List (Text × Text)
unfolding inspected
frames_of o (readable payload x) = inspected o.payload_iface payload ++ inspected o.x_iface x
frames_of o _ = []

unfoldable pub inspect_all : Options → List (Text × Text) → Option (List (Text × Inspection))
unfolding with_result inspect_frame
inspect_all o [] = some []
inspect_all o ((name, frame) ∷ rest) =
    let further = inspect_all o rest in
    with_result (inspect_frame o.udp_port frame)
      (λ i. with_result further (λ is. some ((name, i) ∷ is)))

-- The loop of main over what poll gives, until it fails; `none`: a byte past the end is read.
unfoldable pub monitor : Options → List PollResult → Option (List (Text × Inspection))
unfolding frames_of inspect_all with_result
monitor o [] = some []
monitor o (poll_failed ∷ polls) = some []
monitor o (interrupted ∷ polls) = monitor o polls
monitor o (timed_out ∷ polls) = monitor o polls
monitor o (readable payload x ∷ polls) =
    let further = monitor o polls in
    with_result (inspect_all o (frames_of o (readable payload x)))
      (λ now. with_result further (λ later. some (now ++ later)))
