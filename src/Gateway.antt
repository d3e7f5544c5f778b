-- ===== src/Gateway.antt =====
-- gateway/youyeetoo_eth_gateway.c: the monitor of the Ethernet interfaces, which decodes the frames that
-- it receives and logs them. A read of a byte that a buffer does not have ends a function in `none`.
-- What the system calls return is an argument; the log lines are values.
pub mod Packets
pub mod Bounds
pub mod Checksum
pub mod Damage
pub mod Flows
pub mod Monitor
mod Tests
use youyeetoo_rk3588_toolkit.Prelude.{
  ℕ, zero, suc, ◌+◌, ◌-◌, ◌*◌, ◌/◌, ◌%◌, ◌^◌, Bool, true, false, ◌&&◌, ◌||◌, List, [], ◌∷◌, Option,
  none, some, ltb, leb, ◌==◌, length, drop, is_some, if◌then◌else◌,
}
use youyeetoo_rk3588_toolkit.Prelude.Text.{Text, codes, text_eq, is_space, is_digit, drop_spaces}

pub record Options : Type 0 where
  pub payload_iface : Text
  pub x_iface : Text
  pub udp_port : ℕ
  pub promiscuous : Bool

-- The options of main.
abbrev pub default_options : Options
default_options = record {
  payload_iface = codes "eth0";
  x_iface = codes "eth1";
  udp_port = 47000;
  promiscuous = false;
}

-- The digits at the front of a text, read behind what has been read, and the text behind them.
unfoldable pub digits_of : Option ℕ → Text → Option (ℕ × Text)
digits_of none [] = none
digits_of (some n) [] = some (n, [])
digits_of none (c ∷ s) = if is_digit c then digits_of (some (c - 48)) s else none
digits_of (some n) (c ∷ s) =
    if is_digit c then digits_of (some (n * 10 + (c - 48))) s else some (n, c ∷ s)

abbrev sign_of : Text → Bool × Text
sign_of [] = (false, [])
sign_of (c ∷ cs) =
    if c == b'-' then (true, cs) else if c == b'+' then (false, cs) else (false, c ∷ cs)

-- strtoul(s, &end, 10): the value and the text at `end`; `none` where there are no digits. A value
-- that does not fit is the greatest one; a minus sign negates modulo 2^64.
unfoldable pub strtoul : Text → Option (ℕ × Text)
unfolding digits_of drop_spaces
strtoul s =
    let (negative, digits) = sign_of (drop_spaces is_space s) in
    elim (digits_of none digits) [
      | none ↦ none
      | some (n, rest) ↦
          if leb (2 ^ 64) n
          then some (2 ^ 64 - 1, rest)
          else some (if negative then (2 ^ 64 - n) % 2 ^ 64 else n, rest)
    ]

-- The value of --port.
unfoldable pub parse_port : Text → Option ℕ
unfolding strtoul
parse_port s = elim (strtoul s) [
  | none ↦ none
  | some (value, []) ↦ if ltb 65535 value then none else some value
  | some (value, c ∷ rest) ↦ none
]

-- An option without a value.
unfoldable pub parse_flag : Text → Options → Option Options
unfolding text_eq
parse_flag arg o =
    if text_eq arg (codes "--no-promisc")
    then some (record o { promiscuous = false })
    else if text_eq arg (codes "--promisc")
    then some (record o { promiscuous = true })
    else none

-- An option with a value, if it is one.
unfoldable pub parse_value : (arg value : Text) → Options → Option (Option Options)
unfolding parse_port text_eq
parse_value arg value o =
    if text_eq arg (codes "--payload-iface")
    then some (some (record o { payload_iface = value }))
    else if text_eq arg (codes "--x-iface")
    then some (some (record o { x_iface = value }))
    else if text_eq arg (codes "--port")
    then some
        (elim (parse_port value) [ none ↦ none | some port ↦ some (record o { udp_port = port }) ])
    else none

-- parse_options, for the arguments behind the program's name; `none` where it returns -1.
unfoldable pub parse_options : List Text → Options → Option Options
unfolding parse_value parse_flag codes
parse_options [] o = some o
parse_options (arg ∷ []) o = parse_flag arg o
parse_options (arg ∷ value ∷ rest) o = elim (parse_value arg value o) [
  | some none ↦ none
  | some (some o') ↦ parse_options rest o'
  | none ↦ elim (parse_flag arg o) [ none ↦ none | some o' ↦ parse_options (value ∷ rest) o' ]
]

-- What recvfrom gives for a socket that poll found, or did not find, readable.
pub data SocketResult : Type 0 where
  not_readable : SocketResult
  receive_failed : SocketResult
  outgoing : Text → SocketResult
  incoming : Text → SocketResult

-- How poll ends.
pub data PollResult : Type 0 where
  interrupted poll_failed timed_out : PollResult
  readable : (payload x : SocketResult) → PollResult

-- The frames of the sockets that are inspected, with the names of their interfaces.
unfoldable pub inspected : Text → SocketResult → List (Text × Text)
inspected name (incoming frame) = (name, frame) ∷ []
inspected name _ = []
